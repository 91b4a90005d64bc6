-- ===== src/Lib.antt =====
-- A verification library for a Go implementation of the MIT 6.5840 labs: Raft with log compaction,
-- and the services that stand on it.
--
-- The program. Each Raft peer (src/raft/raft.go) keeps its state under one lock; goroutines and RPC
-- handlers take the lock, do one step and release it. A service calls `Start` and `Snapshot` on its
-- peer, and reads the committed commands and the snapshots from `applyCh`.
--
-- The model of Raft. One definition for each critical section, from a peer's state to `Option` of
-- its new state and its answer: `none` is a run-time panic (an index out of range) or `log.Fatalf`.
--   Raft/Types        src/raft/raft.go, enum.go, util.go, persister.go: the data and the apply queue
--   Raft/Index        internalIndex, externalIndex, localIndex, globalIndex, globalLogLen
--   Raft/Persist      persist, readPersist, Make, Kill, Snapshot
--   Raft/Vote         RequestVote, the timeout of ticker, both critical sections of election
--   Raft/Append       AppendEntries, InstallSnapshot
--   Raft/Leader       Start, syncEntries, handleFailedReply, commitCheck
--   Raft/Apply        both loops of applyEntries
-- The other files of Raft hold what is shown of these definitions: Raft/Shape the well-formedness of
-- the log, Raft/Replication what AppendEntries does to the entries, Raft/Durable restarts,
-- Raft/Votes one peer's votes over all its steps, and Raft/Election the cluster, whose steps
-- interleave the steps of all peers. RPCs can be lost, repeated, delayed and reordered: a step takes
-- any arguments, so a handler is right for each request that could arrive. What a step of the cluster
-- requires of the network is written at `Step`: the ballots of a winner are votes that were given.
-- The source's win check does not compare the terms, so a win of a stale election is not such a step.
-- An election can begin in any state, also at a peer that has meanwhile become the leader; the cluster
-- records which leaders have so gone on to a later term, and election safety is about the others.
--
-- The services. KvSrv is src/kvsrv: its handlers (KvSrv/Server), its clerk (KvSrv/Client), and what a
-- repeated call does (KvSrv/Retries). KvRaft is src/kvraft: the data (KvRaft/Types), the handlers, the
-- wait for a commit and the loop of handleApplyMsg (KvRaft/Server), and the clerk (KvRaft/Client). A
-- KvRaft server holds a Raft peer of the model and calls its `start`, `take_snapshot` and `make`; a
-- wait for a commit is the list of the server's states that it looks at. What is shown stands in
-- KvRaft/Once and KvRaft/Effects (the map is that of the effective operations), KvRaft/Replicas,
-- KvRaft/Replies and KvRaft/Retries (the clerk's loop). A clerk's network is a function of the attempt
-- and the server; its loop runs on fuel, for which the number of servers is enough if one answers.
--
-- The shard controller. ShardCtrler is src/shardctrler: the loop of rebalance (ShardCtrler/Rebalance),
-- rebalance around it and the configurations that Join, Leave and Move make (ShardCtrler/Configs).
-- What is shown goes from the inner loop (ShardCtrler/Extremes) over one move (ShardCtrler/Balance)
-- and the loop (ShardCtrler/Spread) to what is collected before it (ShardCtrler/Collect) and
-- the array that is written after it (ShardCtrler/Owners, ShardCtrler/Written), rebalance
-- (ShardCtrler/Placement) and the list of configurations (ShardCtrler/History). The loop runs on
-- fuel: one round more than the number of orphans and the square of the number of shards is enough,
-- 111 for ten shards. ShardCtrler/Server has the handlers, the wait for a commit and the loop of
-- handleApplyMsg on a Raft peer of the model, ShardCtrler/Client the clerk, and under
-- ShardCtrler/Server stands what is shown of the list of configurations over a server's life.
--
-- The sharded service. ShardKv is src/shardkv: the data (ShardKv/Types), key2shard and the keys of
-- the sessions (ShardKv/Keys), applyOp (ShardKv/Apply), the handlers, the wait and the loop of
-- handleApplyMsg (ShardKv/Server), the parts of MoveShards and pollConfig that decide what moves
-- (ShardKv/Movement), and the clerk (ShardKv/Client). Arrays of ten elements are lists, an index out of
-- range is `none`. Below these stand the bounds of the arrays (ShardKv/Server/Sized), operations on
-- shards that are not served (ShardKv/Server/Failures), deletions (ShardKv/Apply/Effects), the way of
-- a shard from one group to another (ShardKv/Movement/Transfer, ShardKv/Movement/Receive), and the
-- shards that groups serve meanwhile (ShardKv/Movement/Within, Handoff, Disjoint and Received).
--
-- MapReduce. MapReduce/Coordinator is src/mr/coordinator.go: the handlers, and the critical sections
-- of the goroutine of `run`, `AllocWork` and `Exit`, each from a system, which is the coordinator with
-- the place and the local variables of that goroutine, to `Option` of the next one. A step is a call of
-- a handler or the next critical section, so the handlers come at any time (MapReduce/Reachable), and
-- the search for a free worker goes over the map of workers in any order;
-- what is true of all reachable systems is prepared in MapReduce/Assignment, MapReduce/Handlers,
-- MapReduce/Loops, MapReduce/Valid and MapReduce/Run. MapReduce/Worker is src/mr/worker.go: the
-- partition of pairs into files, and the loop of do_reducef over sorted pairs, whose rounds are no
-- more than the pairs. The hash and the sort are parameters.
--
-- Choices. A log is non-empty by its type, since its first entry stands for the snapshot. Indices
-- and terms are natural numbers without a bound (`int` has 64 bits in Go); `localIndex` can be
-- negative and is an integer. Commands and byte strings are type parameters, and labgob's encoding
-- is the parameter `Codec`, whose laws say that decoding undoes encoding and that no encoded state is
-- empty. Time is a number that the caller passes. The loop of `applyEntries` runs on fuel, for which
-- the length of the log is enough; that of `commitCheck` gets the length of the log and two more.
-- Strings are sequences of bytes, Go's maps association lists, random numbers arguments.
--
-- Not modelled: goroutine scheduling inside a critical section, the condition variables, heartBeat
-- and serveAsLeader (which only signal and start the steps above), Raft's retry loops around an RPC,
-- debug output, and the test harnesses; in src/shardkv the goroutines of MoveShards and the order of the
-- phases of pollConfig; in src/mr the file system, JSON and the socket; src/labrpc and src/labgob, which
-- are channels, goroutines and reflection; src/porcupine, a copy of another project's library.
pub mod Common
pub mod Raft
pub mod KvSrv
pub mod KvRaft
pub mod ShardCtrler
pub mod ShardKv
pub mod MapReduce

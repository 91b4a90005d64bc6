-- ===== src/ShardKv/Server.antt =====
-- src/shardkv/server.go: the RPC handlers, the waiting for a commit, the loop over applyCh and the
-- start of a server. `none` is `log.Fatal` or a panic.
pub mod Sized
pub mod Failures
use mit_6_5840_2024_lab.Common.{
  ℕ, ◌+◌, ◌-◌, Bool, true, false, not, ◌&&◌, Option, none, some, List, [], ◌∷◌, leb, ◌==◌,
  if◌then◌else◌, ◌>>=◌, replicate,
}
use mit_6_5840_2024_lab.Common.Int.{ℤ, pos, negsuc, eq_ℤ, ltb_ℤ, is_neg}
use mit_6_5840_2024_lab.Common.Maps.{Map, lookup, insert, delete, lookup_or, nat_eq}
use mit_6_5840_2024_lab.Common.Strings.{Str, str_eq}
use mit_6_5840_2024_lab.Raft.Types.{ApplyMsg, Codec, Persister, is_leader}
use mit_6_5840_2024_lab.Raft.Persist.{make, kill, take_snapshot}
use mit_6_5840_2024_lab.Raft.Leader.{start}
use mit_6_5840_2024_lab.KvRaft.Types.{SnapshotCodec}
use mit_6_5840_2024_lab.ShardCtrler.Rebalance.{n_shards}
use mit_6_5840_2024_lab.ShardKv.Types.{
  Err, ok, wrong_group, wrong_leader, commit_timeout, failed_to_commit, blank, Session, Op, Call,
  get, change_config, Reply, Snapshot, ShardKv,
}
use mit_6_5840_2024_lab.ShardKv.Keys.{key2shard, uni_key, key_of, id_of, req_num_of}
use mit_6_5840_2024_lab.ShardKv.Apply.{serves, apply_op}

-- What `handleNormalRPC` comes to before it waits: a reply, or an operation at an index.
pub data Handled : Type 0 where
  answered : Reply → Handled
  waits : Op → ℤ → Handled

abbrev pub op_of : Call → ℤ → Op
op_of args number = record {
  number = number;
  req_num = req_num_of args;
  ck_id = id_of args;
  shard_num = key2shard (key_of args);
  args = args;
}

abbrev pub failure : Err → Reply
failure err = record { err = err; value = []; num = 0 }

-- `op, ok := kv.logRecord[index]; ok && op.Number == number`; no entry has a negative index.
abbrev pub is_recorded : {B : Type 0} → ShardKv B → ℤ → ℤ → Bool
is_recorded kv (negsuc n) number = false
is_recorded kv (pos index) number = elim (lookup index kv.log_record) [
  | none ↦ false
  | some op ↦ eq_ℤ op.number number
]

abbrev pub key_of_session : Call → Str
key_of_session args = uni_key (id_of args) (key2shard (key_of args))

-- The request was the last one in its session, and its entry is still in `logRecord`.
abbrev pub is_done : {B : Type 0} → ShardKv B → Call → Bool
is_done kv args = elim (lookup (key_of_session args) kv.ck_sessions) [
  | none ↦ false
  | some s ↦
      s.last_op_valid
      && (s.last_op_req_num == req_num_of args)
      && is_recorded kv s.last_op_index s.last_op_number
]

-- `successCommit`
unfoldable pub success_commit : {B : Type 0} → ShardKv B → Call → Reply
success_commit kv (get args) = record { err = ok; value = lookup_or args.key kv.mp []; num = 0 }
success_commit kv (change_config args) = record { err = ok; value = []; num = kv.config.num }
success_commit kv _ = record { err = ok; value = []; num = 0 }

-- One look of `waittingForCommit` under the lock.
unfoldable pub poll : {B : Type 0} → ShardKv B → Op → ℤ → Call → Option Reply
unfolding success_commit
poll kv op (negsuc n) args = none
poll kv op (pos index) args =
    if leb index kv.last_applied
    then (elim (lookup index kv.log_record) [
      | none ↦ none
      | some done ↦
          if eq_ℤ done.number op.number
          then some (success_commit kv args)
          else some (failure failed_to_commit)
    ])
    else none

-- `waittingForCommit`: the states that it sees, each with whether the time is over after it. The
-- list ends when the server is killed, and the reply stays as the caller made it.
unfoldable pub waitting_for_commit : {B : Type 0} → List (ShardKv B × Bool) → Op → ℤ → Call → Reply
unfolding poll
waitting_for_commit [] op index args = failure blank
waitting_for_commit ((kv, over) ∷ later) op index args =
    let rest = waitting_for_commit later op index args in
    elim (poll kv op index args) [
      | some reply ↦ reply
      | none ↦ if over then failure commit_timeout else rest
    ]

-- The session makes `op` a stable operation.
unfoldable pub is_stable : Option Session → Op → ℕ → Bool
is_stable none op index = false
is_stable (some s) op index =
    s.last_op_valid && ltb_ℤ s.last_op_index (pos index) && leb op.req_num s.last_op_req_num

-- The loop that deletes what is confirmed from `logRecord` and `confirmMap`.
unfoldable pub forget : Map ℕ Op → Map ℕ Op × Map ℕ Bool → Map ℕ Op × Map ℕ Bool
forget [] left = left
forget ((key, op) ∷ rest) (record_left, confirm_left) = forget rest (
    if lookup_or key confirm_left false
    then (delete key record_left, delete key confirm_left)
    else (record_left, confirm_left))

abbrev pub session_of : Op → ℕ → Session
session_of op index = record {
  last_op_valid = true;
  last_op_index = pos index;
  last_op_number = op.number;
  last_op_req_num = op.req_num;
  last_op_shard_num = op.shard_num;
}

abbrev pub op_key : Op → Str
op_key op = uni_key op.ck_id op.shard_num

module _ {B : Type 0} where
  abbrev pub recorded : ShardKv B → Op → ℕ → ShardKv B
  recorded kv op index = record kv {
    log_record = insert index op kv.log_record;
    last_applied = index;
  }

  abbrev pub remembered : ShardKv B → Op → ℕ → ShardKv B
  remembered kv op index = record kv {
    ck_sessions = insert (op_key op) (session_of op index) kv.ck_sessions;
  }

  -- `op.Number = -1`
  abbrev pub refused : ShardKv B → Op → ℕ → ShardKv B
  refused kv op index = record kv {
    log_record = insert index (record op { number = negsuc 0 }) kv.log_record;
  }

  abbrev pub snapshot_of : ShardKv B → Snapshot
  snapshot_of kv = record {
    mp = kv.mp;
    ck_sessions = kv.ck_sessions;
    config = kv.config;
    shard_last_nums = kv.shard_last_nums;
    shard_vec = kv.shard_vec;
    maker = kv.me;
  }

  -- What is left to do with the entry at `index`, from a state in which it is recorded.
  unfoldable pub execute : ShardKv B → Op → ℕ → Option (ShardKv B)
  unfolding apply_op
  execute kv op index = apply_op kv op.args >>= λ r.
      some (if r.1 then remembered r.0 op index else refused r.0 op index)

module _ {B : Type 0} ⦃codec : Codec Op B⦄ where
  -- `handleNormalRPC` before it waits; `number` is `nrand()`.
  unfoldable pub handle_normal_rpc : ShardKv B → Call → ℕ → Option (ShardKv B × Handled)
  unfolding success_commit
  handle_normal_rpc kv args number =
      if not (is_leader kv.rf.state)
      then some (kv, answered (failure wrong_leader))
      else if not (is_neg (id_of args)) && not (serves kv (key_of args))
      then some (kv, answered (failure wrong_group))
      else if is_done kv args
      then some (kv, answered (success_commit kv args))
      else (do
        (rf, started) ← start kv.rf (op_of args (pos number))
        if not started.is_leader
            then some (kv, answered (failure wrong_leader))
            else some (record kv { rf = rf }, waits (op_of args (pos number)) started.index))

  abbrev pub must_snapshot : ShardKv B → Bool
  must_snapshot kv =
      not (eq_ℤ kv.maxraftstate (negsuc 0))
      && not (ltb_ℤ (pos (codec.size kv.rf.persister.raftstate)) kv.maxraftstate)

module _ {B : Type 0} ⦃codec : Codec Op B⦄ ⦃snapshots : SnapshotCodec Snapshot B⦄ where
  unfoldable pub make_snapshot : ShardKv B → ℕ → Option (ShardKv B)
  unfolding forget
  make_snapshot kv index =
      if must_snapshot kv
      then (do
        let left = forget kv.log_record (kv.log_record, kv.confirm_map)
        rf ← take_snapshot kv.rf index (snapshots.encode (snapshot_of kv))
        some (record kv { rf = rf; log_record = left.0; confirm_map = left.1 }))
      else some kv

  -- An entry out of order is only logged.
  unfoldable pub apply_command : ShardKv B → Op → ℕ → Option (ShardKv B)
  unfolding is_stable execute make_snapshot
  apply_command kv op index =
      if is_stable (lookup (op_key op) kv.ck_sessions) op index
      then some (remembered (recorded kv op index) op index)
      else execute (recorded kv op index) op index >>= λ kv1. make_snapshot kv1 index

  unfoldable pub apply_snapshot : ShardKv B → ApplyMsg Op B → ShardKv B
  apply_snapshot kv msg =
      let snapshot = snapshots.decode msg.snapshot in
      record kv {
        mp = snapshot.mp;
        ck_sessions = snapshot.ck_sessions;
        config = snapshot.config;
        shard_vec = snapshot.shard_vec;
        shard_last_nums = snapshot.shard_last_nums;
        last_applied = msg.snapshot_index;
      }

  -- One message of the loop of `handleApplyMsg`.
  unfoldable pub handle_apply_msg : ShardKv B → ApplyMsg Op B → Option (ShardKv B)
  unfolding apply_command apply_snapshot
  handle_apply_msg kv msg =
      if msg.command_valid
      then (elim msg.command [ none ↦ none | some op ↦ apply_command kv op msg.command_index ])
      else if msg.snapshot_valid
      then some (apply_snapshot kv msg)
      else some kv

  unfoldable pub kill_server : ShardKv B → ShardKv B
  kill_server kv = record kv { dead = true; rf = kill kv.rf }

  -- `StartServer`; `uid` is `-nrand()`.
  unfoldable pub start_server : ℕ → ℕ → Persister B → ℤ → ℕ → ℤ → ℕ → Option (ShardKv B)
  start_server servers me persister maxraftstate gid uid now = do
    rf ← make servers me persister now
    some (record {
      me = me;
      rf = rf;
      gid = gid;
      config = record { num = 0; shards = replicate n_shards 0; groups = [] };
      dead = false;
      maxraftstate = maxraftstate;
      mp = [];
      ck_sessions = [];
      log_record = [];
      confirm_map = [];
      last_applied = 0;
      uid = uid;
      local_req_num = 1;
      shard_last_nums = replicate n_shards 0;
      shard_vec = replicate n_shards false;
    })

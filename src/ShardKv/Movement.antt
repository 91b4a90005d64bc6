-- ===== src/ShardKv/Movement.antt =====
-- src/shardkv/server.go: a change of configuration, which moves shards between groups:
-- `RequestMapAndSession`, `MoveShards` and `pollConfig`.
pub mod Receive
pub mod Transfer
pub mod Within
pub mod Handoff
pub mod Disjoint
pub mod Received
use mit_6_5840_2024_lab.Common.{
  ℕ, zero, suc, ◌+◌, Bool, true, false, not, ◌&&◌, ◌||◌, Option, none, some, List, [], ◌∷◌, ltb,
  ◌==◌, if◌then◌else◌,
}
use mit_6_5840_2024_lab.Common.Maps.{Map, insert, lookup, lookup_or, nat_eq}
use mit_6_5840_2024_lab.Common.Merges.{select}
use mit_6_5840_2024_lab.Common.Strings.{Str, str_eq}
use mit_6_5840_2024_lab.Raft.Types.{is_leader}
use mit_6_5840_2024_lab.ShardCtrler.Configs.{Config}
use mit_6_5840_2024_lab.ShardKv.Types.{
  ShardKv, Err, ok, wrong_leader, lower_config_num, Session, Call, change_config, apply_movement,
  delete_shards, update_shard_vec, Reply, ApplyMovementArgs, RequestMapAndSessionArgs,
  RequestMapAndSessionReply,
}
use mit_6_5840_2024_lab.ShardKv.Keys.{key2shard, is_clients}

-- `args.Shards[key2shard(key)]`, and the sessions that go with the shards
abbrev pub is_asked : Map ℕ Bool → Str → Str → Bool
is_asked shards key value = lookup_or (key2shard key) shards false

abbrev pub is_asked_session : Map ℕ Bool → Str → Session → Bool
is_asked_session shards uni_key s = is_clients uni_key && lookup_or s.last_op_shard_num shards false

unfoldable pub request_map_and_session :
    {B : Type 0} → ShardKv B → RequestMapAndSessionArgs → RequestMapAndSessionReply
request_map_and_session kv args =
    if not (is_leader kv.rf.state)
    then record { err = wrong_leader; mp = []; sessions = [] }
    else if ltb kv.config.num args.config_num
    then record { err = lower_config_num; mp = []; sessions = [] }
    else record {
      err = ok;
      mp = select (is_asked args.shards) kv.mp;
      sessions = select (is_asked_session args.shards) kv.ck_sessions;
    }

-- The first loop of `MoveShards`, from shard `i` on: the groups with the shards to receive from them.
unfoldable pub receive_from : ℕ → ℕ → List ℕ → List ℕ → Map ℕ (Map ℕ Bool) → Map ℕ (Map ℕ Bool)
receive_from me i [] news from = from
receive_from me i (old ∷ olds) [] from = from
receive_from me i (old ∷ olds) (new ∷ news) from = receive_from me (i + 1) olds news (
    if not (old == me) && (new == me)
    then insert old (insert i true (lookup_or old from [])) from
    else from)

-- Phase 1 of `pollConfig`: the shards that can be served at once.
unfoldable pub new_shard_vec : ℕ → List ℕ → List ℕ → List Bool
new_shard_vec me [] news = []
new_shard_vec me (old ∷ olds) [] = []
new_shard_vec me (old ∷ olds) (new ∷ news) =
    (((old == me) || (old == 0)) && (new == me)) ∷ new_shard_vec me olds news

abbrev is_ok : Err → Bool
is_ok ok = true
is_ok _ = false

abbrev is_wrong_leader : Err → Bool
is_wrong_leader wrong_leader = true
is_wrong_leader _ = false

-- The loop around `handleNormalRPC` in `ApplyMovement` and twice in `pollConfig`: the replies that it
-- sees until the server is killed, and whether it ends with OK.
unfoldable pub settles : List Err → Bool
settles [] = false
settles (err ∷ later) =
    let rest = settles later in
    if is_ok err then true else if is_wrong_leader err then false else rest

-- The calls of `RequestMapAndSession` and of `DeleteShards` to the servers of a group, in rounds:
-- `net` tells the outcome of the attempt at each server, `none` if the call fails.
unfoldable pub ask_round :
    (Str → Option RequestMapAndSessionReply) → List Str → Option RequestMapAndSessionReply
ask_round net [] = none
ask_round net (server ∷ servers) =
    let later = ask_round net servers in
    elim (net server) [ none ↦ later | some reply ↦ if is_ok reply.err then some reply else later ]

-- `none` is a loop that goes on after `fuel` rounds.
unfoldable pub ask_group :
    (ℕ → Str → Option RequestMapAndSessionReply)
    → Option (List Str)
    → ℕ
    → ℕ
    → Option RequestMapAndSessionReply
unfolding ask_round
ask_group net servers zero round = none
ask_group net none (suc fuel) round = ask_group net none fuel (round + 1)
ask_group net (some servers) (suc fuel) round =
    let later = ask_group net (some servers) fuel (round + 1) in
    elim (ask_round (net round) servers) [ some reply ↦ some reply | none ↦ later ]

module _ {B : Type 0} where
  -- `kv.localReqNum += 1`
  abbrev pub numbered : ShardKv B → ShardKv B
  numbered kv = record kv { local_req_num = kv.local_req_num + 1 }

  -- The arguments of the servers' own operations.
  abbrev pub movement_args :
      ShardKv B → Config → Map ℕ Bool → RequestMapAndSessionReply → ApplyMovementArgs
  movement_args kv new shards reply = record {
    id = kv.uid;
    req_num = kv.local_req_num;
    mp = reply.mp;
    sessions = reply.sessions;
    config = new;
    shards = shards;
  }

  unfoldable pub start_movement :
      ShardKv B → Config → Map ℕ Bool → RequestMapAndSessionReply → ShardKv B × Call
  start_movement kv new shards reply =
      (numbered kv, apply_movement (movement_args kv new shards reply))

  unfoldable pub start_deletion : ShardKv B → Config → Map ℕ Bool → ShardKv B × Call
  start_deletion kv new shards = (
    numbered kv,
    delete_shards
        (record { id = kv.uid; req_num = kv.local_req_num; shards = shards; config_num = new.num }),
  )

  unfoldable pub start_update : ShardKv B → Config → ShardKv B × Call
  unfolding new_shard_vec
  start_update kv next = (
    numbered kv,
    update_shard_vec (record {
      id = kv.uid;
      req_num = kv.local_req_num;
      config_num = next.num;
      new_vec = new_shard_vec kv.gid kv.config.shards next.shards;
    }),
  )

  unfoldable pub start_change : ShardKv B → Config → ShardKv B × Call
  start_change kv next = (
    numbered kv,
    change_config (record {
      id = kv.uid;
      req_num = kv.local_req_num;
      old_num = kv.config.num;
      new_num = next.num;
      config = next;
    }),
  )

  -- The test before phase 2
  abbrev pub may_move : ShardKv B → Config → Bool → Bool
  may_move kv next updated = updated && ltb kv.config.num next.num && not kv.dead

  -- What `MoveShards` has to receive: nothing on the way to the first configuration or to the same.
  unfoldable pub to_receive : ShardKv B → Config → Map ℕ (Map ℕ Bool)
  unfolding receive_from
  to_receive kv new =
      if (kv.config.num == 0) || (kv.config.num == new.num)
      then []
      else receive_from kv.gid 0 kv.config.shards new.shards []

  -- `MoveShards` goes on to the deletions.
  abbrev pub may_delete : ShardKv B → Bool → Bool
  may_delete kv failed = is_leader kv.rf.state && not kv.dead && not failed

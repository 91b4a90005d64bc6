-- ===== src/ShardKv/Movement/Transfer.antt =====
-- src/shardkv/server.go: shards on their way from one group to another, RequestMapAndSession at the
-- source and ApplyMovement at the destination.
use mit_6_5840_2024_lab.Common.{
  ℕ, ◌≤◌, ◌≡◌, refl, ap, ◌∙◌, Bool, true, ◌&&◌, Option, none, some, [], ◌∷◌, arith, Returns,
  Returns-map,
}
use mit_6_5840_2024_lab.Common.Maps.{Map, lookup, nat_eq}
use mit_6_5840_2024_lab.Common.Merges.{
  newer, newer-kept, UniqueKeys, select, lookup-select, lookup-merge, UniqueKeys-select,
}
use mit_6_5840_2024_lab.Common.Strings.{Str, str_eq}
use mit_6_5840_2024_lab.Raft.Types.{Codec, is_leader}
use mit_6_5840_2024_lab.KvRaft.Types.{SnapshotCodec}
use mit_6_5840_2024_lab.ShardCtrler.Configs.{Config}
use mit_6_5840_2024_lab.ShardCtrler.Rebalance.{n_shards}
use mit_6_5840_2024_lab.ShardKv.Types.{
  ShardKv, Snapshot, Session, Call, Op, ok, RequestMapAndSessionArgs, ApplyMovementArgs,
}
use mit_6_5840_2024_lab.ShardKv.Keys.{key2shard}
use mit_6_5840_2024_lab.ShardKv.Apply.{
  is_older, takes_key, takes_session, unplaced, unplaced_all, sessions_within, shards_within,
  apply_op, apply_move, move_in,
}
use mit_6_5840_2024_lab.ShardKv.Apply.Shards.{sessions_within-select}
use mit_6_5840_2024_lab.ShardKv.Server.{apply_command, is_stable, op_key, recorded, remembered}
use mit_6_5840_2024_lab.ShardKv.Server.Sized.{Sized}
use mit_6_5840_2024_lab.ShardKv.Movement.{
  request_map_and_session, start_movement, movement_args, is_asked, is_asked_session,
}

-- What the destination `dst` is after it applied the movement of `shards` from `src`: of a key in
-- a shard that it needs it takes the value of the source, if there is one.
pub record Transferred {B : Type 0} (src dst : ShardKv B) (shards : Map ℕ Bool) (num : ℕ)
    (dst' : ShardKv B) : Type 0 where
  pub keys :
      (key : Str)
      → lookup key dst'.mp
        ≡ newer
            (λ v. is_older dst.shard_last_nums num (key2shard key) && is_asked shards key v)
            (lookup key src.mp)
            (lookup key dst.mp)
  pub sessions :
      (key : Str) (s : Session)
      → lookup key src.ck_sessions ≡ some s
      → is_asked_session shards key s ≡ true
      → is_older dst.shard_last_nums num s.last_op_shard_num ≡ true
      → lookup key dst'.ck_sessions ≡ some (unplaced s)

abbrev unplaced? : Option Session → Option Session
unplaced? none = none
unplaced? (some s) = some (unplaced s)

lookup-unplaced_all :
    (key : Str) (m : Map Str Session) → lookup key (unplaced_all m) ≡ unplaced? (lookup key m)
unfolding lookup
lookup-unplaced_all key [] = refl
lookup-unplaced_all key ((j, s) ∷ m) = ground (arith, lookup-unplaced_all key m)

UniqueKeys-unplaced_all : (m : Map Str Session) → UniqueKeys m → UniqueKeys (unplaced_all m)
UniqueKeys-unplaced_all [] u = tt
UniqueKeys-unplaced_all ((j, s) ∷ m) (n, u) =
    ((let l = lookup-unplaced_all j m in rw l (rw n refl)), UniqueKeys-unplaced_all m u)

module _ {B : Type 0} (src dst : ShardKv B) (args : ApplyMovementArgs) where
  move_in-Transferred :
      UniqueKeys src.mp
      → UniqueKeys src.ck_sessions
      → args.mp ≡ select (is_asked args.shards) src.mp
      → args.sessions ≡ select (is_asked_session args.shards) src.ck_sessions
      → Transferred src dst args.shards args.config.num (move_in dst args)
  unfolding move_in
  move_in-Transferred um us em es = record {
    keys = λ key.
        let m =
          lookup-merge (takes_key dst.shard_last_nums args.config.num) key
            (select (is_asked args.shards) src.mp) dst.mp (UniqueKeys-select _ src.mp um) in
        let sel = lookup-select (is_asked args.shards) key src.mp um in
        rw em (
          m
          ∙ ap
              (λ o. newer (takes_key dst.shard_last_nums args.config.num key) o (lookup key dst.mp))
              sel
          ∙ newer-kept _ (is_asked args.shards key) (lookup key src.mp) (lookup key dst.mp));
    sessions = λ key s e a o.
        let m =
          lookup-merge (takes_session dst.shard_last_nums args.config.num) key
            (unplaced_all (select (is_asked_session args.shards) src.ck_sessions)) dst.ck_sessions
            (UniqueKeys-unplaced_all _ (UniqueKeys-select _ src.ck_sessions us)) in
        let sel = lookup-select (is_asked_session args.shards) key src.ck_sessions us in
        let un = lookup-unplaced_all key (select (is_asked_session args.shards) src.ck_sessions) in
        rw es (m ∙ rw (un, sel, e) (rw a (ground arith)));
  }

-- The source answers the request for the configuration of number `num`.
abbrev pub Answers : {B : Type 0} → ShardKv B → ℕ → Type 0
Answers src num =
    (is_leader src.rf.state ≡ true)
    × (num ≤ src.config.num)
    × UniqueKeys src.mp
    × UniqueKeys src.ck_sessions

abbrev pub request_for : ℕ → ℕ → Map ℕ Bool → ℕ → RequestMapAndSessionArgs
request_for gid me shards num = record { gid = gid; me = me; shards = shards; config_num = num }

module _ {B : Type 0} (src : ShardKv B) (gid me : ℕ) (shards : Map ℕ Bool) (num : ℕ) where
  pub request_map_and_session-answer :
      Answers src num
      → request_map_and_session src (request_for gid me shards num) ≡ record {
        err = ok;
        mp = select (is_asked shards) src.mp;
        sessions = select (is_asked_session shards) src.ck_sessions;
      }
  unfolding request_map_and_session
  request_map_and_session-answer (leads, late, u, u2) = ground arith

module _ {B : Type 0} (src asker dst : ShardKv B) (new : Config) (shards : Map ℕ Bool) where
  -- The operation that the server `asker` makes of the source's answer.
  abbrev pub movement : Call
  movement =
      (start_movement asker new shards
        (request_map_and_session src (request_for asker.gid asker.me shards new.num))).1

  -- Let a server lead its group, have the configuration `new` or a later one, and have sessions of
  -- shards below 10. A server of another group that asks it for shards below 10 and applies the
  -- movement of its answer, in whatever state with arrays of ten elements and sessions of the ten
  -- shards, does so without a panic. Then, for each of these shards that had not reached the
  -- configuration `new` at this second server, every key of the shard that the source has reads as
  -- at the source, and every session of a client is that of the source but for the index of the
  -- entry; the other keys read as before.
  pub apply_movement-Transferred :
      Answers src new.num
      → sessions_within n_shards src.ck_sessions ≡ true
      → shards_within n_shards shards ≡ true
      → Sized dst
      → Returns (λ r. Transferred src dst shards new.num r.0 × (r.1 ≡ true)) (apply_op dst movement)
  unfolding apply_op apply_move start_movement
  apply_movement-Transferred a w sw sd =
      let w' = sessions_within-select n_shards (is_asked_session shards) src.ck_sessions w in
      rw (request_map_and_session-answer src asker.gid asker.me shards new.num a) (
        rw (sd.vec, sd.nums, w', sw)
          (
            move_in-Transferred src dst
                (movement_args asker new shards (record {
                  err = ok;
                  mp = select (is_asked shards) src.mp;
                  sessions = select (is_asked_session shards) src.ck_sessions;
                }))
                a.2 a.3 refl refl,
            refl,
          ))

module _ {B : Type 0} ⦃codec : Codec Op B⦄ ⦃snapshots : SnapshotCodec Snapshot B⦄ where
  -- Let a source that leads its group, has the configuration `new` or a later one, and has sessions
  -- of shards below 10 have executed an operation of a client, or a later one of the client on the
  -- same shard: the client's session is valid and has at least the operation's request number. It is
  -- asked for shards below 10, that session's among them, and a destination with arrays of ten
  -- elements and sessions of the ten shards applies the movement of the answer, where the session's
  -- shard had not reached the configuration `new`. It does so without a panic. When the operation
  -- comes up in the log of the destination next, it is recorded and remembered there, and nothing is
  -- executed: the movement does not make an operation happen twice.
  pub moved-once :
      (src asker dst : ShardKv B) (new : Config) (shards : Map ℕ Bool) (op : Op) (index : ℕ)
      (s : Session)
      → Answers src new.num
      → sessions_within n_shards src.ck_sessions ≡ true
      → shards_within n_shards shards ≡ true
      → Sized dst
      → lookup (op_key op) src.ck_sessions ≡ some s
      → is_asked_session shards (op_key op) s ≡ true
      → is_older dst.shard_last_nums new.num s.last_op_shard_num ≡ true
      → s.last_op_valid ≡ true
      → op.req_num ≤ s.last_op_req_num
      → Returns
          (λ r. apply_command r.0 op index ≡ some (remembered (recorded r.0 op index) op index))
          (apply_op dst (movement src asker dst new shards))
  unfolding apply_command is_stable
  moved-once src asker dst new shards op index s a w sw sd e asked older valid le =
      Returns-map _ _ (apply_op dst (movement src asker dst new shards))
        (apply_movement-Transferred src asker dst new shards a w sw sd)
        (λ r t. rw (t.0.sessions (op_key op) s e asked older) (rw valid (ground arith)))

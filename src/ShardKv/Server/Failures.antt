-- ===== src/ShardKv/Server/Failures.antt =====
-- src/shardkv/server.go: an operation on a key whose shard the server does not serve.
use mit_6_5840_2024_lab.Common.{
  ℕ, ◌≡◌, refl, false, some, [], ◌∷◌, arith, Returns, Returns-bind, Bool-cases, inl, inr, ==_iff,
}
use mit_6_5840_2024_lab.Common.Int.{pos, negsuc}
use mit_6_5840_2024_lab.Common.Maps.{Map, lookup, lookup-insert, nat_eq}
use mit_6_5840_2024_lab.Common.Strings.{str_eq}
use mit_6_5840_2024_lab.Raft.Types.{Codec}
use mit_6_5840_2024_lab.Raft.Persist.{take_snapshot}
use mit_6_5840_2024_lab.KvRaft.Types.{SnapshotCodec}
use mit_6_5840_2024_lab.KvRaft.Snapshots.{take_snapshot-Returns}
use mit_6_5840_2024_lab.ShardKv.Types.{
  ShardKv, Snapshot, Op, Call, get, put, append, change_config, apply_movement, delete_shards,
  update_shard_vec, failed_to_commit,
}
use mit_6_5840_2024_lab.ShardKv.Apply.{serves, apply_op, apply_put, apply_append}
use mit_6_5840_2024_lab.ShardKv.Server.{
  recorded, refused, execute, make_snapshot, must_snapshot, is_stable, apply_command, poll, failure,
  op_key, snapshot_of, forget,
}

-- Get, Put or Append of a key in a shard that is not served.
abbrev pub IsUnserved : {B : Type 0} → ShardKv B → Call → Type 0
IsUnserved kv (get args) = serves kv args.key ≡ false
IsUnserved kv (put args) = serves kv args.key ≡ false
IsUnserved kv (append args) = serves kv args.key ≡ false
IsUnserved kv _ = ⊥

-- The state machine is as it was, and whoever waits for the operation learns that it failed.
pub record Refused {B : Type 0} (kv : ShardKv B) (op : Op) (index : ℕ) (kv' : ShardKv B)
    : Type 0 where
  pub map : kv'.mp ≡ kv.mp
  pub sessions : kv'.ck_sessions ≡ kv.ck_sessions
  pub vec : kv'.shard_vec ≡ kv.shard_vec
  pub nums : kv'.shard_last_nums ≡ kv.shard_last_nums
  pub config : kv'.config ≡ kv.config
  pub reply : (args : Call) → poll kv' op (pos index) args ≡ some (failure failed_to_commit)

forget-nothing : (es records : Map ℕ Op) → forget es (records, []) ≡ (records, [])
unfolding forget lookup
forget-nothing [] records = refl
forget-nothing (e ∷ es) records = forget-nothing es records

module _ {B : Type 0} where
  apply_op-unserved :
      (kv : ShardKv B) (op : Op) (index : ℕ) (args : Call)
      → IsUnserved kv args
      → apply_op (recorded kv op index) args ≡ some (recorded kv op index, false)
  unfolding apply_op apply_put apply_append
  apply_op-unserved kv op index (get args) h = rw h refl
  apply_op-unserved kv op index (put args) h = rw h refl
  apply_op-unserved kv op index (append args) h = rw h refl
  apply_op-unserved kv op index (change_config _) h = elim h [ ]
  apply_op-unserved kv op index (apply_movement _) h = elim h [ ]
  apply_op-unserved kv op index (delete_shards _) h = elim h [ ]
  apply_op-unserved kv op index (update_shard_vec _) h = elim h [ ]

  refused-Refused :
      (kv : ShardKv B) (op : Op) (index n : ℕ)
      → op.number ≡ pos n
      → Refused kv op index (refused (recorded kv op index) op index)
  unfolding poll
  refused-Refused kv op index n e = record {
    map = refl;
    sessions = refl;
    vec = refl;
    nums = refl;
    config = refl;
    reply = λ args.
        let l =
          lookup-insert index index (record op { number = negsuc 0 })
            (recorded kv op index).log_record in
        ground (arith, ==_iff index index);
  }

module _ {B : Type 0} ⦃codec : Codec Op B⦄ ⦃snapshots : SnapshotCodec Snapshot B⦄ where
  make_snapshot-Refused :
      (kv kv1 : ShardKv B) (op : Op) (index : ℕ)
      → kv1.confirm_map ≡ []
      → Refused kv op index kv1
      → Returns (Refused kv op index) (make_snapshot kv1 index)
  unfolding make_snapshot poll
  make_snapshot-Refused kv kv1 op index c r = elim (Bool-cases (must_snapshot kv1)) [
    | inl e ↦ rw e (
        Returns-bind _ (Refused kv op index)
          (take_snapshot kv1.rf index (snapshots.encode (snapshot_of kv1))) _
          (take_snapshot-Returns kv1.rf index (snapshots.encode (snapshot_of kv1)))
          (λ rf p. rw c (
            rw (forget-nothing kv1.log_record kv1.log_record) (record {
              map = r.map;
              sessions = r.sessions;
              vec = r.vec;
              nums = r.nums;
              config = r.config;
              reply = r.reply;
            }))))
    | inr e ↦ rw e r
  ]

  -- At a server that has confirmed nothing, let an operation come up in the log that is no stable
  -- one, whose number is not negative, and that is a Get, Put or Append of a key in a shard that
  -- the server does not serve. The server goes on without a panic; its keys, sessions, shards and
  -- configuration are as before, so that the client can repeat the operation elsewhere; and
  -- whoever waits for the operation at its index replies that it failed to commit.
  pub apply_command-Refused :
      (kv : ShardKv B) (op : Op) (index n : ℕ)
      → IsUnserved kv op.args
      → is_stable (lookup (op_key op) kv.ck_sessions) op index ≡ false
      → kv.confirm_map ≡ []
      → op.number ≡ pos n
      → Returns (Refused kv op index) (apply_command kv op index)
  unfolding apply_command execute
  apply_command-Refused kv op index n u st c e = rw st (
      rw (apply_op-unserved kv op index op.args u) (
        make_snapshot-Refused kv (refused (recorded kv op index) op index) op index c
          (refused-Refused kv op index n e)))

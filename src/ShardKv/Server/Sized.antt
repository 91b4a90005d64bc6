-- ===== src/ShardKv/Server/Sized.antt =====
-- src/shardkv/server.go: the arrays indexed by shards, and the indices that reach them.
use mit_6_5840_2024_lab.Common.{
  ◌<◌, ◌≡◌, ◌∙◌, true, arith, length, Returns, Bool-cases, inl, inr, ltb,
}
use mit_6_5840_2024_lab.Common.Int.{ℤ}
use mit_6_5840_2024_lab.Common.Strings.{str_eq}
use mit_6_5840_2024_lab.ShardCtrler.Rebalance.{n_shards}
use mit_6_5840_2024_lab.ShardKv.Types.{
  ShardKv, Snapshot, Op, Call, get, put, append, change_config, apply_movement, delete_shards,
  update_shard_vec, ApplyMovementArgs, UpdateShardVecArgs,
}
use mit_6_5840_2024_lab.ShardKv.Keys.{key_of}
use mit_6_5840_2024_lab.ShardKv.Apply.{
  sessions_within, shards_within, unplaced_all, apply_op, apply_put, apply_append, apply_config,
  apply_move, move_in, apply_delete, delete_from, apply_vec, takes_session,
}
use mit_6_5840_2024_lab.ShardKv.Apply.Shards.{
  key2shard_bound, length-own, length-allow, sessions_within-merge, sessions_within-select,
  sessions_within-unplaced_all,
}
use mit_6_5840_2024_lab.ShardKv.Server.{op_of}

-- The arrays have an element for each shard, and the sessions of clients are those of shards.
pub record Sized {B : Type 0} (kv : ShardKv B) : Type 0 where
  pub vec : length kv.shard_vec ≡ n_shards
  pub nums : length kv.shard_last_nums ≡ n_shards
  pub sessions : sessions_within n_shards kv.ck_sessions ≡ true

-- The arrays and shard numbers of an operation are those of ten shards.
abbrev pub Fits : Call → Type 0
Fits (change_config args) = length args.config.shards ≡ n_shards
Fits (apply_movement args) =
    (sessions_within n_shards args.sessions ≡ true) × (shards_within n_shards args.shards ≡ true)
Fits (delete_shards args) = shards_within n_shards args.shards ≡ true
Fits (update_shard_vec args) = length args.new_vec ≡ n_shards
Fits _ = Unit

pub record OpFits (op : Op) : Type 0 where
  pub args : Fits op.args
  pub shard : op.shard_num < n_shards

abbrev pub SnapshotFits : Snapshot → Type 0
SnapshotFits s =
    (length s.shard_vec ≡ n_shards)
    × (length s.shard_last_nums ≡ n_shards)
    × (sessions_within n_shards s.ck_sessions ≡ true)

pub op_of-Fits : (args : Call) (number : ℤ) → Fits args → OpFits (op_of args number)
op_of-Fits args number h = record { args = h; shard = key2shard_bound (key_of args) }

module _ {B : Type 0} where
  apply_put-Sized : (kv : ShardKv B) (args : _) → Sized kv → Sized (apply_put kv args).0
  unfolding apply_put
  apply_put-Sized kv args s = ground arith

  apply_append-Sized : (kv : ShardKv B) (args : _) → Sized kv → Sized (apply_append kv args).0
  unfolding apply_append
  apply_append-Sized kv args s = ground arith

  apply_config-Sized : (kv : ShardKv B) (args : _) → Sized kv → Sized (apply_config kv args)
  unfolding apply_config
  apply_config-Sized kv args s =
      let l =
        length-own kv.gid args.config.num 0 args.config.shards kv.shard_vec kv.shard_last_nums in
      elim (Bool-cases (ltb kv.config.num args.config.num)) [
        | inl e ↦ rw e (record { vec = l.0 ∙ s.vec; nums = l.1 ∙ s.nums; sessions = s.sessions })
        | inr e ↦ rw e s
      ]

  apply_vec-Sized :
      (kv : ShardKv B) (args : UpdateShardVecArgs)
      → length args.new_vec ≡ n_shards
      → Sized kv
      → Sized (apply_vec kv args)
  unfolding apply_vec
  apply_vec-Sized kv args h s = ground arith

  move_in-Sized :
      (kv : ShardKv B) (args : ApplyMovementArgs)
      → sessions_within n_shards args.sessions ≡ true
      → Sized kv
      → Sized (move_in kv args)
  unfolding move_in
  move_in-Sized kv args h s =
      let l = length-allow args.config.num args.shards kv.shard_vec kv.shard_last_nums in
      record {
        vec = l.0 ∙ s.vec;
        nums = l.1 ∙ s.nums;
        sessions =
            sessions_within-merge n_shards (takes_session kv.shard_last_nums args.config.num)
              (unplaced_all args.sessions) kv.ck_sessions
              (sessions_within-unplaced_all n_shards args.sessions ∙ h) s.sessions;
      }

  apply_move-Sized :
      (kv : ShardKv B) (args : _)
      → Fits (apply_movement args)
      → Sized kv
      → Returns Sized (apply_move kv args)
  unfolding apply_move
  apply_move-Sized kv args h s = rw (s.vec, s.nums, h.0, h.1) (move_in-Sized kv args h.0 s)

  apply_delete-Sized :
      (kv : ShardKv B) (args : _)
      → Fits (delete_shards args)
      → Sized kv
      → Returns Sized (apply_delete kv args)
  unfolding apply_delete delete_from
  apply_delete-Sized kv args h s =
      rw (s.nums, h)
        (record {
          vec = s.vec;
          nums = s.nums;
          sessions = sessions_within-select n_shards _ kv.ck_sessions s.sessions;
        })

  pub apply_op-Sized :
      (kv : ShardKv B) (args : Call)
      → Fits args
      → Sized kv
      → Returns (λ r. Sized r.0) (apply_op kv args)
  unfolding apply_op
  apply_op-Sized kv (get args) h s = s
  apply_op-Sized kv (put args) h s = apply_put-Sized kv args s
  apply_op-Sized kv (append args) h s = apply_append-Sized kv args s
  apply_op-Sized kv (change_config args) h s = apply_config-Sized kv args s
  apply_op-Sized kv (apply_movement args) h s = ground (arith, apply_move-Sized kv args h s)
  apply_op-Sized kv (delete_shards args) h s = ground (arith, apply_delete-Sized kv args h s)
  apply_op-Sized kv (update_shard_vec args) h s = apply_vec-Sized kv args h s

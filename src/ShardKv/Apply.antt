-- ===== src/ShardKv/Apply.antt =====
-- src/shardkv/server.go: `applyOp`. `none` is an index out of range of an array.
pub mod Effects
pub mod Shards
use mit_6_5840_2024_lab.Common.{
  ℕ, ◌+◌, Bool, true, false, not, ◌&&◌, ◌||◌, Option, none, some, List, [], ◌∷◌, ◌++◌, length,
  get_or, set, ltb, leb, ◌==◌, if◌then◌else◌,
}
use mit_6_5840_2024_lab.Common.Int.{negsuc}
use mit_6_5840_2024_lab.Common.Maps.{Map, insert, lookup_or, nat_eq}
use mit_6_5840_2024_lab.Common.Merges.{select, merge}
use mit_6_5840_2024_lab.Common.Strings.{Str, str_eq}
use mit_6_5840_2024_lab.ShardKv.Types.{
  ShardKv, Session, Call, get, put, append, change_config, apply_movement, delete_shards,
  update_shard_vec, PutAppendArgs, ApplyMovementArgs, UpdateShardVecArgs, ChangeConfigArgs,
  DeleteShardsArgs,
}
use mit_6_5840_2024_lab.ShardKv.Keys.{key2shard, is_clients}

-- The shards of a set are indices of an array of `n`, and those of the sessions of clients.
abbrev pub shards_within : ℕ → Map ℕ Bool → Bool
shards_within n [] = true
shards_within n ((shard, needed) ∷ rest) = ltb shard n && shards_within n rest

abbrev pub sessions_within : ℕ → Map Str Session → Bool
sessions_within n [] = true
sessions_within n ((uni_key, s) ∷ rest) =
    (not (is_clients uni_key) || ltb s.last_op_shard_num n) && sessions_within n rest

-- The loop of ChangeConfig over `Config.Shards`, from a shard on.
unfoldable pub own : ℕ → ℕ → ℕ → List ℕ → List Bool × List ℕ → List Bool × List ℕ
own me num shard [] arrays = arrays
own me num shard (gid ∷ shards) (vec, nums) =
    own me num (shard + 1) shards
      (if gid == me then (set vec shard true, set nums shard num) else (set vec shard false, nums))

-- The loop of ApplyMovement over `Shards`.
unfoldable pub allow : ℕ → Map ℕ Bool → List Bool × List ℕ → List Bool × List ℕ
allow num [] arrays = arrays
allow num ((shard, needed) ∷ rest) (vec, nums) =
    allow num rest (set vec shard true, set nums shard num)

-- What ApplyMovement takes: the shard of a key has seen no configuration as late as `num`.
abbrev pub is_older : List ℕ → ℕ → ℕ → Bool
is_older nums num shard = not (leb num (get_or nums shard 0))

abbrev pub takes_key : List ℕ → ℕ → Str → Str → Bool
takes_key nums num key value = is_older nums num (key2shard key)

abbrev pub takes_session : List ℕ → ℕ → Str → Session → Bool
takes_session nums num uni_key s = not (is_clients uni_key) || is_older nums num s.last_op_shard_num

-- `Session.LastOpIndex = -1`
abbrev pub unplaced : Session → Session
unplaced s = record s { last_op_index = negsuc 0 }

abbrev pub unplaced_all : Map Str Session → Map Str Session
unplaced_all [] = []
unplaced_all ((uni_key, s) ∷ rest) = (uni_key, unplaced s) ∷ unplaced_all rest

-- The loop of DeleteShards that keeps the shards to delete.
abbrev pub is_unneeded : List ℕ → ℕ → ℕ → Bool → Bool
is_unneeded nums config_num shard needed = not (ltb config_num (get_or nums shard 0))

abbrev pub is_left : Map ℕ Bool → Str → Str → Bool
is_left deleted key value = not (lookup_or (key2shard key) deleted false)

abbrev pub is_left_session : Map ℕ Bool → Str → Session → Bool
is_left_session deleted uni_key s =
    not (is_clients uni_key && lookup_or s.last_op_shard_num deleted false)

module _ {B : Type 0} where
  -- `kv.shardVec[key2shard(key)]`
  abbrev pub serves : ShardKv B → Str → Bool
  serves kv key = get_or kv.shard_vec (key2shard key) false

  unfoldable pub apply_put : ShardKv B → PutAppendArgs → ShardKv B × Bool
  apply_put kv args =
      if serves kv args.key
      then (record kv { mp = insert args.key args.value kv.mp }, true)
      else (kv, false)

  unfoldable pub apply_append : ShardKv B → PutAppendArgs → ShardKv B × Bool
  apply_append kv args =
      if serves kv args.key
      then (
        record kv { mp = insert args.key (lookup_or args.key kv.mp [] ++ args.value) kv.mp },
        true,
      )
      else (kv, false)

  unfoldable pub apply_config : ShardKv B → ChangeConfigArgs → ShardKv B
  unfolding own
  apply_config kv args =
      let arrays =
        own kv.gid args.config.num 0 args.config.shards (kv.shard_vec, kv.shard_last_nums) in
      if ltb kv.config.num args.config.num
      then record kv { config = args.config; shard_vec = arrays.0; shard_last_nums = arrays.1 }
      else kv

  unfoldable pub move_in : ShardKv B → ApplyMovementArgs → ShardKv B
  unfolding allow
  move_in kv args =
      let arrays = allow args.config.num args.shards (kv.shard_vec, kv.shard_last_nums) in
      record kv {
        mp = merge (takes_key kv.shard_last_nums args.config.num) args.mp kv.mp;
        ck_sessions =
            merge (takes_session kv.shard_last_nums args.config.num) (unplaced_all args.sessions)
              kv.ck_sessions;
        shard_vec = arrays.0;
        shard_last_nums = arrays.1;
      }

  unfoldable pub apply_move : ShardKv B → ApplyMovementArgs → Option (ShardKv B)
  unfolding move_in
  apply_move kv args =
      if sessions_within (length kv.shard_last_nums) args.sessions
        && shards_within (length kv.shard_vec) args.shards
      then some (move_in kv args)
      else none

  unfoldable pub delete_from : ShardKv B → Map ℕ Bool → ShardKv B
  delete_from kv deleted = record kv {
    mp = select (is_left deleted) kv.mp;
    ck_sessions = select (is_left_session deleted) kv.ck_sessions;
  }

  unfoldable pub apply_delete : ShardKv B → DeleteShardsArgs → Option (ShardKv B)
  unfolding delete_from
  apply_delete kv args =
      if shards_within (length kv.shard_last_nums) args.shards
      then some
          (delete_from kv (select (is_unneeded kv.shard_last_nums args.config_num) args.shards))
      else none

  unfoldable pub apply_vec : ShardKv B → UpdateShardVecArgs → ShardKv B
  apply_vec kv args =
      if ltb kv.config.num args.config_num then record kv { shard_vec = args.new_vec } else kv

  abbrev pub applied : Option (ShardKv B) → Option (ShardKv B × Bool)
  applied none = none
  applied (some kv) = some (kv, true)

  -- Whether the operation could be applied comes second.
  unfoldable pub apply_op : ShardKv B → Call → Option (ShardKv B × Bool)
  unfolding apply_put apply_append apply_config apply_move apply_delete apply_vec
  apply_op kv (get args) = some (kv, serves kv args.key)
  apply_op kv (put args) = some (apply_put kv args)
  apply_op kv (append args) = some (apply_append kv args)
  apply_op kv (change_config args) = applied (some (apply_config kv args))
  apply_op kv (apply_movement args) = applied (apply_move kv args)
  apply_op kv (delete_shards args) = applied (apply_delete kv args)
  apply_op kv (update_shard_vec args) = applied (some (apply_vec kv args))

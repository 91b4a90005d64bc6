-- ===== src/ShardKv/Apply/Effects.antt =====
-- src/shardkv/server.go: what `applyOp` does to the keys that a server holds and the shards that it
-- serves.
use mit_6_5840_2024_lab.Common.{
  ℕ, ◌≡◌, refl, Bool, true, false, not, ◌&&◌, none, arith, length, get_or, Returns, Option-cases,
  inl, inr, ltb, if◌then◌else◌, ap, ◌∙◌,
}
use mit_6_5840_2024_lab.Common.Maps.{lookup, lookup_or, nat_eq}
use mit_6_5840_2024_lab.Common.Merges.{
  kept, kept_ext, kept_const, UniqueKeys, select, lookup-select,
}
use mit_6_5840_2024_lab.Common.Strings.{Str, str_eq}
use mit_6_5840_2024_lab.ShardKv.Types.{ShardKv, DeleteShardsArgs, delete_shards}
use mit_6_5840_2024_lab.ShardKv.Keys.{key2shard, is_clients}
use mit_6_5840_2024_lab.ShardKv.Apply.{
  apply_op, apply_delete, delete_from, is_left, is_left_session, is_unneeded, shards_within,
}

-- The deletion concerns a shard that has not come back with a later configuration.
abbrev pub goes : {B : Type 0} → ShardKv B → DeleteShardsArgs → ℕ → Bool
goes kv args shard =
    lookup_or shard args.shards false
    && not (ltb args.config_num (get_or kv.shard_last_nums shard 0))

pub record Deleted {B : Type 0} (kv : ShardKv B) (args : DeleteShardsArgs) (kv' : ShardKv B)
    : Type 0 where
  pub keys :
      (key : Str)
      → lookup key kv'.mp ≡ (if goes kv args (key2shard key) then none else lookup key kv.mp)
  pub sessions :
      (key : Str)
      → lookup key kv'.ck_sessions
        ≡ kept
            (λ s. not (is_clients key && goes kv args s.last_op_shard_num))
            (lookup key kv.ck_sessions)
  pub vec : kv'.shard_vec ≡ kv.shard_vec
  pub nums : kv'.shard_last_nums ≡ kv.shard_last_nums

chosen :
    {B : Type 0} (kv : ShardKv B) (args : DeleteShardsArgs)
    → UniqueKeys args.shards
    → (shard : ℕ)
    → lookup_or shard (select (is_unneeded kv.shard_last_nums args.config_num) args.shards) false
      ≡ goes kv args shard
chosen kv args u shard =
    let l = lookup-select (is_unneeded kv.shard_last_nums args.config_num) shard args.shards u in
    elim (Option-cases (lookup shard args.shards)) [
      | inl e ↦ ground arith
      | inr (v, e) ↦ ground arith
    ]

-- Let no key stand twice in the maps of a server and in the set of shards. DeleteShards, for shards
-- that are indices of the array, is applied without a panic, and deletes a key exactly if its shard
-- is in the set and has reached no configuration later than the deletion's, and likewise the session
-- of a client. All other keys and sessions, and the shards that are served, are as before: a key of
-- a shard that came back in the meantime is not lost.
pub apply_delete-Deleted :
    {B : Type 0} (kv : ShardKv B) (args : DeleteShardsArgs)
    → UniqueKeys kv.mp
    → UniqueKeys kv.ck_sessions
    → UniqueKeys args.shards
    → shards_within (length kv.shard_last_nums) args.shards ≡ true
    → Returns (λ r. Deleted kv args r.0) (apply_op kv (delete_shards args))
unfolding apply_op apply_delete delete_from
apply_delete-Deleted kv args um us ua w =
    let unneeded = is_unneeded kv.shard_last_nums args.config_num in
    let left = select unneeded args.shards in
    rw w (record {
      keys = λ key.
          lookup-select (is_left left) key kv.mp um
          ∙ kept_const (lookup_or (key2shard key) left false) (lookup key kv.mp)
          ∙ ap (λ b. if b then none else lookup key kv.mp) (chosen kv args ua (key2shard key));
      sessions = λ key.
          lookup-select (is_left_session left) key kv.ck_sessions us
          ∙ kept_ext _ _ (lookup key kv.ck_sessions)
              (λ s. ap (λ b. not (is_clients key && b)) (chosen kv args ua s.last_op_shard_num));
      vec = refl;
      nums = refl;
    })

-- ===== src/ShardKv/Apply/Shards.antt =====
-- src/shardkv/server.go: the indices and the lengths of the arrays in the loops of `applyOp`.
use mit_6_5840_2024_lab.Common.{
  ℕ, ◌+◌, ◌<◌, ◌≡◌, refl, Bool, true, false, not, ◌||◌, List, [], ◌∷◌, arith, length, length-set,
  set, if◌then◌else◌, ltb,
}
use mit_6_5840_2024_lab.Common.Maps.{Map, insert}
use mit_6_5840_2024_lab.Common.Merges.{select, merge}
use mit_6_5840_2024_lab.Common.Strings.{Str, str_eq}
use mit_6_5840_2024_lab.ShardCtrler.Rebalance.{n_shards}
use mit_6_5840_2024_lab.ShardKv.Types.{Session}
use mit_6_5840_2024_lab.ShardKv.Keys.{key2shard, is_clients}
use mit_6_5840_2024_lab.ShardKv.Apply.{own, allow, sessions_within, unplaced_all}

pub length-own :
    (me num shard : ℕ) (shards : List ℕ) (vec : List Bool) (nums : List ℕ)
    → (length (own me num shard shards (vec, nums)).0 ≡ length vec)
      × (length (own me num shard shards (vec, nums)).1 ≡ length nums)
unfolding own
length-own me num shard [] vec nums = (refl, refl)
length-own me num shard (gid ∷ shards) vec nums = ground (
  arith,
  length-set vec shard true,
  length-set vec shard false,
  length-set nums shard num,
  length-own me num (shard + 1) shards (set vec shard true) (set nums shard num),
  length-own me num (shard + 1) shards (set vec shard false) nums,
)

pub length-allow :
    (num : ℕ) (shards : Map ℕ Bool) (vec : List Bool) (nums : List ℕ)
    → (length (allow num shards (vec, nums)).0 ≡ length vec)
      × (length (allow num shards (vec, nums)).1 ≡ length nums)
unfolding allow
length-allow num [] vec nums = (refl, refl)
length-allow num ((shard, needed) ∷ rest) vec nums = ground (
  arith,
  length-set vec shard true,
  length-set nums shard num,
  length-allow num rest (set vec shard true) (set nums shard num),
)

module _ (n : ℕ) where
  pub sessions_within-insert :
      (key : Str) (s : Session) (m : Map Str Session)
      → (not (is_clients key) || ltb s.last_op_shard_num n) ≡ true
      → sessions_within n m ≡ true
      → sessions_within n (insert key s m) ≡ true
  unfolding insert
  sessions_within-insert key s [] h w = ground arith
  sessions_within-insert key s ((j, t) ∷ m) h w = ground (arith, sessions_within-insert key s m h)

  pub sessions_within-merge :
      (p : Str → Session → Bool) (new m : Map Str Session)
      → sessions_within n new ≡ true
      → sessions_within n m ≡ true
      → sessions_within n (merge p new m) ≡ true
  unfolding merge
  sessions_within-merge p [] m h w = w
  sessions_within-merge p ((key, s) ∷ new) m h w =
      sessions_within-merge p new (if p key s then insert key s m else m) (ground arith)
        (ground (arith, sessions_within-insert key s m))

  pub sessions_within-select :
      (p : Str → Session → Bool) (m : Map Str Session)
      → sessions_within n m ≡ true
      → sessions_within n (select p m) ≡ true
  unfolding select
  sessions_within-select p [] h = refl
  sessions_within-select p ((key, s) ∷ m) h = ground (arith, sessions_within-select p m)

  pub sessions_within-unplaced_all :
      (m : Map Str Session) → sessions_within n (unplaced_all m) ≡ sessions_within n m
  sessions_within-unplaced_all [] = refl
  sessions_within-unplaced_all ((key, s) ∷ m) = ground (arith, sessions_within-unplaced_all m)

-- The shard of a key, and so the index of every access by key, is below 10.
pub key2shard_bound : (key : Str) → key2shard key < n_shards
unfolding key2shard
key2shard_bound [] = omega arith
key2shard_bound (c ∷ key) = omega arith

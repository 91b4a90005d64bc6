-- ===== src/ShardKv/Movement/Disjoint.antt =====
-- src/shardkv/server.go: two groups on the way to the same configuration.
use mit_6_5840_2024_lab.Common.{
  ℕ, suc, ◌<◌, ◌≡◌, ◌≢◌, refl, sym, ap, ◌∙◌, false, ◌&&◌, Option, List, [], ◌∷◌, arith, length,
  get_or, Returns, Returns-bind, Returns-map, lt→ltb, Bool-cases, inl, inr,
}
use mit_6_5840_2024_lab.ShardCtrler.Configs.{Config}
use mit_6_5840_2024_lab.ShardKv.Types.{ShardKv, Call}
use mit_6_5840_2024_lab.ShardKv.Apply.{apply_op, apply_vec}
use mit_6_5840_2024_lab.ShardKv.Movement.{new_shard_vec, start_update}
use mit_6_5840_2024_lab.ShardCtrler.Rebalance.{n_shards}
use mit_6_5840_2024_lab.ShardKv.Server.Sized.{Sized}
use mit_6_5840_2024_lab.ShardKv.Movement.Within.{Within-new_shard_vec}
use mit_6_5840_2024_lab.ShardKv.Movement.Handoff.{AllCalls, apply_all, apply_all-Serves, Serves}

-- Its calls on the way to `next`, from the update of the shards that it serves on.
abbrev pub way_to : {B : Type 0} → ShardKv B → Config → List Call → Option (ShardKv B)
way_to kv next calls = apply_all kv ((start_update kv next).1 ∷ calls)

length-new_shard_vec :
    (me : ℕ) (olds news : List ℕ)
    → length olds ≡ length news
    → length (new_shard_vec me olds news) ≡ length news
unfolding new_shard_vec
length-new_shard_vec me [] [] e = refl
length-new_shard_vec me [] (new ∷ news) e = e
length-new_shard_vec me (old ∷ olds) [] e = absurd (omega arith)
length-new_shard_vec me (old ∷ olds) (new ∷ news) e =
    ap suc (length-new_shard_vec me olds news (omega arith))

-- A server that begins to change to a later configuration.
pub record Begins {B : Type 0} (kv : ShardKv B) (next : Config) : Type 0 where
  pub sized : Sized kv
  pub old_shards : length kv.config.shards ≡ n_shards
  pub new_shards : length next.shards ≡ n_shards
  pub later : kv.config.num < next.num

module _ {B : Type 0} (kv : ShardKv B) (next : Config) where
  start_update-Serves :
      Begins kv next → Returns (λ r. Serves kv.gid next r.0) (apply_op kv (start_update kv next).1)
  unfolding apply_op apply_vec start_update
  start_update-Serves b = rw (lt→ltb kv.config.num next.num b.later) (record {
    sized = record {
      vec =
          length-new_shard_vec kv.gid kv.config.shards next.shards (b.old_shards ∙ sym b.new_shards)
          ∙ b.new_shards;
      nums = b.sized.nums;
      sessions = b.sized.sessions;
    };
    group = refl;
    within = Within-new_shard_vec kv.gid kv.config.shards next.shards;
  })

  way_to-Serves :
      (calls : List Call)
      → Begins kv next
      → AllCalls kv.gid next calls
      → Returns (Serves kv.gid next) (way_to kv next calls)
  unfolding apply_all
  way_to-Serves calls b a =
      Returns-bind _ (Serves kv.gid next) (apply_op kv (start_update kv next).1) _
        (start_update-Serves b) (λ r s. apply_all-Serves kv.gid next r.0 calls b.new_shards a s)

-- Let two servers of different groups begin to change to the same configuration. Each applies the
-- update of its shards that the change starts with, and then any calls of clients, any movements of
-- shards that are its group's in the new configuration, any deletions, and the change itself, in
-- any order and number. Both go through all this without a panic, and whatever the one has applied
-- when the other has applied what, there is no shard that both serve.
pub way_to-disjoint :
    {B : Type 0} (a b : ShardKv B) (next : Config) (calls_a calls_b : List Call) (i : ℕ)
    → Begins a next
    → Begins b next
    → a.gid ≢ b.gid
    → AllCalls a.gid next calls_a
    → AllCalls b.gid next calls_b
    → Returns
        (λ a'.
          Returns
            (λ b'. (get_or a'.shard_vec i false && get_or b'.shard_vec i false) ≡ false)
            (way_to b next calls_b))
        (way_to a next calls_a)
way_to-disjoint a b next calls_a calls_b i ba bb n ca cb =
    Returns-map _ _ (way_to a next calls_a) (way_to-Serves a next calls_a ba ca) (λ a' sa.
      Returns-map _ _ (way_to b next calls_b) (way_to-Serves b next calls_b bb cb) (λ b' sb.
        elim (Bool-cases (get_or a'.shard_vec i false)) [
          | inl t ↦ elim (Bool-cases (get_or b'.shard_vec i false)) [
            | inl u ↦ absurd (
                let x = sa.within i t in
                let y = sb.within i u in let same : a.gid ≡ b.gid = cc in n same)
            | inr u ↦ rw (t, u) refl
          ]
          | inr t ↦ rw t refl
        ]))

-- ===== src/ShardKv/Movement/Handoff.antt =====
-- src/shardkv/server.go: the shards that groups serve while they go from one configuration to the
-- next.
use mit_6_5840_2024_lab.Common.{
  ℕ, ◌≤◌, ◌≡◌, sym, ap, ◌∙◌, ◌&&◌, Option, none, some, List, [], ◌∷◌, arith, length, get_elem?, ltb,
  ◌>>=◌, Returns, Returns-bind, Bool-cases, inl, inr,
}
use mit_6_5840_2024_lab.ShardCtrler.Configs.{Config}
use mit_6_5840_2024_lab.ShardKv.Types.{
  ShardKv, Call, get, put, append, change_config, apply_movement, delete_shards, update_shard_vec,
  ChangeConfigArgs, ApplyMovementArgs, DeleteShardsArgs,
}
use mit_6_5840_2024_lab.ShardKv.Apply.{
  apply_op, apply_put, apply_append, apply_config, apply_move, move_in, apply_delete, delete_from,
  apply_vec, applied, serves, sessions_within, shards_within,
}
use mit_6_5840_2024_lab.ShardCtrler.Rebalance.{n_shards}
use mit_6_5840_2024_lab.ShardKv.Server.Sized.{Sized, Fits, apply_op-Sized}
use mit_6_5840_2024_lab.ShardKv.Movement.Within.{Within, AllTo, Within-allow, Within-own}

-- The calls that a group applies on its way to the configuration `next`: those of clients, movements
-- of shards that are the group's in `next`, deletions, the change itself, and updates to shards that
-- are the group's in `next`.
abbrev pub IsCallOf : ℕ → Config → Call → Type 0
IsCallOf me next (change_config args) = args.config ≡ next
IsCallOf me next (apply_movement args) = AllTo me next.shards args.shards
IsCallOf me next (update_shard_vec args) = Within me next.shards args.new_vec
IsCallOf me next _ = Unit

-- The calls are applied one after the other.
unfoldable pub apply_all : {B : Type 0} → ShardKv B → List Call → Option (ShardKv B)
unfolding apply_op
apply_all kv [] = some kv
apply_all kv (call ∷ calls) = apply_op kv call >>= λ r. apply_all r.0 calls

abbrev pub AllCalls : ℕ → Config → List Call → Type 0
AllCalls me next [] = Unit
AllCalls me next (call ∷ calls) = IsCallOf me next call × Fits call × AllCalls me next calls

pub record Serves {B : Type 0} (me : ℕ) (next : Config) (kv : ShardKv B) : Type 0 where
  pub sized : Sized kv
  pub group : kv.gid ≡ me
  pub within : Within me next.shards kv.shard_vec

-- What one call does, if it returns.
abbrev Safely {ℓ} : {A : Type ℓ} → (A → Type 0) → Option A → Type 0
Safely P none = Unit
Safely P (some a) = P a

module _ {B : Type 0} (me : ℕ) (next : Config) (kv : ShardKv B) where
  abbrev Stays : ShardKv B → Type 0
  Stays kv' = (kv'.gid ≡ me) × Within me next.shards kv'.shard_vec

  config-Stays :
      (args : ChangeConfigArgs)
      → args.config ≡ next
      → length next.shards ≡ n_shards
      → Serves me next kv
      → Stays (apply_config kv args)
  unfolding apply_config
  config-Stays args e l s =
      let long : length kv.shard_vec ≤ length args.config.shards =
        (let l' = ap (λ c. length c.shards) e in let v = s.sized.vec in omega arith) in
      let w =
        Within-own kv.gid args.config.num args.config.shards kv.shard_vec kv.shard_last_nums long in
      elim (Bool-cases (ltb kv.config.num args.config.num)) [
        | inl t ↦
            rw t (s.group, λ i h. sym (ap (λ c. get_elem? c.shards i) e) ∙ w i h ∙ ap some s.group)
        | inr t ↦ rw t (s.group, s.within)
      ]

  move-Stays :
      (args : ApplyMovementArgs)
      → AllTo me next.shards args.shards
      → Serves me next kv
      → Safely (λ r. Stays r.0) (applied (apply_move kv args))
  unfolding apply_move move_in
  move-Stays args a s =
      elim (Bool-cases (
        sessions_within (length kv.shard_last_nums) args.sessions
        && shards_within (length kv.shard_vec) args.shards)) [
          | inl t ↦ rw t (
            s.group,
            Within-allow me args.config.num next.shards args.shards kv.shard_vec kv.shard_last_nums
                a s.within,
          )
          | inr t ↦ rw t tt
        ]

  delete-Stays :
      (args : DeleteShardsArgs)
      → Serves me next kv
      → Safely (λ r. Stays r.0) (applied (apply_delete kv args))
  unfolding apply_delete delete_from
  delete-Stays args s = elim (Bool-cases (shards_within (length kv.shard_last_nums) args.shards)) [
    | inl t ↦ rw t (s.group, s.within)
    | inr t ↦ rw t tt
  ]

  op-Stays :
      (call : Call)
      → IsCallOf me next call
      → length next.shards ≡ n_shards
      → Serves me next kv
      → Safely (λ r. Stays r.0) (apply_op kv call)
  unfolding apply_op apply_put apply_append apply_vec
  op-Stays (get args) c l s = (s.group, s.within)
  op-Stays (put args) c l s = elim (Bool-cases (serves kv args.key)) [
    | inl t ↦ rw t (s.group, s.within)
    | inr t ↦ rw t (s.group, s.within)
  ]
  op-Stays (append args) c l s = elim (Bool-cases (serves kv args.key)) [
    | inl t ↦ rw t (s.group, s.within)
    | inr t ↦ rw t (s.group, s.within)
  ]
  op-Stays (change_config args) c l s = config-Stays args c l s
  op-Stays (apply_movement args) c l s = move-Stays args c s
  op-Stays (delete_shards args) c l s = delete-Stays args s
  op-Stays (update_shard_vec args) c l s = elim (Bool-cases (ltb kv.config.num args.config_num)) [
    | inl t ↦ rw t (s.group, c)
    | inr t ↦ rw t (s.group, s.within)
  ]

Returns-Safely {ℓ} :
    {A : Type ℓ} (P Q R : A → Type 0) (o : Option A)
    → Returns P o
    → Safely Q o
    → ((a : A) → P a → Q a → R a)
    → Returns R o
Returns-Safely P Q R none p q h = p
Returns-Safely P Q R (some a) p q h = h a p q

module _ {B : Type 0} (me : ℕ) (next : Config) where
  -- Calls on the way to `next` are applied, and only the group's shards in `next` are served.
  pub apply_all-Serves :
      (kv : ShardKv B) (calls : List Call)
      → length next.shards ≡ n_shards
      → AllCalls me next calls
      → Serves me next kv
      → Returns (Serves me next) (apply_all kv calls)
  unfolding apply_all
  apply_all-Serves kv [] l a s = s
  apply_all-Serves kv (call ∷ calls) l (c, f, a) s =
      Returns-bind (λ r. Serves me next r.0) (Serves me next) (apply_op kv call) _
        (Returns-Safely _ _ _ (apply_op kv call) (apply_op-Sized kv call f s.sized)
          (op-Stays me next kv call c l s)
          (λ r z st. record { sized = z; group = st.0; within = st.1 }))
        (λ r s'. apply_all-Serves r.0 calls l a s')

-- ===== src/ShardKv/Movement/Within.antt =====
-- src/shardkv/server.go: the shards that are served after each of the loops over them.
use mit_6_5840_2024_lab.Common.{
  ℕ, zero, suc, ◌+◌, ◌<◌, ◌≤◌, ◌≡◌, ◌≢◌, ◌⊎◌, refl, ap, Bool, true, false, some, List, [], ◌∷◌,
  arith, length, get_elem?, get_or, set, ◌==◌, ==_iff, Bool-cases, inl, inr,
}
use mit_6_5840_2024_lab.Common.Maps.{Map}
use mit_6_5840_2024_lab.ShardKv.Apply.{own, allow}
use mit_6_5840_2024_lab.ShardKv.Movement.{new_shard_vec}

-- Only shards of group `me` are served.
abbrev pub Within : ℕ → List ℕ → List Bool → Type 0
Within me news vec = (i : ℕ) → get_or vec i false ≡ true → get_elem? news i ≡ some me

abbrev pub AllTo : ℕ → List ℕ → Map ℕ Bool → Type 0
AllTo me news [] = Unit
AllTo me news ((shard, needed) ∷ shards) = (get_elem? news shard ≡ some me) × AllTo me news shards

get_or-set :
    (vec : List Bool) (k i : ℕ) (b : Bool)
    → get_or (set vec k b) i false ≡ true
    → ((k ≡ i) × (b ≡ true)) ⊎ ((k ≢ i) × (get_or vec i false ≡ true))
get_or-set [] k i b h = absurd (cc)
get_or-set (x ∷ vec) zero zero b h = inl (refl, h)
get_or-set (x ∷ vec) zero (suc i) b h = inr ((λ e. absurd (omega arith)), h)
get_or-set (x ∷ vec) (suc k) zero b h = inr ((λ e. absurd (omega arith)), h)
get_or-set (x ∷ vec) (suc k) (suc i) b h = elim (get_or-set vec k i b h) [
  | inl (e, t) ↦ inl (ap suc e, t)
  | inr (n, t) ↦ inr ((λ e. n (omega arith)), t)
]

pub Within-new_shard_vec :
    (me : ℕ) (olds news : List ℕ) → Within me news (new_shard_vec me olds news)
unfolding new_shard_vec
Within-new_shard_vec me [] news i h = absurd (cc)
Within-new_shard_vec me (old ∷ olds) [] i h = absurd (cc)
Within-new_shard_vec me (old ∷ olds) (new ∷ news) zero h =
    let e : new ≡ me = ground (arith, ==_iff new me) in ap some e
Within-new_shard_vec me (old ∷ olds) (new ∷ news) (suc i) h = Within-new_shard_vec me olds news i h

Within-set :
    (me : ℕ) (news : List ℕ) (vec : List Bool) (shard : ℕ)
    → get_elem? news shard ≡ some me
    → Within me news vec
    → Within me news (set vec shard true)
Within-set me news vec shard e w i h = elim (get_or-set vec shard i true h) [
  | inl (same, t) ↦ rw same at e
  | inr (n, t) ↦ w i t
]

pub Within-allow :
    (me num : ℕ) (news : List ℕ) (shards : Map ℕ Bool) (vec : List Bool) (nums : List ℕ)
    → AllTo me news shards
    → Within me news vec
    → Within me news (allow num shards (vec, nums)).0
unfolding allow
Within-allow me num news [] vec nums a w = w
Within-allow me num news ((shard, needed) ∷ shards) vec nums (e, a) w =
    Within-allow me num news shards (set vec shard true) (set nums shard num) a
      (Within-set me news vec shard e w)

-- Shard `i` belongs to the group by the `gids` from `k` on, or is served by `vec` and not among them.
abbrev OwnAt : ℕ → ℕ → ℕ → List ℕ → List Bool → Type 0
OwnAt me k i gids vec =
    ((j : ℕ) × (k + j ≡ i) × (get_elem? gids j ≡ some me))
    ⊎ ((get_or vec i false ≡ true) × ((j : ℕ) → k + j ≡ i → length gids ≤ j))

outside-cons :
    (k i gid : ℕ) (gids : List ℕ)
    → k ≢ i
    → ((j : ℕ) → k + 1 + j ≡ i → length gids ≤ j)
    → (j : ℕ) → k + j ≡ i
    → length (gid ∷ gids) ≤ j
outside-cons k i gid gids n out zero e = absurd (n (omega arith))
outside-cons k i gid gids n out (suc j) e = let o = out j (omega arith) in omega arith

OwnAt-cons :
    (me k i gid : ℕ) (gids : List ℕ) (vec : List Bool) (b : Bool)
    → (b ≡ true → gid ≡ me)
    → OwnAt me (k + 1) i gids (set vec k b)
    → OwnAt me k i (gid ∷ gids) vec
OwnAt-cons me k i gid gids vec b h (inl (j, e, g)) = inl (suc j, omega arith, g)
OwnAt-cons me k i gid gids vec b h (inr (t, out)) = elim (get_or-set vec k i b t) [
  | inl (same, yes_b) ↦ inl (zero, omega arith, ap some (h yes_b))
  | inr (n, t') ↦ inr (t', outside-cons k i gid gids n out)
]

own-nil :
    (me num k : ℕ) (vec : List Bool) (nums : List ℕ) (i : ℕ)
    → get_or (own me num k [] (vec, nums)).0 i false ≡ true
    → get_or vec i false ≡ true
unfolding own
own-nil me num k vec nums i h = h

module _ (me num k gid : ℕ) (gids : List ℕ) (vec : List Bool) (nums : List ℕ) where
  own-hit :
      (gid == me) ≡ true
      → own me num k (gid ∷ gids) (vec, nums)
        ≡ own me num (k + 1) gids (set vec k true, set nums k num)
  unfolding own
  own-hit e = rw e refl

  own-miss :
      (gid == me) ≡ false
      → own me num k (gid ∷ gids) (vec, nums) ≡ own me num (k + 1) gids (set vec k false, nums)
  unfolding own
  own-miss e = rw e refl

own-OwnAt :
    (me num k i : ℕ) (gids : List ℕ) (vec : List Bool) (nums : List ℕ)
    → get_or (own me num k gids (vec, nums)).0 i false ≡ true
    → OwnAt me k i gids vec
own-OwnAt me num k i [] vec nums h = inr (own-nil me num k vec nums i h, λ j e. omega arith)
own-OwnAt me num k i (gid ∷ gids) vec nums h = elim (Bool-cases (gid == me)) [
  | inl e ↦
      OwnAt-cons me k i gid gids vec true (λ t. (==_iff gid me).0 e)
        (own-OwnAt me num (k + 1) i gids (set vec k true) (set nums k num)
          (rw (own-hit me num k gid gids vec nums e) at h))
  | inr e ↦
      OwnAt-cons me k i gid gids vec false (λ t. absurd (cc))
        (own-OwnAt me num (k + 1) i gids (set vec k false) nums
          (rw (own-miss me num k gid gids vec nums e) at h))
]

get_or-bound : (vec : List Bool) (i : ℕ) → get_or vec i false ≡ true → i < length vec
get_or-bound [] i h = absurd (cc)
get_or-bound (x ∷ vec) zero h = omega arith
get_or-bound (x ∷ vec) (suc i) h = let b = get_or-bound vec i h in omega arith

pub Within-own :
    (me num : ℕ) (gids : List ℕ) (vec : List Bool) (nums : List ℕ)
    → length vec ≤ length gids
    → Within me gids (own me num 0 gids (vec, nums)).0
Within-own me num gids vec nums l i h = elim (own-OwnAt me num 0 i gids vec nums h) [
  | inl (j, e, g) ↦ let same : j ≡ i = omega arith in rw same at g
  | inr (t, out) ↦
      absurd (let b = get_or-bound vec i t in let o = out i (omega arith) in omega arith)
]

-- ===== src/ShardCtrler/Written.antt =====
-- What the array holds when `rebalance` has written every group's list of shards into it.
use native.Mathlib.Decide.{dec_lt}
use mit_6_5840_2024_lab.Common.{
  ℕ, ◌≤◌, ◌<◌, ◌≡◌, ◌≢◌, refl, sym, subst, ◌∙◌, true, Option, none, some, List, [], ◌∷◌, arith,
  length, get_elem?, set, replicate, ltb, leb, ◌==◌, ==_iff, if◌then◌else◌, Bool-cases, inl, inr,
  ◌⊎◌, Returns, Returns-bind, Returns-map, length-set, get_elem?-set_self, get_elem?-set_ne,
}
use mit_6_5840_2024_lab.ShardCtrler.Rebalance.{Gs, gids, is_in}
use mit_6_5840_2024_lab.ShardCtrler.Extremes.{Distinct}
use mit_6_5840_2024_lab.ShardCtrler.Balance.{count, held}
use mit_6_5840_2024_lab.ShardCtrler.Owners.{owner, owner-some, count-owned}
use mit_6_5840_2024_lab.ShardCtrler.Collect.{within}
use mit_6_5840_2024_lab.ShardCtrler.Configs.{assign_group, assign}

get_elem?-set :
    (xs : List ℕ) (i j v : ℕ)
    → i < length xs
    → get_elem? (set xs i v) j ≡ (if i == j then some v else get_elem? xs j)
get_elem?-set xs i j v h = elim (Bool-cases (i == j)) [
  | inl same ↦
      let e : i ≡ j = (==_iff i j).0 same in
      rw same (subst (λ k. get_elem? (set xs i v) k ≡ some v) e (get_elem?-set_self xs i v h))
  | inr other ↦
      let ne : i ≢ j = λ e. (let t = (==_iff i j).1 e in absurd (cc)) in
      rw other (get_elem?-set_ne xs i j v ne)
]

record Written (shards : List ℕ) (gid : ℕ) (array array' : List ℕ) : Type 0 where
  size : length array' ≡ length array
  at :
      (s : ℕ)
      → get_elem? array' s ≡ (if leb 1 (count s shards) then some gid else get_elem? array s)

assign_group-Written :
    (shards : List ℕ) (gid : ℕ) (array : List ℕ)
    → ((s : ℕ) → length array ≤ s → count s shards ≡ 0)
    → Returns (Written shards gid array) (assign_group shards gid array)
unfolding assign_group
assign_group-Written [] gid array h = record { size = refl; at = λ s. refl }
assign_group-Written (shard ∷ shards) gid array h = elim (dec_lt shard (length array)) [
  | no over ↦ absurd (ground (arith, h shard, ==_iff shard shard))
  | yes lt ↦
      let fits : ltb shard (length array) ≡ true = ground arith in
      let size = length-set array shard gid in
      rw fits (
        Returns-map _ _ (assign_group shards gid (set array shard gid))
          (assign_group-Written shards gid (set array shard gid) (λ s over. ground (arith, h s)))
          (λ array' p. record {
            size = omega (arith, p.size, size);
            at = λ s. ground (arith, p.at s, get_elem?-set array shard s gid lt);
          }))
]

-- The shard is given to one of the groups.
abbrev pub Owned : List ℕ → List ℕ → ℕ → Type 0
Owned groups array s = Returns (λ g. is_in g groups ≡ true) (get_elem? array s)

-- The array at a shard that `owner` gives to `given`, where it holds `old` before.
abbrev filled : Option ℕ → Option ℕ → Option ℕ
filled none old = old
filled (some g) old = some g

pub record Assigned (groups : List ℕ) (gss : List Gs) (array array' : List ℕ) : Type 0 where
  pub size : length array' ≡ length array
  pub owned : (s : ℕ) → (leb 1 (held s gss) ≡ true) ⊎ Owned groups array s → Owned groups array' s
  pub by_owner : (s : ℕ) → get_elem? array' s ≡ filled (owner s gss) (get_elem? array s)

filled-owner :
    (s : ℕ) (gs : Gs) (gss : List Gs) (old : Option ℕ)
    → filled (owner s gss) (if leb 1 (count s gs.shards) then some gs.gid else old)
      ≡ filled (owner s (gs ∷ gss)) old
filled-owner s gs gss old = ground arith

pub assign-Assigned :
    (groups : List ℕ) (gss : List Gs) (array : List ℕ)
    → ((s : ℕ) → length array ≤ s → held s gss ≡ 0)
    → ((g : ℕ) → is_in g (gids gss) ≡ true → is_in g groups ≡ true)
    → Returns (Assigned groups gss array) (assign gss array)
unfolding assign
assign-Assigned groups [] array h inside = record {
  size = refl;
  owned = λ s o. elim o [ inl e ↦ absurd (ground arith) | inr o ↦ o ];
  by_owner = λ s. refl;
}
assign-Assigned groups (gs ∷ gss) array h inside =
    let known : is_in gs.gid groups ≡ true = inside gs.gid (ground (arith, ==_iff gs.gid gs.gid)) in
    Returns-bind (Written gs.shards gs.gid array) _ (assign_group gs.shards gs.gid array) _
      (assign_group-Written gs.shards gs.gid array (λ s over. omega (arith, h s over)))
      (λ array1 w.
        Returns-map _ _ (assign gss array1)
          (assign-Assigned groups gss array1
            (λ s over. omega (arith, h s (omega (arith, w.size, over))))
            (λ g p. inside g (ground arith)))
          (λ array' p. record {
            size = p.size ∙ w.size;
            owned = λ s o. p.owned s (elim (Bool-cases (leb 1 (count s gs.shards))) [
              | inl here ↦ inr (rw (w.at s, here) known)
              | inr not_here ↦ elim o [
                | inl e ↦ inl (ground arith)
                | inr o ↦ inr (rw (w.at s, not_here) o)
              ]
            ]);
            by_owner = λ s. let b = p.by_owner s in (rw (w.at s) at b) ∙ filled-owner s gs gss _;
          }))

pub array_count :
    (groups : List ℕ) (gss : List Gs) (shards : List ℕ) (i : ℕ) {gs : Gs}
    → Distinct (gids gss)
    → ((s : ℕ) → held s gss ≡ within 0 10 s)
    → Assigned groups gss (replicate 10 0) shards
    → get_elem? gss i ≡ some gs
    → count gs.gid shards ≡ length gs.shards
array_count groups gss shards i d spot a e =
    let ten : length shards ≡ 10 = a.size in
    count-owned gss shards i d (λ s lt. ground (arith, spot s)) (λ s le. ground (arith, spot s))
      (λ s lt.
        let (g, o) = owner-some s gss (ground (arith, spot s)) in
        let b = a.by_owner s in (rw o at b) ∙ sym o)
      e

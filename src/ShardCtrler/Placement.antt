-- ===== src/ShardCtrler/Placement.antt =====
-- Where `rebalance` leaves the shards.
use mit_6_5840_2024_lab.Common.{
  ℕ, ◌+◌, ◌≤◌, ◌<◌, ◌≡◌, refl, ap, sym, subst, ◌∙◌, true, some, List, [], ◌∷◌, arith, length,
  replicate, Option-cases, inl, inr, ◌⊎◌, ◌>>=◌, Returns, Returns-some, Returns-bind,
}
use mit_6_5840_2024_lab.Common.Maps.{Map}
use mit_6_5840_2024_lab.Common.Strings.{Str}
use mit_6_5840_2024_lab.ShardCtrler.Rebalance.{Gs, gids, is_in, spread}
use mit_6_5840_2024_lab.ShardCtrler.Extremes.{Distinct}
use mit_6_5840_2024_lab.ShardCtrler.Balance.{count, held, total}
use mit_6_5840_2024_lab.ShardCtrler.Owners.{gids-at}
use mit_6_5840_2024_lab.ShardCtrler.Written.{Owned, Assigned, assign-Assigned, array_count}
use mit_6_5840_2024_lab.ShardCtrler.Spread.{Spread, spread-Spread, rounds-bound, length-gids}
use mit_6_5840_2024_lab.ShardCtrler.Collect.{
  Collected, collect-Collected, within, sum_by-sort, is_in-sort, Distinct-sort, length-sort,
}
use mit_6_5840_2024_lab.ShardCtrler.Configs.{
  Config, groups_of, collect, sort_by_gid, assign, rebalance,
}

-- The groups of a configuration.
abbrev pub gids_of : Config → List ℕ
gids_of c = gids (groups_of c.groups)

empty-groups :
    (m : Map ℕ (List Str)) → (total (groups_of m) ≡ 0) × ((s : ℕ) → held s (groups_of m) ≡ 0)
unfolding groups_of
empty-groups [] = (refl, λ s. refl)
empty-groups ((gid, servers) ∷ m) =
    let (t, h) = empty-groups m in (omega arith, λ s. omega (arith, h s))

-- The new configuration `c'` is `c` with an array of ten shards that go to its groups, and in it no
-- two groups of `c` differ by more than one shard.
pub record Placed (c c' : Config) : Type 0 where
  pub level :
      (a b : ℕ)
      → is_in a (gids_of c) ≡ true
      → is_in b (gids_of c) ≡ true
      → count b c'.shards ≤ count a c'.shards + 1
  pub size : length c'.shards ≡ 10
  pub owned : (s : ℕ) → s < 10 → Owned (gids_of c) c'.shards s
  pub rest : c' ≡ record c { shards = c'.shards }

-- The groups and orphans that the loop starts from.
record Collected10 (c : Config) (gss : List Gs) (orphans : List ℕ) : Type 0 where
  distinct : Distinct (gids gss)
  some_group : 0 < length gss
  groups : (g : ℕ) → is_in g (gids gss) ≡ is_in g (gids_of c)
  all : total gss + length orphans ≡ 10
  kept : (s : ℕ) → held s gss + count s orphans ≡ within 0 10 s

collected-spread :
    (c : Config) (gss : List Gs) (orphans : List ℕ)
    → Collected10 c gss orphans
    → Returns (Spread gss orphans) (spread 111 gss orphans)
collected-spread c gss orphans k =
    spread-Spread 111 gss orphans
      (record { distinct = k.distinct; some_group = k.some_group; few = omega (arith, k.all) })
      (omega (arith, rounds-bound gss orphans 10 k.all))

Spread-Placed :
    (c : Config) (gss gss2 : List Gs) (orphans : List ℕ)
    → Collected10 c gss orphans
    → Spread gss orphans gss2
    → Returns
        (Placed c)
        (assign gss2 (replicate 10 0) >>= λ shards. some (record c { shards = shards }))
Spread-Placed c gss gss2 orphans k p =
    let zeros : List ℕ = replicate 10 0 in
    let spot : (s : ℕ) → held s gss2 ≡ within 0 10 s = λ s. p.kept s ∙ k.kept s in
    let same : (g : ℕ) → is_in g (gids gss2) ≡ is_in g (gids_of c) =
      λ g. ap (is_in g) p.names ∙ k.groups g in
    let whole =
      assign-Assigned (gids_of c) gss2 zeros (λ s over. ground (arith, spot s))
        (λ g h. sym (same g) ∙ h) in
    elim (Option-cases (assign gss2 zeros)) [
      | inl e ↦ absurd (rw e at whole)
      | inr (shards, e) ↦
          let a = Returns-some (Assigned (gids_of c) gss2 zeros) (assign gss2 zeros) whole e in
          rw e (record {
            level = λ x y hx hy.
                let (i, gx, ex, qx) = gids-at x gss2 (same x ∙ hx) in
                let (j, gy, ey, qy) = gids-at y gss2 (same y ∙ hy) in
                let d = subst Distinct (sym p.names) k.distinct in
                let cx = array_count (gids_of c) gss2 shards i d spot a ex in
                let cy = array_count (gids_of c) gss2 shards j d spot a ey in
                omega (arith, p.level i j ex ey, rw qx at cx, rw qy at cy);
            size = a.size;
            owned = λ s h. a.owned s (inl (ground (arith, spot s)));
            rest = refl;
          })
    ]

List-cases : (gss : List Gs) → (gss ≡ []) ⊎ ((p : Gs × List Gs) × (gss ≡ p.0 ∷ p.1))
List-cases [] = inl refl
List-cases (gs ∷ gss) = inr ((gs, gss), refl)

rebalance-run :
    (old_shards : List ℕ) (c : Config) {gs : Gs} {gss : List Gs}
    → groups_of c.groups ≡ gs ∷ gss
    → rebalance old_shards c ≡ (
        collect old_shards 0 (gs ∷ gss) [] >>= λ r. spread 111 (sort_by_gid r.0) r.1 >>= λ gss2.
        assign gss2 (replicate 10 0) >>= λ shards. some (record c { shards = shards }))
unfolding rebalance
rebalance-run old_shards c e = rw (e, rebalance) refl

sorted-Collected10 :
    (c : Config) (r : List Gs × List ℕ)
    → 0 < length (groups_of c.groups)
    → Distinct (gids_of c)
    → Collected 10 0 (groups_of c.groups) [] r
    → Collected10 c (sort_by_gid r.0) r.1
sorted-Collected10 c r h d p =
    let (t, none_held) = empty-groups c.groups in
    record {
      distinct = Distinct-sort r.0 (subst Distinct (sym p.names) d);
      some_group = omega (
        arith,
        length-sort r.0,
        length-gids r.0,
        length-gids (groups_of c.groups),
        ap length p.names,
        h,
      );
      groups = λ g. is_in-sort g r.0 ∙ ap (is_in g) p.names;
      all = omega (arith, sum_by-sort (λ gs. length gs.shards) r.0, p.sizes, t);
      kept = λ s. omega (arith, sum_by-sort (λ gs. count s gs.shards) r.0, p.kept s, none_held s);
    }

-- For ten old shards and at least one new group, no two with the same gid, `rebalance` returns. It
-- sets the shards only: each of the ten to one of the new groups, such that no two groups differ by
-- more than one shard.
pub rebalance-Placed :
    (old_shards : List ℕ) (c : Config)
    → length old_shards ≡ 10
    → 0 < length (groups_of c.groups)
    → Distinct (gids_of c)
    → Returns (Placed c) (rebalance old_shards c)
rebalance-Placed old_shards c ten h d = elim (List-cases (groups_of c.groups)) [
  | inl e ↦ absurd (omega (arith, h, ap length e))
  | inr ((gs, gss), e) ↦
      let start = rw ten at (collect-Collected old_shards 0 (groups_of c.groups) []) in
      let start' = rw e at start in
      rw (rebalance-run old_shards c e) (
        Returns-bind (Collected 10 0 (gs ∷ gss) []) (Placed c) (collect old_shards 0 (gs ∷ gss) [])
          _ start'
          (λ r p.
            let k = sorted-Collected10 c r h d (rw e p) in
            Returns-bind (Spread (sort_by_gid r.0) r.1) (Placed c)
              (spread 111 (sort_by_gid r.0) r.1) _ (collected-spread c (sort_by_gid r.0) r.1 k)
              (λ gss2 q. Spread-Placed c (sort_by_gid r.0) gss2 r.1 k q)))
]

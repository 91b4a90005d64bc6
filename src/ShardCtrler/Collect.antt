-- ===== src/ShardCtrler/Collect.antt =====
-- What `rebalance` collects before its loop.
use mit_6_5840_2024_lab.Common.{
  ℕ, suc, ◌+◌, ◌≡◌, refl, ◌∙◌, true, false, not, ◌&&◌, ◌||◌, some, List, [], ◌∷◌, ◌++◌, arith,
  length, get_elem?, ltb, leb, ◌==◌, ==_iff, if◌then◌else◌, Bool-cases, inl, inr, Returns,
  Returns-bind, Returns-map, length-append,
}
use mit_6_5840_2024_lab.ShardCtrler.Rebalance.{Gs, gids, is_in, index_of, with_shard}
use mit_6_5840_2024_lab.ShardCtrler.Extremes.{Distinct}
use mit_6_5840_2024_lab.ShardCtrler.Balance.{
  count, sum_by, held, total, count-append, Given, with_shard-Given,
}
use mit_6_5840_2024_lab.ShardCtrler.Configs.{collect, insert_by_gid, sort_by_gid}

index_of-in :
    (gss : List Gs) (gid : ℕ)
    → is_in gid (gids gss) ≡ true
    → (gs : Gs) × (get_elem? gss (index_of gid (gids gss)) ≡ some gs)
unfolding index_of
index_of-in [] gid h = absurd (cc)
index_of-in (gs ∷ gss) gid h = elim (Bool-cases (gs.gid == gid)) [
  | inl same ↦ rw same (gs, refl)
  | inr other ↦ elim (Bool-cases (is_in gid (gids gss))) [
    | inl later ↦ rw (other, later) (index_of-in gss gid later)
    | inr never ↦ absurd (ground arith)
  ]
]

-- Shard `s` is among the `len` from `n` on.
abbrev pub within : ℕ → ℕ → ℕ → ℕ
within n len s = if leb n s && ltb s (n + len) then 1 else 0

pub record Collected (len n : ℕ) (gss : List Gs) (orphans : List ℕ) (r : List Gs × List ℕ)
    : Type 0 where
  pub names : gids r.0 ≡ gids gss
  pub sizes : total r.0 + length r.1 ≡ total gss + length orphans + len
  pub kept : (s : ℕ) → held s r.0 + count s r.1 ≡ held s gss + count s orphans + within n len s

-- One shard goes to its group or to the orphans.
Collected-cons :
    (len n : ℕ) (gss gss1 : List Gs) (orphans orphans1 : List ℕ) (r : List Gs × List ℕ)
    → gids gss1 ≡ gids gss
    → total gss1 + length orphans1 ≡ total gss + length orphans + 1
    → ((s : ℕ) → held s gss1 + count s orphans1 ≡ held s gss + count s orphans + count s (n ∷ []))
    → Collected len (n + 1) gss1 orphans1 r
    → Collected (suc len) n gss orphans r
Collected-cons len n gss gss1 orphans orphans1 r names sizes kept p = record {
  names = p.names ∙ names;
  sizes = omega (arith, p.sizes, sizes);
  kept = λ s. ground (arith, p.kept s, kept s);
}

pub collect-Collected :
    (rest : List ℕ) (n : ℕ) (gss : List Gs) (orphans : List ℕ)
    → Returns (Collected (length rest) n gss orphans) (collect rest n gss orphans)
unfolding collect
collect-Collected [] n gss orphans = record {
  names = refl;
  sizes = omega arith;
  kept = λ s. ground arith;
}
collect-Collected (gid ∷ rest) n gss orphans =
    elim (Bool-cases (gid == 0 || not (is_in gid (gids gss)))) [
      | inl lost ↦ rw lost (
          Returns-map _ _ (collect rest (n + 1) gss (orphans ++ n ∷ []))
            (collect-Collected rest (n + 1) gss (orphans ++ n ∷ []))
            (λ r p.
              Collected-cons (length rest) n gss gss orphans (orphans ++ n ∷ []) r refl
                (omega (arith, length-append orphans (n ∷ [])))
                (λ s. omega (arith, count-append s orphans (n ∷ []))) p))
      | inr kept ↦
          let (gs, at) = index_of-in gss gid (ground arith) in
          rw kept (
            Returns-bind (Given gss n) (Collected (suc (length rest)) n gss orphans)
              (with_shard gss (index_of gid (gids gss)) n) _
              (with_shard-Given gss (index_of gid (gids gss)) n at)
              (λ gss1 g.
                Returns-map _ _ (collect rest (n + 1) gss1 orphans)
                  (collect-Collected rest (n + 1) gss1 orphans)
                  (λ r p.
                    Collected-cons (length rest) n gss gss1 orphans orphans r g.names
                      (omega (arith, g.more)) (λ s. omega (arith, g.kept s)) p)))
    ]

-- The sort keeps all that matters of the groups.
sum_by-insert :
    (f : Gs → ℕ) (gs : Gs) (gss : List Gs) → sum_by f (insert_by_gid gs gss) ≡ f gs + sum_by f gss
unfolding insert_by_gid
sum_by-insert f gs [] = refl
sum_by-insert f gs (x ∷ gss) = ground (arith, sum_by-insert f gs gss)

pub sum_by-sort : (f : Gs → ℕ) (gss : List Gs) → sum_by f (sort_by_gid gss) ≡ sum_by f gss
unfolding sort_by_gid
sum_by-sort f [] = refl
sum_by-sort f (gs ∷ gss) = omega (arith, sum_by-insert f gs (sort_by_gid gss), sum_by-sort f gss)

is_in-insert :
    (g : ℕ) (gs : Gs) (gss : List Gs)
    → is_in g (gids (insert_by_gid gs gss)) ≡ (if gs.gid == g then true else is_in g (gids gss))
unfolding insert_by_gid
is_in-insert g gs [] = refl
is_in-insert g gs (x ∷ gss) = ground (arith, is_in-insert g gs gss)

pub is_in-sort : (g : ℕ) (gss : List Gs) → is_in g (gids (sort_by_gid gss)) ≡ is_in g (gids gss)
unfolding sort_by_gid
is_in-sort g [] = refl
is_in-sort g (gs ∷ gss) = ground (arith, is_in-insert g gs (sort_by_gid gss), is_in-sort g gss)

Distinct-insert :
    (gs : Gs) (gss : List Gs)
    → is_in gs.gid (gids gss) ≡ false
    → Distinct (gids gss)
    → Distinct (gids (insert_by_gid gs gss))
unfolding insert_by_gid
Distinct-insert gs [] n d = (refl, tt)
Distinct-insert gs (x ∷ gss) n (m, d) = ground (
  arith,
  Distinct-insert gs gss,
  is_in-insert x.gid gs gss,
  ==_iff gs.gid x.gid,
  ==_iff x.gid gs.gid,
)

pub Distinct-sort : (gss : List Gs) → Distinct (gids gss) → Distinct (gids (sort_by_gid gss))
unfolding sort_by_gid
Distinct-sort [] d = tt
Distinct-sort (gs ∷ gss) (n, d) =
    Distinct-insert gs (sort_by_gid gss) (is_in-sort gs.gid gss ∙ n) (Distinct-sort gss d)

length-insert : (gs : Gs) (gss : List Gs) → length (insert_by_gid gs gss) ≡ suc (length gss)
unfolding insert_by_gid
length-insert gs [] = refl
length-insert gs (x ∷ gss) = ground (arith, length-insert gs gss)

pub length-sort : (gss : List Gs) → length (sort_by_gid gss) ≡ length gss
unfolding sort_by_gid
length-sort [] = refl
length-sort (gs ∷ gss) = omega (arith, length-insert gs (sort_by_gid gss), length-sort gss)

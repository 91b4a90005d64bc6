-- ===== src/ShardCtrler/Spread.antt =====
-- The loop of `rebalance`, from any groups and orphans: it ends, and what it ends with.
use mit_6_5840_2024_lab.Common.{
  ℕ, zero, suc, ◌+◌, ◌≤◌, ◌<◌, ◌≡◌, refl, ap, sym, subst, ◌∙◌, true, false, some, List, [], ◌∷◌,
  arith, length, get_elem?, ◌==◌, if◌then◌else◌, Bool-cases, inl, inr, ◌>>=◌, Returns, Returns-bind,
  Returns-map,
}
use mit_6_5840_2024_lab.ShardCtrler.Rebalance.{
  Gs, extremes, gids, index_of, but_last, with_shard, move_shard, spread_step, is_spread, spread,
}
use mit_6_5840_2024_lab.ShardCtrler.Extremes.{
  Group, Distinct, extremes-min, extremes-max, extremes-between, index_of-at,
}
use mit_6_5840_2024_lab.ShardCtrler.Balance.{
  count, held, total, sq, squares, squares-total, split, Given, with_shard-Given, Moved,
  move_shard-Moved,
}

-- Enough rounds from these groups and orphans on.
abbrev pub rounds : List Gs → List ℕ → ℕ
rounds gss orphans =
    length orphans + (if length orphans == 0 then squares gss else sq (total gss + length orphans))

-- At least one group, no gid twice, and no more shards than the loop can count.
pub record IsReady (gss : List Gs) (orphans : List ℕ) : Type 0 where
  pub distinct : Distinct (gids gss)
  pub some_group : 0 < length gss
  pub few : total gss + length orphans ≤ 10000000000

record Stepped (gss : List Gs) (orphans : List ℕ) (r : List Gs × List ℕ) : Type 0 where
  names : gids r.0 ≡ gids gss
  sizes : total r.0 + length r.1 ≡ total gss + length orphans
  less : rounds r.0 r.1 < rounds gss orphans
  kept : (s : ℕ) → held s r.0 + count s r.1 ≡ held s gss + count s orphans

pub length-gids : (gss : List Gs) → length (gids gss) ≡ length gss
length-gids [] = refl
length-gids (gs ∷ gss) = ap suc (length-gids gss)

smallest :
    (gss : List Gs) (orphans : List ℕ)
    → IsReady gss orphans
    → Group gss (extremes gss).min_gid (extremes gss).min_num
smallest [] orphans v = absurd (omega (arith, v.some_group))
smallest (gs ∷ gss) orphans v = extremes-min gs gss (omega (arith, v.few))

largest :
    (gss : List Gs) (orphans : List ℕ)
    → IsReady gss orphans
    → Group gss (extremes gss).max_gid (extremes gss).max_num
largest [] orphans v = absurd (omega (arith, v.some_group))
largest (gs ∷ gss) orphans v = extremes-max gs gss

Group-at :
    (gss : List Gs) (gid size : ℕ) (d : Distinct (gids gss)) (g : Group gss gid size)
    → get_elem? gss (index_of gid (gids gss)) ≡ some g.group
Group-at gss gid size d g =
    ap (get_elem? gss)
      (ap (λ n. index_of n (gids gss)) (sym g.name) ∙ index_of-at gss g.index d g.at)
    ∙ g.at

pub rounds-bound :
    (gss : List Gs) (orphans : List ℕ) (t : ℕ)
    → total gss + length orphans ≡ t
    → rounds gss orphans ≤ length orphans + sq t
rounds-bound gss orphans t e = elim (Bool-cases (length orphans == 0)) [
  | inl z ↦
      let all : total gss ≡ t = ground arith in
      let wide : sq (total gss) ≡ sq t = ap sq all in rw z (omega (arith, squares-total gss, wide))
  | inr n ↦
      let wide : sq (total gss + length orphans) ≡ sq t = ap sq e in rw n (omega (arith, wide))
]

rounds-some :
    (gss : List Gs) (orphans : List ℕ)
    → (length orphans == 0) ≡ false
    → rounds gss orphans ≡ length orphans + sq (total gss + length orphans)
rounds-some gss orphans e = rw e refl

rounds-none :
    (gss : List Gs) (orphans : List ℕ)
    → (length orphans == 0) ≡ true
    → rounds gss orphans ≡ length orphans + squares gss
rounds-none gss orphans e = rw e refl

spread_step-orphan :
    (gss : List Gs) (orphans : List ℕ)
    → IsReady gss orphans
    → 0 < length orphans
    → Returns (Stepped gss orphans) (spread_step gss orphans)
unfolding spread_step
spread_step-orphan gss orphans v h =
    let sp = split orphans h in
    let g = smallest gss orphans v in
    let some_left : (length orphans == 0) ≡ false = ground arith in
    rw (some_left, sp.is_last)
      (Returns-bind (Given gss sp.last) (Stepped gss orphans)
        (with_shard gss (index_of (extremes gss).min_gid (gids gss)) sp.last) _
        (with_shard-Given gss (index_of (extremes gss).min_gid (gids gss)) sp.last
          (Group-at gss _ _ v.distinct g))
        (λ gss1 p.
          let same : total gss1 + length (but_last orphans) ≡ total gss + length orphans =
            omega (arith, p.more, sp.size) in
          record {
            names = p.names;
            sizes = same;
            less = omega (
              arith,
              rounds-bound gss1 (but_last orphans) (total gss + length orphans) same,
              rounds-some gss orphans some_left,
              sp.size,
            );
            kept = λ s. omega (arith, p.kept s, sp.counts s);
          }))

spread_step-move :
    (gss : List Gs) (orphans : List ℕ)
    → IsReady gss orphans
    → length orphans ≡ 0
    → (extremes gss).min_num + 1 < (extremes gss).max_num
    → Returns (Stepped gss orphans) (spread_step gss orphans)
unfolding spread_step
spread_step-move gss orphans v none_left far =
    let a = smallest gss orphans v in
    let b = largest gss orphans v in
    let empty : (length orphans == 0) ≡ true = ground arith in
    rw empty (
      Returns-bind (Moved gss) (Stepped gss orphans)
        (move_shard gss (index_of (extremes gss).min_gid (gids gss))
          (index_of (extremes gss).max_gid (gids gss)))
        _
        (move_shard-Moved gss _ _ (Group-at gss _ _ v.distinct a) (Group-at gss _ _ v.distinct b)
          (omega (arith, a.count, b.count)))
        (λ gss1 p. record {
          names = p.names;
          sizes = omega (arith, p.same);
          less =
              omega (arith, rounds-none gss1 orphans empty, rounds-none gss orphans empty, p.less);
          kept = λ s. omega (arith, p.kept s);
        }))

count-none : (s : ℕ) (xs : List ℕ) → length xs ≡ 0 → count s xs ≡ 0
count-none s [] h = refl
count-none s (x ∷ xs) h = absurd (omega arith)

-- What the loop makes of groups and orphans: the same groups, any two of which differ by one shard
-- at most, and every shard in them as often as in the groups and the orphans before.
pub record Spread (gss : List Gs) (orphans : List ℕ) (gss' : List Gs) : Type 0 where
  pub names : gids gss' ≡ gids gss
  pub level :
      (i j : ℕ) {a b : Gs}
      → get_elem? gss' i ≡ some a
      → get_elem? gss' j ≡ some b
      → length b.shards ≤ length a.shards + 1
  pub kept : (s : ℕ) → held s gss' ≡ held s gss + count s orphans

Stepped-IsReady :
    (gss gss1 : List Gs) (orphans orphans1 : List ℕ)
    → IsReady gss orphans
    → Stepped gss orphans (gss1, orphans1)
    → IsReady gss1 orphans1
Stepped-IsReady gss gss1 orphans orphans1 v p = record {
  distinct = subst Distinct (sym p.names) v.distinct;
  some_group = omega (arith, length-gids gss, length-gids gss1, ap length p.names, v.some_group);
  few = omega (arith, p.sizes, v.few);
}

Spread-Stepped :
    (gss gss1 : List Gs) (orphans orphans1 : List ℕ)
    → Stepped gss orphans (gss1, orphans1)
    → (gss' : List Gs) → Spread gss1 orphans1 gss'
    → Spread gss orphans gss'
Spread-Stepped gss gss1 orphans orphans1 p gss' r = record {
  names = r.names ∙ p.names;
  level = r.level;
  kept = λ s. omega (arith, r.kept s, p.kept s);
}

is_spread-Spread :
    (gss : List Gs) (orphans : List ℕ) → is_spread gss orphans ≡ true → Spread gss orphans gss
unfolding is_spread
is_spread-Spread gss orphans e =
    let none_left : length orphans ≡ 0 = ground arith in
    let near : (extremes gss).max_num ≤ (extremes gss).min_num + 1 = ground arith in
    record {
      names = refl;
      level =
          λ i j ga gb. omega (arith, near, extremes-between gss i ga, extremes-between gss j gb);
      kept = λ s. omega (arith, count-none s orphans none_left);
    }

spread_step-Stepped :
    (gss : List Gs) (orphans : List ℕ)
    → IsReady gss orphans
    → is_spread gss orphans ≡ false
    → Returns (Stepped gss orphans) (spread_step gss orphans)
unfolding is_spread
spread_step-Stepped gss orphans v e = elim (Bool-cases (length orphans == 0)) [
  | inl z ↦ spread_step-move gss orphans v (ground arith) (ground arith)
  | inr n ↦ spread_step-orphan gss orphans v (ground arith)
]

spread-stop :
    (fuel : ℕ) (gss : List Gs) (orphans : List ℕ)
    → is_spread gss orphans ≡ true
    → spread (suc fuel) gss orphans ≡ some gss
unfolding spread
spread-stop fuel gss orphans e = rw (e, spread) refl

spread-on :
    (fuel : ℕ) (gss : List Gs) (orphans : List ℕ)
    → is_spread gss orphans ≡ false
    → spread (suc fuel) gss orphans ≡ (spread_step gss orphans >>= λ r. spread fuel r.0 r.1)
unfolding spread
spread-on fuel gss orphans e = rw (e, spread) refl

-- For at least one group, no two with the same gid, any orphans, and at most ten thousand million
-- shards in all, the loop of `rebalance` ends without a panic, with more fuel than `rounds gss
-- orphans`. Then the groups are the same as before, any two of them differ by one shard at most,
-- and each shard is in them as often as it was in the groups and the orphans.
pub spread-Spread :
    (fuel : ℕ) (gss : List Gs) (orphans : List ℕ)
    → IsReady gss orphans
    → rounds gss orphans < fuel
    → Returns (Spread gss orphans) (spread fuel gss orphans)
unfolding spread
spread-Spread zero gss orphans v enough = absurd (omega arith)
spread-Spread (suc fuel) gss orphans v enough = elim (Bool-cases (is_spread gss orphans)) [
  | inl e ↦ rw (spread-stop fuel gss orphans e) (is_spread-Spread gss orphans e)
  | inr e ↦ rw (spread-on fuel gss orphans e) (
      Returns-bind (Stepped gss orphans) (Spread gss orphans) (spread_step gss orphans) _
        (spread_step-Stepped gss orphans v e)
        (λ (gss1, orphans1) p.
          Returns-map (Spread gss1 orphans1) (Spread gss orphans) (spread fuel gss1 orphans1)
            (spread-Spread fuel gss1 orphans1 (Stepped-IsReady gss gss1 orphans orphans1 v p)
              (omega (arith, p.less, enough)))
            (Spread-Stepped gss gss1 orphans orphans1 p)))
]

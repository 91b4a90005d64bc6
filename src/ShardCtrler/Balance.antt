-- ===== src/ShardCtrler/Balance.antt =====
-- The loop of `rebalance` ends, with groups that differ by one shard at most and every shard in one
-- of them.
use mit_6_5840_2024_lab.Common.{
  ℕ, zero, suc, ◌+◌, ◌-◌, ◌≤◌, ◌<◌, ◌≡◌, ◌≢◌, refl, ap, ◌∙◌, some, List, [], ◌∷◌, ◌++◌, arith,
  length, get_elem?, set, take, ◌==◌, if◌then◌else◌, Returns, length-append, get_elem?-set_ne,
}
use mit_6_5840_2024_lab.ShardCtrler.Rebalance.{
  Gs, gids, last_shard, but_last, with_shard, move_shard,
}

abbrev pub count : ℕ → List ℕ → ℕ
count s [] = 0
count s (x ∷ xs) = (if x == s then 1 else 0) + count s xs

abbrev pub sum_by : (Gs → ℕ) → List Gs → ℕ
sum_by f [] = 0
sum_by f (gs ∷ gss) = f gs + sum_by f gss

-- How often a shard is in some group.
abbrev pub held : ℕ → List Gs → ℕ
held s = sum_by (λ gs. count s gs.shards)

abbrev pub total : List Gs → ℕ
total = sum_by (λ gs. length gs.shards)

-- The square, by its differences.
abbrev pub sq : ℕ → ℕ
sq zero = 0
sq (suc n) = sq n + n + n + 1

abbrev pub squares : List Gs → ℕ
squares = sum_by (λ gs. sq (length gs.shards))

sq_add : (a b : ℕ) → sq a + sq b ≤ sq (a + b)
sq_add a zero = let e : a + 0 ≡ a = omega arith in rw e (omega arith)
sq_add a (suc b) =
    let e : a + suc b ≡ suc (a + b) = omega arith in let h = sq_add a b in rw e (omega arith)

pub squares-total : (gss : List Gs) → squares gss ≤ sq (total gss)
squares-total [] = omega arith
squares-total (gs ∷ gss) = omega (arith, squares-total gss, sq_add (length gs.shards) (total gss))

sum_by-set :
    (f : Gs → ℕ) (gss : List Gs) (i : ℕ) {x : Gs} (y : Gs)
    → get_elem? gss i ≡ some x
    → sum_by f (set gss i y) + f x ≡ sum_by f gss + f y
sum_by-set f [] i y g = absurd (cc)
sum_by-set f (z ∷ gss) zero {x} y g = let same : z ≡ x = cc in rw (← same) (omega arith)
sum_by-set f (z ∷ gss) (suc i) {x} y g = omega (arith, sum_by-set f gss i y g)

gids-set :
    (gss : List Gs) (i : ℕ) {x : Gs} (y : Gs)
    → get_elem? gss i ≡ some x
    → y.gid ≡ x.gid
    → gids (set gss i y) ≡ gids gss
gids-set [] i y g e = refl
gids-set (z ∷ gss) zero y g e = cc
gids-set (z ∷ gss) (suc i) y g e = ap (λ r. z.gid ∷ r) (gids-set gss i y g e)

pub count-append : (s : ℕ) (xs ys : List ℕ) → count s (xs ++ ys) ≡ count s xs + count s ys
count-append s [] ys = omega arith
count-append s (x ∷ xs) ys = omega (arith, count-append s xs ys)

-- A list that is not empty, without its last element.
pub record Split (xs : List ℕ) : Type 0 where
  pub last : ℕ
  pub is_last : last_shard xs ≡ some last
  pub size : length (but_last xs) + 1 ≡ length xs
  pub counts : (s : ℕ) → count s (but_last xs) + count s (last ∷ []) ≡ count s xs

record SplitAt (xs : List ℕ) (n : ℕ) : Type 0 where
  pub last : ℕ
  pub is_last : get_elem? xs n ≡ some last
  pub size : length (take n xs) ≡ n
  pub counts : (s : ℕ) → count s (take n xs) + count s (last ∷ []) ≡ count s xs

split_at : (xs : List ℕ) (n : ℕ) → length xs ≡ suc n → SplitAt xs n
split_at [] n h = absurd (omega arith)
split_at (x ∷ []) zero h = record {
  last = x;
  is_last = refl;
  size = refl;
  counts = λ s. omega arith;
}
split_at (x ∷ y ∷ xs) zero h = absurd (omega arith)
split_at (x ∷ xs) (suc n) h =
    let r = split_at xs n (omega arith) in
    record {
      last = r.last;
      is_last = r.is_last;
      size = omega (arith, r.size);
      counts = λ s. omega (arith, r.counts s);
    }

pub split : (xs : List ℕ) → 0 < length xs → Split xs
split xs h =
    let r = split_at xs (length xs - 1) (omega arith) in
    record { last = r.last; is_last = r.is_last; size = omega (arith, r.size); counts = r.counts }

-- One group with one shard more.
pub record Given (gss : List Gs) (shard : ℕ) (gss1 : List Gs) : Type 0 where
  pub names : gids gss1 ≡ gids gss
  pub more : total gss1 ≡ total gss + 1
  pub kept : (s : ℕ) → held s gss1 ≡ held s gss + count s (shard ∷ [])

pub with_shard-Given :
    (gss : List Gs) (i shard : ℕ) {gs : Gs}
    → get_elem? gss i ≡ some gs
    → Returns (Given gss shard) (with_shard gss i shard)
with_shard-Given gss i shard {gs} g =
    let gs1 : Gs = record gs { shards = gs.shards ++ shard ∷ [] } in
    let longer = length-append gs.shards (shard ∷ []) in
    rw g (record {
      names = gids-set gss i gs1 g refl;
      more = omega (arith, sum_by-set (λ gs. length gs.shards) gss i gs1 g, longer);
      kept = λ s. omega (
        arith,
        sum_by-set (λ gs. count s gs.shards) gss i gs1 g,
        count-append s gs.shards (shard ∷ []),
      );
    })

-- A shard moved from a group to one with at least two fewer.
pub record Moved (gss gss1 : List Gs) : Type 0 where
  pub names : gids gss1 ≡ gids gss
  pub same : total gss1 ≡ total gss
  pub less : squares gss1 < squares gss
  pub kept : (s : ℕ) → held s gss1 ≡ held s gss

sq_closer : (a b : ℕ) → b < a → sq a + sq (b + 1) < sq (a + 1) + sq b
sq_closer a b h =
    let e : a + 1 ≡ suc a = omega arith in
    let f : b + 1 ≡ suc b = omega arith in rw (e, f) (omega arith)

pub move_shard-Moved :
    (gss : List Gs) (low high : ℕ) {a b : Gs}
    → get_elem? gss low ≡ some a
    → get_elem? gss high ≡ some b
    → length a.shards + 1 < length b.shards
    → Returns (Moved gss) (move_shard gss low high)
unfolding move_shard
move_shard-Moved gss low high {a} {b} ga gb h =
    let apart : low ≢ high = λ same.
      (let ga' = rw same at ga in
        let ab : a ≡ b = cc in absurd (omega (arith, ap (λ g. length g.shards) ab))) in
    let sp = split b.shards (omega arith) in
    let a1 : Gs = record a { shards = a.shards ++ sp.last ∷ [] } in
    let b1 : Gs = record b { shards = but_last b.shards } in
    let gb1 : get_elem? (set gss low a1) high ≡ some b =
      get_elem?-set_ne gss low high a1 apart ∙ gb in
    let longer : length a1.shards ≡ length a.shards + 1 =
      omega (arith, length-append a.shards (sp.last ∷ [])) in
    let wider : sq (length a1.shards) ≡ sq (length a.shards + 1) = ap sq longer in
    let narrower : sq (length b1.shards + 1) ≡ sq (length b.shards) = ap sq sp.size in
    rw (gb, sp.is_last, ga)
      (record {
        names = gids-set (set gss low a1) high b1 gb1 refl ∙ gids-set gss low a1 ga refl;
        same = omega (
          arith,
          sum_by-set (λ gs. length gs.shards) gss low a1 ga,
          sum_by-set (λ gs. length gs.shards) (set gss low a1) high b1 gb1,
          longer,
          sp.size,
        );
        less = omega (
          arith,
          sum_by-set (λ gs. sq (length gs.shards)) gss low a1 ga,
          sum_by-set (λ gs. sq (length gs.shards)) (set gss low a1) high b1 gb1,
          wider,
          narrower,
          sq_closer (length b1.shards) (length a.shards) (omega (arith, sp.size)),
        );
        kept = λ s. omega (
          arith,
          sum_by-set (λ gs. count s gs.shards) gss low a1 ga,
          sum_by-set (λ gs. count s gs.shards) (set gss low a1) high b1 gb1,
          count-append s a.shards (sp.last ∷ []),
          sp.counts s,
        );
      })

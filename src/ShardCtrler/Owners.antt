-- ===== src/ShardCtrler/Owners.antt =====
-- Which group a shard is written for when the array is filled from the groups' lists, and how many
-- shards of the array each group then has.
use native.Mathlib.Decide.{dec_lt}
use mit_6_5840_2024_lab.Common.{
  ℕ, zero, suc, ◌+◌, ◌≤◌, ◌<◌, ◌≡◌, refl, ◌∙◌, true, false, Option, none, some, List, [], ◌∷◌,
  arith, length, get_elem?, leb, ◌==◌, ==_iff, if◌then◌else◌, Bool-cases, inl, inr,
}
use mit_6_5840_2024_lab.ShardCtrler.Rebalance.{Gs, gids, is_in}
use mit_6_5840_2024_lab.ShardCtrler.Extremes.{Distinct, is_in-gids}
use mit_6_5840_2024_lab.ShardCtrler.Balance.{count, held}

-- The last group whose list has the shard.
abbrev pub owner : ℕ → List Gs → Option ℕ
owner s [] = none
owner s (gs ∷ gss) = elim (owner s gss) [
  | none ↦ if leb 1 (count s gs.shards) then some gs.gid else none
  | some g ↦ some g
]

-- 1 if the group is `g`.
abbrev pub hit : ℕ → Option ℕ → ℕ
hit g none = 0
hit g (some h) = if h == g then 1 else 0

owner-none : (s : ℕ) (gss : List Gs) → held s gss ≡ 0 → owner s gss ≡ none
owner-none s [] h = refl
owner-none s (gs ∷ gss) h = rw (owner-none s gss (omega (arith, h))) (ground arith)

owner-outside : (s g : ℕ) (gss : List Gs) → is_in g (gids gss) ≡ false → hit g (owner s gss) ≡ 0
owner-outside s g [] h = refl
owner-outside s g (gs ∷ gss) h = ground (arith, owner-outside s g gss)

pub owner-some : (s : ℕ) (gss : List Gs) → 1 ≤ held s gss → (g : ℕ) × (owner s gss ≡ some g)
owner-some s [] h = absurd (omega arith)
owner-some s (gs ∷ gss) h = elim (dec_lt 0 (held s gss)) [
  | yes more ↦ let (g, e) = owner-some s gss (omega arith) in (g, rw e refl)
  | no none_left ↦ (gs.gid, rw (owner-none s gss (omega arith)) (ground arith))
]

held-at :
    (s : ℕ) (gss : List Gs) (i : ℕ) {gs : Gs}
    → get_elem? gss i ≡ some gs
    → count s gs.shards ≤ held s gss
held-at s [] i e = absurd (cc)
held-at s (x ∷ gss) zero e = let same = e in ground arith
held-at s (x ∷ gss) (suc i) e = omega (arith, held-at s gss i e)

-- Of a shard that is in one list only, once, the owner is the group with that list.
owner-hit :
    (s : ℕ) (gss : List Gs) (i : ℕ) {gs : Gs}
    → Distinct (gids gss)
    → held s gss ≡ 1
    → get_elem? gss i ≡ some gs
    → hit gs.gid (owner s gss) ≡ count s gs.shards
owner-hit s [] i d h e = absurd (cc)
owner-hit s (x ∷ gss) zero {gs} d h e =
    let same : x ≡ gs = cc in
    rw (← same) (elim (dec_lt 0 (count s x.shards)) [
      | yes here ↦ rw (owner-none s gss (omega arith)) (ground (arith, ==_iff x.gid x.gid))
      | no not_here ↦
          let (g, o) = owner-some s gss (omega arith) in
          let out = owner-outside s x.gid gss d.0 in rw o (ground arith)
    ])
owner-hit s (x ∷ gss) (suc i) {gs} d h e = elim (dec_lt 0 (count s x.shards)) [
  | yes here ↦
      let at = held-at s gss i e in
      let inside = is_in-gids gss i e in
      rw (owner-none s gss (omega arith)) (ground (arith, ==_iff x.gid gs.gid))
  | no not_here ↦
      let (g, o) = owner-some s gss (omega arith) in
      let r = owner-hit s gss i d.1 (omega arith) e in rw o (let r' = rw o at r in r')
]

-- `f 0 + ... + f (n - 1)`
abbrev sum_up : (ℕ → ℕ) → ℕ → ℕ
sum_up f zero = 0
sum_up f (suc n) = f 0 + sum_up (λ s. f (suc s)) n

sum_up-cong : (f g : ℕ → ℕ) (n : ℕ) → ((s : ℕ) → s < n → f s ≡ g s) → sum_up f n ≡ sum_up g n
sum_up-cong f g zero h = refl
sum_up-cong f g (suc n) h =
    let r = sum_up-cong (λ s. f (suc s)) (λ s. g (suc s)) n (λ s lt. h (suc s) (omega arith)) in
    omega (arith, h 0 (omega arith), r)

sum_up-add : (f g : ℕ → ℕ) (n : ℕ) → sum_up (λ s. f s + g s) n ≡ sum_up f n + sum_up g n
sum_up-add f g zero = refl
sum_up-add f g (suc n) = omega (arith, sum_up-add (λ s. f (suc s)) (λ s. g (suc s)) n)

sum_up-zero : (n : ℕ) → sum_up (λ s. 0) n ≡ 0
sum_up-zero zero = refl
sum_up-zero (suc n) = omega (arith, sum_up-zero n)

sum_up-one : (x n : ℕ) → x < n → sum_up (λ s. if x == s then 1 else 0) n ≡ 1
sum_up-one x zero h = absurd (omega arith)
sum_up-one zero (suc n) h =
    let none =
      sum_up-cong (λ s. if zero == suc s then 1 else 0) (λ s. 0) n
        (λ s lt. ground (arith, ==_iff zero (suc s))) in
    omega (arith, none, sum_up-zero n)
sum_up-one (suc x) (suc n) h =
    let same =
      sum_up-cong (λ s. if suc x == suc s then 1 else 0) (λ s. if x == s then 1 else 0) n
        (λ s lt. ground (arith, ==_iff (suc x) (suc s), ==_iff x s)) in
    ground (arith, same, sum_up-one x n (omega arith), ==_iff (suc x) zero)

-- The number of places of the array that hold `g`.
count-hits :
    (g : ℕ) (array : List ℕ)
    → count g array ≡ sum_up (λ s. hit g (get_elem? array s)) (length array)
count-hits g [] = refl
count-hits g (x ∷ xs) = omega (arith, count-hits g xs)

-- A list of numbers below `n` has as many elements as it has numbers, counted one by one.
length-counts :
    (n : ℕ) (xs : List ℕ)
    → ((s : ℕ) → n ≤ s → count s xs ≡ 0)
    → sum_up (λ s. count s xs) n ≡ length xs
length-counts n [] h = sum_up-zero n
length-counts n (x ∷ xs) h = elim (dec_lt x n) [
  | yes lt ↦
      let add = sum_up-add (λ s. if x == s then 1 else 0) (λ s. count s xs) n in
      let one = sum_up-one x n lt in
      let rest = length-counts n xs (λ s le. ground (arith, h s le)) in omega arith
  | no ge ↦ absurd (ground (arith, h x (omega arith), ==_iff x x))
]

-- When each place of the array holds the shard's owner, each group has as many shards in the array
-- as in its list.
pub count-owned :
    (gss : List Gs) (array : List ℕ) (i : ℕ) {gs : Gs}
    → Distinct (gids gss)
    → ((s : ℕ) → s < length array → held s gss ≡ 1)
    → ((s : ℕ) → length array ≤ s → held s gss ≡ 0)
    → ((s : ℕ) → s < length array → get_elem? array s ≡ owner s gss)
    → get_elem? gss i ≡ some gs
    → count gs.gid array ≡ length gs.shards
count-owned gss array i {gs} d once over at e =
    let hits =
      sum_up-cong (λ s. hit gs.gid (get_elem? array s)) (λ s. count s gs.shards) (length array)
        (λ s lt. rw (at s lt) (owner-hit s gss i d (once s lt) e)) in
    count-hits gs.gid array
    ∙ hits
    ∙ length-counts (length array) gs.shards (λ s le. omega (arith, held-at s gss i e, over s le))

-- Every group has a place in the list.
pub gids-at :
    (g : ℕ) (gss : List Gs)
    → is_in g (gids gss) ≡ true
    → (i : ℕ) × (gs : Gs) × (get_elem? gss i ≡ some gs) × (gs.gid ≡ g)
gids-at g [] h = absurd (cc)
gids-at g (x ∷ gss) h = elim (Bool-cases (x.gid == g)) [
  | inl same ↦ (0, x, refl, (==_iff x.gid g).0 same)
  | inr other ↦ let (i, gs, e, q) = gids-at g gss (rw other at h) in (suc i, gs, e, q)
]

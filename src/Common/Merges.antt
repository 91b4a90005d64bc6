-- ===== src/Common/Merges.antt =====
-- Loops over a map that keep some of its entries, or put some of them into another map.
use mathlib.Core.Path.{◌≡◌, refl}
use mathlib.Core.Bool.{Bool, not, ◌&&◌}
use mathlib.Core.Option.{Option, none, some}
use mathlib.Core.List.{[], ◌∷◌}
use native.Mathlib.Omega.{arith}
use mit_6_5840_2024_lab.Common.Tests.{if◌then◌else◌}
use mit_6_5840_2024_lab.Common.Maps.{Eq, Map, lookup, insert, lookup-insert}

abbrev pub kept {κ} : {V : Type κ} → (V → Bool) → Option V → Option V
kept p none = none
kept p (some v) = if p v then some v else none

abbrev pub newer {κ} : {V : Type κ} → (V → Bool) → Option V → Option V → Option V
newer p none old = old
newer p (some v) old = if p v then some v else old

pub kept_ext {κ} :
    {V : Type κ} (p q : V → Bool) (o : Option V) → ((v : V) → p v ≡ q v) → kept p o ≡ kept q o
kept_ext p q none h = refl
kept_ext p q (some v) h = rw (h v) refl

pub kept_const {κ} :
    {V : Type κ} (b : Bool) (o : Option V) → kept (λ v. not b) o ≡ (if b then none else o)
kept_const b none = ground arith
kept_const b (some v) = ground arith

pub newer-kept {κ} :
    {V : Type κ} (p q : V → Bool) (o old : Option V)
    → newer p (kept q o) old ≡ newer (λ v. p v && q v) o old
newer-kept p q none old = refl
newer-kept p q (some v) old = ground arith

module _ {ℓ κ} {K : Type ℓ} {V : Type κ} ⦃e : Eq K⦄ where
  -- No key twice, as in a Go map.
  abbrev pub UniqueKeys : Map K V → Type (ℓ ⊔ κ)
  UniqueKeys [] = Unit
  UniqueKeys ((k, v) ∷ m) = (lookup k m ≡ none) × UniqueKeys m

  -- The entries that pass the test.
  unfoldable pub select : (K → V → Bool) → Map K V → Map K V
  select p [] = []
  select p ((k, v) ∷ m) = let rest = select p m in if p k v then (k, v) ∷ rest else rest

  -- `for k, v := range new { if p { m[k] = v } }`
  unfoldable pub merge : (K → V → Bool) → Map K V → Map K V → Map K V
  merge p [] m = m
  merge p ((k, v) ∷ new) m = merge p new (if p k v then insert k v m else m)

  select-misses :
      (p : K → V → Bool) (k : K) (m : Map K V) → lookup k m ≡ none → lookup k (select p m) ≡ none
  unfolding lookup select
  select-misses p k [] h = refl
  select-misses p k ((j, v) ∷ m) h = ground (arith, select-misses p k m)

  pub lookup-select :
      (p : K → V → Bool) (k : K) (m : Map K V)
      → UniqueKeys m
      → lookup k (select p m) ≡ kept (p k) (lookup k m)
  unfolding lookup select
  lookup-select p k [] u = refl
  lookup-select p k ((j, v) ∷ m) (n, u) =
      ground (arith, e.beq_iff j k, lookup-select p k m u, select-misses p j m n)

  pub UniqueKeys-select : (p : K → V → Bool) (m : Map K V) → UniqueKeys m → UniqueKeys (select p m)
  unfolding select
  UniqueKeys-select p [] u = tt
  UniqueKeys-select p ((j, v) ∷ m) (n, u) =
      ground (arith, UniqueKeys-select p m u, select-misses p j m n)

  pub UniqueKeys-insert : (k : K) (v : V) (m : Map K V) → UniqueKeys m → UniqueKeys (insert k v m)
  unfolding lookup insert
  UniqueKeys-insert k v [] u = (refl, tt)
  UniqueKeys-insert k v ((j, w) ∷ m) (n, u) =
      ground (arith, e.beq_iff j k, e.beq_iff k j, UniqueKeys-insert k v m u, lookup-insert k j v m)

  pub lookup-merge :
      (p : K → V → Bool) (k : K) (new m : Map K V)
      → UniqueKeys new
      → lookup k (merge p new m) ≡ newer (p k) (lookup k new) (lookup k m)
  unfolding lookup merge
  lookup-merge p k [] m u = refl
  lookup-merge p k ((j, v) ∷ new) m (n, u) = ground (
    arith,
    e.beq_iff j k,
    lookup-insert j k v m,
    lookup-merge p k new (if p j v then insert j v m else m) u,
  )

  pub UniqueKeys-merge :
      (p : K → V → Bool) (new m : Map K V) → UniqueKeys m → UniqueKeys (merge p new m)
  unfolding merge
  UniqueKeys-merge p [] m u = u
  UniqueKeys-merge p ((j, v) ∷ new) m u =
      UniqueKeys-merge p new (if p j v then insert j v m else m)
        (ground (arith, UniqueKeys-insert j v m u))

-- ===== src/Raft/Shape/Lists.antt =====
-- The invariant, and the list lemmas that its proofs use.
use mit_6_5840_2024_lab.Common.{
  ℕ, zero, suc, ◌+◌, ◌≤◌, ◌<◌, ◌≡◌, some, List, [], ◌∷◌, ◌++◌, arith, length, get_elem?, take, drop,
}
use mit_6_5840_2024_lab.Raft.Types.{noop, LogEntry, Raft}

module _ {C : Type 0} where
  abbrev pub Contiguous : ℕ → List (LogEntry C) → Type 0
  Contiguous i [] = Unit {0}
  Contiguous i (e ∷ l) = (e.index ≡ i) × Contiguous (suc i) l

  pub Contiguous-append :
      (i j : ℕ) (xs ys : List (LogEntry C))
      → i + length xs ≡ j
      → Contiguous i xs
      → Contiguous j ys
      → Contiguous i (xs ++ ys)
  Contiguous-append i j [] ys e hx hy = let e' : i ≡ j = omega arith in rw e' hy
  Contiguous-append i j (x ∷ xs) ys e hx hy =
      (hx.0, Contiguous-append (suc i) j xs ys (omega arith) hx.1 hy)

  pub Contiguous-take :
      (i n : ℕ) (xs : List (LogEntry C)) → Contiguous i xs → Contiguous i (take n xs)
  Contiguous-take i zero xs h = tt
  Contiguous-take i (suc n) [] h = tt
  Contiguous-take i (suc n) (x ∷ xs) h = (h.0, Contiguous-take (suc i) n xs h.1)

  pub Contiguous-drop :
      (i j n : ℕ) (xs : List (LogEntry C)) → i + n ≡ j → Contiguous i xs → Contiguous j (drop n xs)
  Contiguous-drop i j zero xs e h = let e' : i ≡ j = omega arith in rw (← e') h
  Contiguous-drop i j (suc n) [] e h = tt
  Contiguous-drop i j (suc n) (x ∷ xs) e h = Contiguous-drop (suc i) j n xs (omega arith) h.1

  pub Contiguous-get :
      (i k : ℕ) (xs : List (LogEntry C)) {e : LogEntry C}
      → Contiguous i xs
      → get_elem? xs k ≡ some e
      → e.index ≡ i + k
  Contiguous-get i k [] h g = absurd (cc)
  Contiguous-get i zero (x ∷ xs) h g = ground arith
  Contiguous-get i (suc k) (x ∷ xs) h g = omega (arith, Contiguous-get (suc i) k xs h.1 g)

pub record IsValid {C B : Type 0} (rf : Raft C B) : Type 0 where
  pub starts : rf.log.first.type ≡ noop
  pub consecutive : Contiguous (suc rf.log.first.index) rf.log.rest
  pub applied : rf.log.first.index ≤ rf.last_applied
  pub follows : length rf.next_index ≡ rf.peers
  pub matches : length rf.match_index ≡ rf.peers
  pub own : rf.me < rf.peers

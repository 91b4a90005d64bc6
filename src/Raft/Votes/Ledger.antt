-- ===== src/Raft/Votes/Ledger.antt =====
-- All votes that one peer has given, over any number of steps and restarts.
use mit_6_5840_2024_lab.Common.{
  ℕ, ◌<◌, ◌≡◌, ◌⊎◌, Bool, true, false, ◌&&◌, Option, none, some, List, [], ◌∷◌, arith, All, ◌==◌,
  if◌then◌else◌,
}
use mit_6_5840_2024_lab.Raft.Types.{Codec, Raft}
use mit_6_5840_2024_lab.Raft.Durable.{IsDurable}
use mit_6_5840_2024_lab.Raft.Votes.{Vote, Casts, Kept}

abbrev pub add : Option Vote → List Vote → List Vote
add none vs = vs
add (some v) vs = v ∷ vs

-- The newest vote of a term is the vote that the peer remembers; older terms are over.
abbrev pub IsPast : {C B : Type 0} → Raft C B → Vote → Type 0
IsPast rf v =
    (v.term < rf.current_term) ⊎ ((v.term ≡ rf.current_term) × (rf.voted_for ≡ some v.candidate))

abbrev pub IsSingle : List Vote → Type 0
IsSingle [] = Unit {0}
IsSingle (v ∷ vs) = All (λ (w : Vote). w.term ≡ v.term → w.candidate ≡ v.candidate) vs × IsSingle vs

pub record Ledger {C B : Type 0} ⦃codec : Codec C B⦄ (rf : Raft C B) (vs : List Vote) : Type 0 where
  pub past : All (IsPast rf) vs
  pub single : IsSingle vs
  pub durable : IsDurable rf

abbrev pub has_vote : ℕ → ℕ → List Vote → Bool
has_vote t c [] = false
has_vote t c (v ∷ vs) = if v.term == t && v.candidate == c then true else has_vote t c vs

module _ {C B : Type 0} ⦃codec : Codec C B⦄ {rf rf' : Raft C B} {vote : Option Vote}
    (k : Kept rf vote rf') where
  All-IsPast : (vs : List Vote) → All (IsPast rf) vs → All (IsPast rf') vs
  All-IsPast [] h = tt
  All-IsPast (v ∷ vs) h = (ground (arith, k.stays v.candidate), All-IsPast vs h.1)

module _ {C B : Type 0} (rf : Raft C B) (v : Vote) (casts : Casts (some v) rf) where
  agree :
      (vs : List Vote)
      → All (IsPast rf) vs
      → All (λ (w : Vote). w.term ≡ v.term → w.candidate ≡ v.candidate) vs
  agree [] h = tt
  agree (w ∷ vs) h = (ground arith, agree vs h.1)

  IsPast-cast : IsPast rf v
  IsPast-cast = ground arith

-- A step keeps the ledger, with the vote that it gives on top.
pub Kept-Ledger :
    {C B : Type 0} ⦃codec : Codec C B⦄ {rf rf' : Raft C B} (vote : Option Vote) (vs : List Vote)
    → Kept rf vote rf'
    → Ledger rf vs
    → Ledger rf' (add vote vs)
Kept-Ledger none vs k l = record {
  past = All-IsPast k vs l.past;
  single = l.single;
  durable = k.durable;
}
Kept-Ledger {rf' = rf'} (some v) vs k l = record {
  past = (IsPast-cast rf' v k.casts, All-IsPast k vs l.past);
  single = (agree rf' v k.casts vs (All-IsPast k vs l.past), l.single);
  durable = k.durable;
}

has_vote-All :
    (t c d : ℕ) (v : Vote) (vs : List Vote)
    → All (λ (w : Vote). w.term ≡ v.term → w.candidate ≡ v.candidate) vs
    → v.term ≡ t
    → v.candidate ≡ c
    → has_vote t d vs ≡ true
    → d ≡ c
has_vote-All t c d v [] h e f g = absurd (cc)
has_vote-All t c d v (w ∷ vs) h e f g = ground (arith, has_vote-All t c d v vs h.1 e f)

-- One vote to a term.
pub has_vote_unique :
    (t c d : ℕ) (vs : List Vote)
    → IsSingle vs
    → has_vote t c vs ≡ true
    → has_vote t d vs ≡ true
    → c ≡ d
has_vote_unique t c d [] s p q = absurd (cc)
has_vote_unique t c d (v ∷ vs) s p q =
    ground (
      arith,
      has_vote_unique t c d vs s.1,
      has_vote-All t c d v vs s.0,
      has_vote-All t d c v vs s.0,
    )

pub has_vote-add :
    (t c : ℕ) (vote : Option Vote) (vs : List Vote)
    → has_vote t c vs ≡ true
    → has_vote t c (add vote vs) ≡ true
has_vote-add t c none vs h = h
has_vote-add t c (some v) vs h = ground arith

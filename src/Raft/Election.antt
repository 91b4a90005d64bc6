-- ===== src/Raft/Election.antt =====
-- A cluster of peers over an unreliable network, and its leaders.
use mit_6_5840_2024_lab.Common.{
  ℕ, zero, suc, ◌+◌, ◌/◌, ◌≤◌, ◌<◌, ◌≡◌, subst, true, false, Option, none, some, List, [], arith,
  ◌&&◌, ◌||◌, Bool, ltb, ◌==◌, if◌then◌else◌, Bool-cases, inl, inr,
}
use mit_6_5840_2024_lab.Raft.Types.{Codec, Raft, is_leader, Persister}
use mit_6_5840_2024_lab.Raft.Persist.{fresh}
use mit_6_5840_2024_lab.Raft.Vote.{win_election}
use mit_6_5840_2024_lab.Raft.Votes.{Vote, Move, Move-Keeps, win_election-Kept}
use mit_6_5840_2024_lab.Raft.Votes.Ledger.{
  add, has_vote, Ledger, Kept-Ledger, has_vote_unique, has_vote-add,
}

abbrev pub update {ℓ} : {A : Type ℓ} → (ℕ → A) → ℕ → A → ℕ → A
update f i a j = if i == j then a else f j

-- How many of the first `n` peers have voted for `c` in term `t`.
abbrev pub tally : (ℕ → List Vote) → ℕ → ℕ → ℕ → ℕ
tally votes t c zero = 0
tally votes t c (suc n) = (if has_vote t c (votes n) then 1 else 0) + tally votes t c n

-- Beside the peers: the votes that each has given, and whether it has left the term of its last win
-- for a later one while it went on to lead.
pub record Cluster (C B : Type 0) : Type 0 where
  pub peer : ℕ → Raft C B
  pub votes : ℕ → List Vote
  pub overran : ℕ → Bool

-- The step from `rf` to `rf'` takes a leader to a later term, in which it goes on to lead.
abbrev pub overruns : {C B : Type 0} → Raft C B → Raft C B → Bool
overruns rf rf' = is_leader rf.state && is_leader rf'.state && ltb rf.current_term rf'.current_term

-- The cluster after a step of peer `i` to `rf'`, which gives `vote`.
abbrev pub acted : {C B : Type 0} → Cluster C B → ℕ → Raft C B → Option Vote → Cluster C B
acted s i rf' vote = record {
  peer = update s.peer i rf';
  votes = update s.votes i (add vote (s.votes i));
  overran = update s.overran i (overruns (s.peer i) rf' || s.overran i);
}

-- The cluster after a win of peer `i`.
abbrev pub elected_at : {C B : Type 0} → Cluster C B → ℕ → Raft C B → Cluster C B
elected_at s i rf' = record {
  peer = update s.peer i rf';
  votes = s.votes;
  overran = update s.overran i false;
}

module _ {C B : Type 0} ⦃codec : Codec C B⦄ (n : ℕ) where
  -- A step of peer `i`. Every ballot that wins an election is a vote that some peer has given, each
  -- peer's once, in the term that the candidate is still in.
  pub data Step (s : Cluster C B) (s' : Cluster C B) : Type 0 where
    acts :
        (i : ℕ) (rf' : Raft C B) (vote : Option Vote)
        → i < n
        → Move (s.peer i) vote rf'
        → s' ≡ acted s i rf' vote
        → Step s s'
    elects :
        (i : ℕ) (rf' : Raft C B) (ballots : ℕ)
        → i < n
        → win_election (s.peer i) ballots ≡ some rf'
        → ballots ≤ tally s.votes (s.peer i).current_term (s.peer i).me n
        → s' ≡ elected_at s i rf'
        → Step s s'

  -- `Make` on `n` empty persisters.
  abbrev pub initial : (ℕ → Persister B) → Cluster C B
  initial persisters = record {
    peer = λ i. fresh n i (persisters i) 0;
    votes = λ i. [];
    overran = λ i. false;
  }

  pub data Reach : Cluster C B → Type 0 where
    begins :
        (persisters : ℕ → Persister B)
        → ((i : ℕ) → codec.size (persisters i).raftstate ≡ 0)
        → Reach (initial persisters)
    next : {s s' : Cluster C B} → Reach s → Step s s' → Reach s'

  -- A peer's ledger is right, and if it leads in the term of its win, a majority has voted for it.
  pub record PeerInv (s : Cluster C B) (i : ℕ) : Type 0 where
    pub ledger : Ledger (s.peer i) (s.votes i)
    pub peers : (s.peer i).peers ≡ n
    pub me : (s.peer i).me ≡ i
    pub elected :
        is_leader (s.peer i).state ≡ true
        → s.overran i ≡ false
        → n / 2 + 1 ≤ tally s.votes (s.peer i).current_term i n

tally_mono :
    (votes votes' : ℕ → List Vote) (t c n : ℕ)
    → ((j : ℕ) → has_vote t c (votes j) ≡ true → has_vote t c (votes' j) ≡ true)
    → tally votes t c n ≤ tally votes' t c n
tally_mono votes votes' t c zero h = omega arith
tally_mono votes votes' t c (suc n) h = ground (arith, h n, tally_mono votes votes' t c n h)

tally-update :
    {C B : Type 0} (s : Cluster C B) (i : ℕ) (vote : Option Vote) (t c n : ℕ)
    → tally s.votes t c n ≤ tally (update s.votes i (add vote (s.votes i))) t c n
tally-update s i vote t c n =
    tally_mono s.votes (update s.votes i (add vote (s.votes i))) t c n
      (λ j h. ground (arith, has_vote-add t c vote (s.votes i)))

win_election-majority :
    {C B : Type 0} ⦃codec : Codec C B⦄ (rf rf' : Raft C B) (ballots : ℕ)
    → win_election rf ballots ≡ some rf'
    → (rf.peers / 2 + 1 ≤ ballots) × (rf'.current_term ≡ rf.current_term)
unfolding win_election
win_election-majority rf rf' ballots e = ground arith

-- Two majorities share a peer.
quorum :
    (votes : ℕ → List Vote) (t c d n : ℕ)
    → n < tally votes t c n + tally votes t d n
    → (v : ℕ) × (v < n) × (has_vote t c (votes v) ≡ true) × (has_vote t d (votes v) ≡ true)
quorum votes t c d zero h = absurd (omega arith)
quorum votes t c d (suc n) h =
    elim (Bool-cases (has_vote t c (votes n) && has_vote t d (votes n))) [
      | inl both ↦ (n, omega arith, ground arith, ground arith)
      | inr not_both ↦
          let (v, lt, p, q) = quorum votes t c d n (ground arith) in (v, omega arith, p, q)
    ]

module _ {C B : Type 0} ⦃codec : Codec C B⦄ (n : ℕ) where
  -- A step of another peer keeps `i`'s part: the votes only become more.
  PeerInv-other :
      (s : Cluster C B) (i j : ℕ) (rf' : Raft C B) (vote : Option Vote)
      → (i == j) ≡ false
      → PeerInv n s j
      → PeerInv n (acted s i rf' vote) j
  PeerInv-other s i j rf' vote ne inv =
      ground (arith, tally-update s i vote (s.peer j).current_term j n, inv)

  PeerInv-acts :
      (s : Cluster C B) (i : ℕ) (rf' : Raft C B) (vote : Option Vote)
      → Move (s.peer i) vote rf'
      → PeerInv n s i
      → PeerInv n (acted s i rf' vote) i
  PeerInv-acts s i rf' vote mv inv =
      let k = Move-Keeps inv.ledger.durable mv in
      let l = Kept-Ledger vote (s.votes i) k.kept inv.ledger in
      ground (arith, tally-update s i vote (s.peer i).current_term i n)

  PeerInv-elects :
      (s : Cluster C B) (i : ℕ) (rf' : Raft C B) (ballots : ℕ)
      → win_election (s.peer i) ballots ≡ some rf'
      → ballots ≤ tally s.votes (s.peer i).current_term (s.peer i).me n
      → PeerInv n s i
      → PeerInv n (elected_at s i rf') i
  PeerInv-elects s i rf' ballots e b inv =
      let k = win_election-Kept (s.peer i) inv.ledger.durable ballots rf' e in
      let l = Kept-Ledger none (s.votes i) k inv.ledger in
      ground (arith, win_election-majority (s.peer i) rf' ballots e)

  Step-PeerInv :
      (s s' : Cluster C B)
      → ((j : ℕ) → j < n → PeerInv n s j)
      → Step n s s'
      → (j : ℕ) → j < n
      → PeerInv n s' j
  Step-PeerInv s s' inv (acts i rf' vote lt mv e) j h = rw e (elim (Bool-cases (i == j)) [
    | inl same ↦
        let ij : i ≡ j = ground arith in
        subst (PeerInv n (acted s i rf' vote)) ij (PeerInv-acts s i rf' vote mv (inv i lt))
    | inr other ↦ PeerInv-other s i j rf' vote other (inv j h)
  ])
  Step-PeerInv s s' inv (elects i rf' ballots lt w b e) j h = rw e (elim (Bool-cases (i == j)) [
    | inl same ↦
        let ij : i ≡ j = ground arith in
        subst (PeerInv n (elected_at s i rf')) ij (PeerInv-elects s i rf' ballots w b (inv i lt))
    | inr other ↦ let p = inv j h in ground arith
  ])

  PeerInv-initial :
      (persisters : ℕ → Persister B)
      → ((i : ℕ) → codec.size (persisters i).raftstate ≡ 0)
      → (j : ℕ) → PeerInv {C = C} n (initial n persisters) j
  unfolding fresh
  PeerInv-initial persisters empty j = ground (arith, empty j)

  Reach-PeerInv : (s : Cluster C B) → Reach n s → (j : ℕ) → j < n → PeerInv n s j
  Reach-PeerInv s (begins persisters empty) j h = PeerInv-initial persisters empty j
  Reach-PeerInv s (next {s = r} reach step) j h = Step-PeerInv r s (Reach-PeerInv r reach) step j h

  -- In a cluster of `n` peers that starts with empty persisters and takes any steps of `Step`
  -- (handlers with any arguments, timeouts, elections begun in any state, restarts, and wins whose
  -- ballots are votes given in the winner's current term), two peers that lead in the same term are
  -- one peer, unless one of them has gone to a later term since its last win while it led, which only
  -- an election does that `ticker` starts and that begins after an earlier one was won.
  pub election_safety :
      (s : Cluster C B)
      → Reach n s
      → (i j : ℕ) → i < n
      → j < n
      → is_leader (s.peer i).state ≡ true
      → is_leader (s.peer j).state ≡ true
      → s.overran i ≡ false
      → s.overran j ≡ false
      → (s.peer i).current_term ≡ (s.peer j).current_term
      → i ≡ j
  election_safety s r i j hi hj li lj oi oj same =
      let pi = Reach-PeerInv s r i hi in
      let pj = Reach-PeerInv s r j hj in
      let t = (s.peer i).current_term in
      let qj = rw (← same) at (pj.elected lj oj) in
      let (v, lt, a, b) = quorum s.votes t i j n (omega (arith, pi.elected li oi, qj)) in
      has_vote_unique t i j (s.votes v) (Reach-PeerInv s r v lt).ledger.single a b

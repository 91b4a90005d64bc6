-- ===== src/Raft/Durable.antt =====
-- What the persister holds: the values that the peer would restart with.
use mit_6_5840_2024_lab.Common.{
  ℕ, true, ◌≡◌, refl, ◌⊎◌, inl, inr, Option, none, some, arith, Returns,
}
use mit_6_5840_2024_lab.Raft.Types.{Codec, Raft, is_leader}
use mit_6_5840_2024_lab.Raft.Persist.{
  saved_state, vote_code, vote_of, fresh, read_persist, start_server, make,
}

vote_of-vote_code : (v : Option ℕ) → vote_of (vote_code v) ≡ v
vote_of-vote_code none = refl
vote_of-vote_code (some v) = refl

module _ {C B : Type 0} ⦃codec : Codec C B⦄ where
  -- The persister is up to date.
  abbrev pub IsPersisted : Raft C B → Type 0
  IsPersisted rf =
      (rf.persister.raftstate ≡ codec.encode (saved_state rf))
      × (rf.persister.snapshot ≡ rf.snapshot)

  -- Nothing was saved yet, and there is nothing that would have to be.
  abbrev pub IsUnsaved : Raft C B → Type 0
  IsUnsaved rf =
      (codec.size rf.persister.raftstate ≡ 0) × (rf.current_term ≡ 1) × (rf.voted_for ≡ none)

  abbrev pub IsDurable : Raft C B → Type 0
  IsDurable rf = IsPersisted rf ⊎ IsUnsaved rf

  -- What a restart brings back.
  pub record Restored (rf rf' : Raft C B) : Type 0 where
    pub term : rf'.current_term ≡ rf.current_term
    pub vote : rf'.voted_for ≡ rf.voted_for
    pub log : rf'.log ≡ rf.log
    pub state : rf'.state ≡ rf.state
    pub snapshot : rf'.snapshot ≡ rf.snapshot
    pub snapshot_index : rf'.snapshot_index ≡ rf.snapshot_index
    pub snapshot_term : rf'.snapshot_term ≡ rf.snapshot_term
    pub applied : rf'.last_applied ≡ rf.log.first.index
    pub persister : rf'.persister ≡ rf.persister

  -- A peer whose persister is up to date restarts from it with the term, vote, log, state and
  -- snapshot that it had, and with everything after the snapshot yet to be applied.
  pub make-Restored :
      (rf : Raft C B) (peers me now : ℕ)
      → IsPersisted rf
      → Returns (Restored rf) (make peers me rf.persister now)
  unfolding make read_persist start_server fresh
  make-Restored rf peers me now p = rw p.0 (
      ground (
        arith,
        codec.size-encode (saved_state rf),
        codec.decode-encode (saved_state rf),
        vote_of-vote_code rf.voted_for,
      ))

  pub record AfterRestart (rf : Raft C B) (peers me : ℕ) (rf' : Raft C B) : Type 0 where
    pub durable : IsDurable rf'
    pub term : rf'.current_term ≡ rf.current_term
    pub vote : rf'.voted_for ≡ rf.voted_for
    pub leads : is_leader rf'.state ≡ true → is_leader rf.state ≡ true
    pub peers_same : rf'.peers ≡ peers
    pub me_same : rf'.me ≡ me

  -- A peer stays durable over a restart, also if it had nothing to save.
  pub make-IsDurable :
      (rf : Raft C B) (peers me now : ℕ)
      → IsDurable rf
      → Returns (AfterRestart rf peers me) (make peers me rf.persister now)
  unfolding make read_persist start_server fresh
  make-IsDurable rf peers me now (inl p) = rw p.0 (
      ground (
        arith,
        codec.size-encode (saved_state rf),
        codec.decode-encode (saved_state rf),
        vote_of-vote_code rf.voted_for,
      ))
  make-IsDurable rf peers me now (inr u) = ground arith

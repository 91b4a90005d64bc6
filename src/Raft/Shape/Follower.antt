-- ===== src/Raft/Shape/Follower.antt =====
-- The follower's handlers neither panic nor reach `log.Fatalf`, and keep the shape of the log.
use mit_6_5840_2024_lab.Common.{
  ℕ, suc, ◌-◌, true, false, ltb, if◌then◌else◌, ◌≤◌, ◌<◌, ◌≡◌, none, some, arith, get_elem?, take,
  length-take, inl, inr, ◌⊎◌, Option-cases, drop-get_elem?, get_elem?-bound, Returns,
}
use mit_6_5840_2024_lab.Raft.Types.{follower, LogEntry, Codec, Raft, entries, last_entry}
use mit_6_5840_2024_lab.Raft.Index.{base, global_log_len}
use mit_6_5840_2024_lab.Raft.Append.{
  AppendEntriesArgs, append_entries, InstallSnapshotArgs, install_snapshot, has_included, log_after,
  filler, synchronize, fix_package, follow,
}
use native.Mathlib.Decide.{dec_le}
use mit_6_5840_2024_lab.Raft.Index.Local.{
  sub_ℕ-neg, slice_from-local, local_index-pos, slice_to-local,
}
use mit_6_5840_2024_lab.Raft.Vote.{RequestVoteArgs, RequestVoteReply, request_vote}
use mit_6_5840_2024_lab.Raft.Persist.{persist}
use mit_6_5840_2024_lab.Raft.Shape.Lists.{
  Contiguous, Contiguous-append, Contiguous-take, Contiguous-drop, IsValid,
}

module _ {C B : Type 0} where
  -- The candidate's log ends with a later term, or with the same one and is no shorter.
  abbrev pub UpToDate : Raft C B → RequestVoteArgs → Type 0
  UpToDate rf args =
      ((last_entry rf.log).term < args.last_log_term)
      ⊎ (((last_entry rf.log).term ≡ args.last_log_term)
          × (global_log_len rf ≤ args.last_log_index))

  -- The peer may vote for the candidate in the request's term.
  abbrev pub MayVote : Raft C B → RequestVoteArgs → Type 0
  MayVote rf args =
      (rf.current_term < args.term)
      ⊎ ((rf.current_term ≡ args.term)
          × ((rf.voted_for ≡ none) ⊎ (rf.voted_for ≡ some args.candidate_id)))

  -- What a vote needs and what it leaves behind, and what no answer changes.
  pub record Voted (rf : Raft C B) (args : RequestVoteArgs) (now : ℕ)
      (r : Raft C B × RequestVoteReply) : Type 0 where
    pub needs : r.1.vote_granted ≡ true → UpToDate rf args × MayVote rf args
    pub given : UpToDate rf args × MayVote rf args → r.1.vote_granted ≡ true
    pub term :
        r.0.current_term ≡ (if ltb rf.current_term args.term then args.term else rf.current_term)
    pub voted : r.1.vote_granted ≡ true → r.0.voted_for ≡ some args.candidate_id
    pub follows : r.1.vote_granted ≡ true → (r.0.state ≡ follower) × (r.0.last_heart_beat ≡ now)
    pub refused :
        r.1.vote_granted ≡ false
        → args.term ≤ rf.current_term
        → (r.0.voted_for ≡ rf.voted_for) × (r.0.state ≡ rf.state)
    pub log : r.0.log ≡ rf.log

module _ {C B : Type 0} ⦃codec : Codec C B⦄ where
  -- `RequestVote` returns for every request, never by its `log.Fatalf`. The vote is granted if and
  -- only if the candidate's log is up to date and the request's term is higher than the peer's, or
  -- the same with the vote still free or already the candidate's. The peer's term becomes the larger
  -- of the two. With the vote it is a follower, has voted for the candidate, and its timeout starts
  -- anew; a refusal without a higher term leaves vote and state as they are. The log stays.
  pub request_vote-Voted :
      (rf : Raft C B) (args : RequestVoteArgs) (now : ℕ)
      → Returns (Voted rf args now) (request_vote rf args now)
  unfolding request_vote
  request_vote-Voted rf args now = ground arith

module _ {C B : Type 0} ⦃codec : Codec C B⦄ where
  fix_package-IsValid :
      (rf : Raft C B) (args : AppendEntriesArgs C)
      → IsValid rf
      → Contiguous (suc args.prev_log_index) args.new_entries
      → args.prev_log_index < global_log_len rf - 1
      → args.prev_log_index ≡ rf.last_applied
      → Returns (λ r. IsValid r.0) (fix_package rf args)
  unfolding fix_package
  fix_package-IsValid rf args v c lt e =
      rw (slice_to-local rf rf.last_applied v.applied (omega arith)) (
        ground (
          arith,
          Contiguous-take (suc (base rf)) (rf.last_applied - base rf) rf.log.rest v.consecutive,
          Contiguous-append (suc (base rf)) (suc args.prev_log_index)
              (take (rf.last_applied - base rf) rf.log.rest) args.new_entries,
          length-take (rf.last_applied - base rf) rf.log.rest,
        ))

  synchronize-IsValid :
      (rf : Raft C B) (args : AppendEntriesArgs C)
      → IsValid rf
      → Contiguous (suc args.prev_log_index) args.new_entries
      → Returns (λ r. IsValid r.0) (synchronize rf args)
  unfolding synchronize persist
  synchronize-IsValid rf args v c = ground (
    arith,
    fix_package-IsValid rf args v c,
    Contiguous-append (suc (base rf)) (suc args.prev_log_index) rf.log.rest args.new_entries,
  )

  pub follow-IsValid :
      (rf : Raft C B) (args : AppendEntriesArgs C) (now : ℕ)
      → IsValid rf
      → IsValid (follow rf args now)
  unfolding follow
  follow-IsValid rf args now v = ground arith

  -- At a well-formed peer, `AppendEntries` with entries that carry consecutive indices from
  -- `PrevLogIndex + 1` on returns, and keeps the peer well-formed.
  pub append_entries-IsValid :
      (rf : Raft C B) (args : AppendEntriesArgs C) (now : ℕ)
      → IsValid rf
      → Contiguous (suc args.prev_log_index) args.new_entries
      → Returns (λ r. IsValid r.0) (append_entries rf args now)
  unfolding append_entries
  append_entries-IsValid rf args now v c =
      ground (arith, synchronize-IsValid (follow rf args now) args (follow-IsValid rf args now v) c)

  log_after-shape :
      (rf : Raft C B) (args : InstallSnapshotArgs B)
      → IsValid rf
      → Returns
          (λ log. (log.first ≡ filler args) × Contiguous (suc args.last_included_internal) log.rest)
          (log_after rf args)
  unfolding log_after
  log_after-shape rf args v = elim (dec_le (base rf) args.last_included_internal) [
    | yes low ↦
        within low
          (Option-cases (get_elem? (entries rf.log) (args.last_included_internal - base rf)))
    | no high ↦ rw (sub_ℕ-neg args.last_included_internal (base rf) (omega arith)) (ground arith)
  ]
    where
      k : ℕ
      k = args.last_included_internal - base rf

      within :
          base rf ≤ args.last_included_internal
          → (get_elem? (entries rf.log) k ≡ none)
            ⊎ ((e : LogEntry C) × (get_elem? (entries rf.log) k ≡ some e))
          → Returns
              (λ log.
                (log.first ≡ filler args) × Contiguous (suc args.last_included_internal) log.rest)
              (log_after rf args)
      within low (inl e) =
          rw (local_index-pos rf args.last_included_internal low, e, has_included) (ground arith)
      within low (inr (x, e)) =
          rw
            (
              slice_from-local rf args.last_included_internal low
                  (omega (arith, get_elem?-bound (entries rf.log) k e)),
              drop-get_elem? (entries rf.log) k e,
            )
            (ground (
              arith,
              Contiguous-drop (suc (base rf)) (suc args.last_included_internal) k rf.log.rest,
            ))

  -- At a well-formed peer, `InstallSnapshot` returns for every request, and keeps the peer
  -- well-formed.
  pub install_snapshot-IsValid :
      (rf : Raft C B) (args : InstallSnapshotArgs B)
      → IsValid rf
      → Returns (λ r. IsValid r.0) (install_snapshot rf args)
  unfolding install_snapshot
  install_snapshot-IsValid rf args v = ground (arith, log_after-shape rf args v)

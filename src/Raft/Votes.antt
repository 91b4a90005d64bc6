-- ===== src/Raft/Votes.antt =====
-- Every step of a peer, restarts included, and what it does to the peer's term and vote.
pub mod Ledger
use mit_6_5840_2024_lab.Common.{
  ℕ, zero, suc, ◌+◌, Option-cases, ◌≤◌, ◌<◌, ◌≡◌, refl, ◌⊎◌, inl, inr, Bool, true, false, Option,
  none, some, List, [], ◌∷◌, arith, All, Returns, Returns-some, if◌then◌else◌,
}
use mit_6_5840_2024_lab.Raft.Types.{LogEntry, Codec, Raft, is_leader}
use mit_6_5840_2024_lab.Raft.Persist.{saved_state, persist, kill, make, take_snapshot}
use mit_6_5840_2024_lab.Raft.Vote.{
  RequestVoteArgs, RequestVoteReply, request_vote, election_timeout_step, start_election,
  win_election,
}
use mit_6_5840_2024_lab.Raft.Append.{
  AppendEntriesArgs, AppendEntriesReply, append_entries, synchronize, fix_package, follow,
  InstallSnapshotArgs, InstallSnapshotReply, install_snapshot, log_after,
}
use mit_6_5840_2024_lab.Raft.Leader.{
  Started, Outcome, retry, start, append_command, handle_success, handle_failed_reply,
  handle_install_reply, commit_check,
}
use mit_6_5840_2024_lab.Raft.Apply.{ready, enqueue_entry, enqueue_entries, deliver}
use mit_6_5840_2024_lab.Raft.Durable.{
  IsPersisted, IsUnsaved, IsDurable, AfterRestart, make-IsDurable,
}

-- A vote that was given, by the peer whose steps are looked at.
pub record Vote : Type 0 where
  pub term : ℕ
  pub candidate : ℕ

abbrev pub vote_cast : RequestVoteArgs → RequestVoteReply → Option Vote
vote_cast args reply =
    if reply.vote_granted
    then some (record { term = args.term; candidate = args.candidate_id })
    else none

-- What a step keeps, where `vote` is the vote that it gives.
abbrev pub Casts : {C B : Type 0} → Option Vote → Raft C B → Type 0
Casts none rf = Unit {0}
Casts (some v) rf = (v.term ≡ rf.current_term) × (rf.voted_for ≡ some v.candidate)

pub record Kept {C B : Type 0} ⦃codec : Codec C B⦄ (rf : Raft C B) (vote : Option Vote)
    (rf' : Raft C B) : Type 0 where
  pub grows : rf.current_term ≤ rf'.current_term
  pub stays :
      (c : ℕ) → rf.current_term ≡ rf'.current_term → rf.voted_for ≡ some c → rf'.voted_for ≡ some c
  pub casts : Casts vote rf'
  pub durable : IsDurable rf'
  pub peers : rf'.peers ≡ rf.peers
  pub me : rf'.me ≡ rf.me

-- The peer has begun an election, with its vote for itself.
abbrev pub Began : {C B : Type 0} → Raft C B → Option Vote → Raft C B → Type 0
Began rf vote rf' =
    (rf'.current_term ≡ rf.current_term + 1)
    × (vote ≡ some (record { term = rf'.current_term; candidate = rf.me }))

-- A step that wins no election makes no leader either. A leader that stays one stays in its term,
-- unless it begins an election: `election` does not look at the state.
pub record Keeps {C B : Type 0} ⦃codec : Codec C B⦄ (rf : Raft C B) (vote : Option Vote)
    (rf' : Raft C B) : Type 0 where
  pub kept : Kept rf vote rf'
  pub leads :
      is_leader rf'.state ≡ true
      → (is_leader rf.state ≡ true) × ((rf'.current_term ≡ rf.current_term) ⊎ Began rf vote rf')

module _ {C B : Type 0} ⦃codec : Codec C B⦄ where
  -- One step of a peer that wins no election: a handler, a round of one of its loops, or a crash
  -- and a restart. `stands` begins an election, whatever the state has become since `ticker` set it.
  pub data Move (rf : Raft C B) (vote : Option Vote) (rf' : Raft C B) : Type 0 where
    votes :
        (args : RequestVoteArgs) (now : ℕ) (reply : RequestVoteReply)
        → request_vote rf args now ≡ some (rf', reply)
        → vote ≡ vote_cast args reply
        → Move rf vote rf'
    appends :
        (args : AppendEntriesArgs C) (now : ℕ) (reply : AppendEntriesReply)
        → append_entries rf args now ≡ some (rf', reply)
        → vote ≡ none
        → Move rf vote rf'
    installs :
        (args : InstallSnapshotArgs B) (reply : InstallSnapshotReply)
        → install_snapshot rf args ≡ some (rf', reply)
        → vote ≡ none
        → Move rf vote rf'
    snapshots :
        (index : ℕ) (snapshot : B)
        → take_snapshot rf index snapshot ≡ some rf'
        → vote ≡ none
        → Move rf vote rf'
    starts :
        (command : C) (r : Started)
        → start rf command ≡ some (rf', r)
        → vote ≡ none
        → Move rf vote rf'
    times_out :
        (elapsed now : ℕ)
        → election_timeout_step rf elapsed now ≡ some rf'
        → vote ≡ none
        → Move rf vote rf'
    stands :
        rf' ≡ (start_election rf).0
        → vote ≡ some (record { term = (start_election rf).1.term; candidate = rf.me })
        → Move rf vote rf'
    succeeds :
        (server next : ℕ) → rf' ≡ handle_success rf server next → vote ≡ none → Move rf vote rf'
    fails :
        (server : ℕ) (args : AppendEntriesArgs C) (reply : AppendEntriesReply)
        → handle_failed_reply rf server args reply ≡ some (retry rf')
        → vote ≡ none
        → Move rf vote rf'
    sends :
        (server : ℕ) (args : InstallSnapshotArgs B) (reply : InstallSnapshotReply)
        → handle_install_reply rf server args reply ≡ retry rf'
        → vote ≡ none
        → Move rf vote rf'
    commits : commit_check rf ≡ some rf' → vote ≡ none → Move rf vote rf'
    applies : (fuel : ℕ) → enqueue_entries fuel rf ≡ some rf' → vote ≡ none → Move rf vote rf'
    delivers : deliver rf ≡ some rf' → vote ≡ none → Move rf vote rf'
    dies : rf' ≡ kill rf → vote ≡ none → Move rf vote rf'
    restarts :
        (now : ℕ) → make rf.peers rf.me rf.persister now ≡ some rf' → vote ≡ none → Move rf vote rf'

module _ {C B : Type 0} ⦃codec : Codec C B⦄ where
  -- What the persister should hold, and what it holds, are the same in both.
  record Untouched (rf rf' : Raft C B) : Type 0 where
    saved : saved_state rf' ≡ saved_state rf
    term : rf'.current_term ≡ rf.current_term
    vote : rf'.voted_for ≡ rf.voted_for
    persister : rf'.persister ≡ rf.persister
    state : rf'.state ≡ rf.state
    peers : rf'.peers ≡ rf.peers
    me : rf'.me ≡ rf.me
    snapshot : rf'.snapshot ≡ rf.snapshot

  Untouched-Keeps : {rf rf' : Raft C B} → IsDurable rf → Untouched rf rf' → Keeps rf none rf'
  Untouched-Keeps d u = ground arith

  enqueue_entry-Untouched :
      (rf rf' : Raft C B) (i : ℕ) (e : LogEntry C)
      → enqueue_entry rf i e ≡ some rf'
      → Untouched rf rf'
  unfolding enqueue_entry
  enqueue_entry-Untouched rf rf' i e eq = ground arith

  Untouched-trans :
      {rf rf1 rf2 : Raft C B} → Untouched rf rf1 → Untouched rf1 rf2 → Untouched rf rf2
  Untouched-trans u w = ground arith

  enqueue_entries-Untouched :
      (fuel : ℕ) (rf rf' : Raft C B) → enqueue_entries fuel rf ≡ some rf' → Untouched rf rf'
  unfolding enqueue_entries
  enqueue_entries-Untouched zero rf rf' eq = absurd (cc)
  enqueue_entries-Untouched (suc fuel) rf rf' eq =
      elim (Option-cases (ready rf (rf.last_applied + 1))) [
        | inl n ↦ let q = rw (n, enqueue_entries) at eq in ground arith
        | inr (e, r) ↦
            let q = rw (r, enqueue_entries) at eq in
            elim (Option-cases (enqueue_entry rf (rf.last_applied + 1) e)) [
              | inl n ↦ let w = rw n at q in ground arith
              | inr (rf1, r1) ↦
                  let w = rw r1 at q in
                  Untouched-trans (enqueue_entry-Untouched rf rf1 _ e r1)
                    (enqueue_entries-Untouched fuel rf1 rf' w)
            ]
      ]

module _ {C B : Type 0} ⦃codec : Codec C B⦄ (rf : Raft C B) (d : IsDurable rf) where
  request_vote-Keeps :
      (args : RequestVoteArgs) (now : ℕ)
      → Returns (λ r. Keeps rf (vote_cast args r.1) r.0) (request_vote rf args now)
  unfolding request_vote
  request_vote-Keeps args now = ground arith

  append_entries-Keeps :
      (args : AppendEntriesArgs C) (now : ℕ) (rf' : Raft C B) (reply : AppendEntriesReply)
      → append_entries rf args now ≡ some (rf', reply)
      → Keeps rf none rf'
  unfolding append_entries synchronize fix_package follow
  append_entries-Keeps args now rf' reply e = ground arith

  install_snapshot-Keeps :
      (args : InstallSnapshotArgs B) (rf' : Raft C B) (reply : InstallSnapshotReply)
      → install_snapshot rf args ≡ some (rf', reply)
      → Keeps rf none rf'
  unfolding install_snapshot
  install_snapshot-Keeps args rf' reply e = ground arith

  take_snapshot-Keeps :
      (index : ℕ) (snapshot : B) (rf' : Raft C B)
      → take_snapshot rf index snapshot ≡ some rf'
      → Keeps rf none rf'
  unfolding take_snapshot
  take_snapshot-Keeps index snapshot rf' e = ground arith

  start-Keeps :
      (command : C) (rf' : Raft C B) (r : Started)
      → start rf command ≡ some (rf', r)
      → Keeps rf none rf'
  unfolding start append_command
  start-Keeps command rf' r e = ground arith

  election_timeout_step-Keeps :
      (elapsed now : ℕ) (rf' : Raft C B)
      → election_timeout_step rf elapsed now ≡ some rf'
      → Keeps rf none rf'
  unfolding election_timeout_step
  election_timeout_step-Keeps elapsed now rf' e = ground arith

  start_election-Keeps :
      Keeps rf
        (some (record { term = (start_election rf).1.term; candidate = rf.me }))
        (start_election rf).0
  unfolding start_election
  start_election-Keeps = ground arith

  pub win_election-Kept :
      (ballots : ℕ) (rf' : Raft C B) → win_election rf ballots ≡ some rf' → Kept rf none rf'
  unfolding win_election
  win_election-Kept ballots rf' e = ground arith

  commit_check-Keeps : (rf' : Raft C B) → commit_check rf ≡ some rf' → Keeps rf none rf'
  unfolding commit_check
  commit_check-Keeps rf' e = ground arith

  deliver-Keeps : (rf' : Raft C B) → deliver rf ≡ some rf' → Keeps rf none rf'
  unfolding deliver
  deliver-Keeps rf' e = ground arith

  handle_success-Keeps : (server next : ℕ) → Keeps rf none (handle_success rf server next)
  unfolding handle_success
  handle_success-Keeps server next = ground arith

  handle_failed_reply-Keeps :
      (server : ℕ) (args : AppendEntriesArgs C) (reply : AppendEntriesReply) (rf' : Raft C B)
      → handle_failed_reply rf server args reply ≡ some (retry rf')
      → Keeps rf none rf'
  unfolding handle_failed_reply
  handle_failed_reply-Keeps server args reply rf' e = ground arith

  handle_install_reply-Keeps :
      (server : ℕ) (args : InstallSnapshotArgs B) (reply : InstallSnapshotReply) (rf' : Raft C B)
      → handle_install_reply rf server args reply ≡ retry rf'
      → Keeps rf none rf'
  unfolding handle_install_reply
  handle_install_reply-Keeps server args reply rf' e = ground arith

  make-Keeps :
      (now : ℕ) (rf' : Raft C B)
      → make rf.peers rf.me rf.persister now ≡ some rf'
      → Keeps rf none rf'
  make-Keeps now rf' e =
      let h =
        Returns-some (AfterRestart rf rf.peers rf.me) (make rf.peers rf.me rf.persister now)
          (make-IsDurable rf rf.peers rf.me now d) e in
      ground arith

  kill-Keeps : Keeps rf none (kill rf)
  unfolding kill
  kill-Keeps = ground arith

-- Every step of a durable peer but a win keeps its term from falling and its vote of a term from
-- changing, casts at most the vote that it then has, leaves the peer durable, and makes no leader. A
-- peer that leads before and after the step stays in its term, unless the step begins an election,
-- with the peer's vote for itself in the next term.
pub Move-Keeps :
    {C B : Type 0} ⦃codec : Codec C B⦄ {rf rf' : Raft C B} {vote : Option Vote}
    → IsDurable rf
    → Move rf vote rf'
    → Keeps rf vote rf'
Move-Keeps {rf = rf} {rf' = rf'} d (votes args now reply e w) = rw w (
    Returns-some (λ r. Keeps rf (vote_cast args r.1) r.0) (request_vote rf args now)
      (request_vote-Keeps rf d args now) e)
Move-Keeps {rf = rf} {rf' = rf'} d (appends args now reply e w) =
    rw w (append_entries-Keeps rf d args now rf' reply e)
Move-Keeps {rf = rf} {rf' = rf'} d (installs args reply e w) =
    rw w (install_snapshot-Keeps rf d args rf' reply e)
Move-Keeps {rf = rf} {rf' = rf'} d (snapshots index snapshot e w) =
    rw w (take_snapshot-Keeps rf d index snapshot rf' e)
Move-Keeps {rf = rf} {rf' = rf'} d (starts command r e w) = rw w (start-Keeps rf d command rf' r e)
Move-Keeps {rf = rf} {rf' = rf'} d (times_out elapsed now e w) =
    rw w (election_timeout_step-Keeps rf d elapsed now rf' e)
Move-Keeps {rf = rf} d (stands e w) = rw (e, w) (start_election-Keeps rf d)
Move-Keeps {rf = rf} d (succeeds server next e w) =
    rw (e, w) (handle_success-Keeps rf d server next)
Move-Keeps {rf = rf} {rf' = rf'} d (fails server args reply e w) =
    rw w (handle_failed_reply-Keeps rf d server args reply rf' e)
Move-Keeps {rf = rf} {rf' = rf'} d (sends server args reply e w) =
    rw w (handle_install_reply-Keeps rf d server args reply rf' e)
Move-Keeps {rf = rf} {rf' = rf'} d (commits e w) = rw w (commit_check-Keeps rf d rf' e)
Move-Keeps {rf = rf} {rf' = rf'} d (applies fuel e w) =
    rw w (Untouched-Keeps d (enqueue_entries-Untouched fuel rf rf' e))
Move-Keeps {rf = rf} {rf' = rf'} d (delivers e w) = rw w (deliver-Keeps rf d rf' e)
Move-Keeps {rf = rf} d (dies e w) = rw (e, w) (kill-Keeps rf d)
Move-Keeps {rf = rf} {rf' = rf'} d (restarts now e w) = rw w (make-Keeps rf d now rf' e)

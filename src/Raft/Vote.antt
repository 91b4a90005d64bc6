-- ===== src/Raft/Vote.antt =====
-- src/raft/raft.go: `RequestVote`, the election timeout of `ticker`, and `election`.
use mit_6_5840_2024_lab.Common.{
  ℕ, ◌+◌, ◌/◌, Bool, true, false, not, ◌&&◌, ◌||◌, Option, none, some, List, [], ◌∷◌, ltb, leb,
  ◌==◌, set, if◌then◌else◌,
}
use mit_6_5840_2024_lab.Raft.Types.{
  follower, candidate, leader, noop, Codec, Raft, is_leader, is_candidate, last_entry, append_log,
}
use mit_6_5840_2024_lab.Raft.Index.{global_log_len}
use mit_6_5840_2024_lab.Raft.Persist.{persist}

-- `Term`, `CandiateId`, `LastLogIndex` (the length of the candidate's log), `LastLogTerm`
pub record RequestVoteArgs : Type 0 where
  pub term : ℕ
  pub candidate_id : ℕ
  pub last_log_index : ℕ
  pub last_log_term : ℕ

pub record RequestVoteReply : Type 0 where
  pub term : ℕ
  pub vote_granted : Bool

-- `TM_ElectionTimeout`, in milliseconds
abbrev pub election_timeout : ℕ
election_timeout = 200

abbrev pub is_other : Option ℕ → ℕ → Bool
is_other none c = false
is_other (some v) c = not (v == c)

abbrev pub is_free_for : Option ℕ → ℕ → Bool
is_free_for none c = true
is_free_for (some v) c = v == c

-- One goroutine's use of a reply: the ballots, and whether the election is cancelled.
unfoldable pub count_ballot : ℕ → RequestVoteReply → ℕ × Bool → ℕ × Bool
count_ballot voted_for_term reply (ballots, cancelled) =
    if not reply.vote_granted && ltb voted_for_term reply.term
    then (ballots, true)
    else if reply.vote_granted
    then (ballots + 1, cancelled)
    else (ballots, cancelled)

-- `for i := range rf.peers`, all but `me`
unfoldable pub fill_others : List ℕ → ℕ → ℕ → ℕ → List ℕ
fill_others [] i me v = []
fill_others (x ∷ xs) i me v = (if i == me then x else v) ∷ fill_others xs (i + 1) me v

module _ {C B : Type 0} ⦃codec : Codec C B⦄ where
  abbrev pub is_up_to_date : Raft C B → RequestVoteArgs → Bool
  is_up_to_date rf args =
      ltb (last_entry rf.log).term args.last_log_term
      || (args.last_log_term == (last_entry rf.log).term
          && leb (global_log_len rf) args.last_log_index)

  -- A higher term in a request: to that term, with no vote.
  abbrev step_down : Raft C B → RequestVoteArgs → Raft C B
  step_down rf args =
      if ltb rf.current_term args.term
      then persist (record rf { current_term = args.term; voted_for = none; state = follower })
      else rf

  abbrev grant : Raft C B → RequestVoteArgs → ℕ → Raft C B
  grant rf args now = persist (record rf {
    current_term = args.term;
    voted_for = some args.candidate_id;
    last_heart_beat = now;
    state = follower;
  })

  -- The last branch is `log.Fatalf`.
  abbrev decide :
      Raft C B
      → RequestVoteArgs
      → ℕ
      → RequestVoteReply
      → Bool
      → Option (Raft C B × RequestVoteReply)
  decide rf args now reply up_to_date =
      if not up_to_date
      then some (rf, reply)
      else if is_other rf.voted_for args.candidate_id
      then some (rf, reply)
      else if is_free_for rf.voted_for args.candidate_id && up_to_date
      then some (grant rf args now, record { term = args.term; vote_granted = true })
      else none

  unfoldable pub request_vote :
      Raft C B → RequestVoteArgs → ℕ → Option (Raft C B × RequestVoteReply)
  unfolding persist
  request_vote rf args now =
      let reply : RequestVoteReply = record { term = rf.current_term; vote_granted = false } in
      if ltb args.term rf.current_term
      then some (rf, reply)
      else decide (step_down rf args) args now reply (is_up_to_date rf args)

  -- The branch of `ticker` that starts an election: `elapsed` is `time.Since(rf.lastHeartBeat)`.
  unfoldable pub election_timeout_step : Raft C B → ℕ → ℕ → Option (Raft C B)
  unfolding persist
  election_timeout_step rf elapsed now =
      if not (is_leader rf.state) && ltb election_timeout elapsed
      then some (record (persist (record rf { state = candidate })) { last_heart_beat = now })
      else none

  -- `election`, first part: the vote for itself, and the request that goes to every other peer.
  unfoldable pub start_election : Raft C B → Raft C B × RequestVoteArgs
  unfolding persist
  start_election rf =
      let rf1 : Raft C B =
        persist (record rf { voted_for = some rf.me; current_term = rf.current_term + 1 }) in
      (
        rf1,
        record {
          term = rf1.current_term;
          candidate_id = rf1.me;
          last_log_index = global_log_len rf1;
          last_log_term = (last_entry rf1.log).term;
        },
      )

  -- `election`, second part: with a majority, become the leader and add a no-op entry.
  unfoldable pub win_election : Raft C B → ℕ → Option (Raft C B)
  unfolding persist
  win_election rf ballots =
      if is_candidate rf.state && leb (rf.peers / 2 + 1) ballots
      then (let next : ℕ = global_log_len rf in
          some (
            persist (record rf {
              state = leader;
              log = append_log rf.log (
                  record { term = rf.current_term; type = noop; index = next; command = none }
                  ∷ []);
              next_index = set (fill_others rf.next_index 0 rf.me next) rf.me (next + 1);
              match_index = set (fill_others rf.match_index 0 rf.me 0) rf.me next;
            })))
      else none

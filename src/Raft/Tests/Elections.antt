-- ===== src/Raft/Tests/Elections.antt =====
-- A run of a cluster of three peers, and an election that a leader begins.
use mit_6_5840_2024_lab.Common.{ℕ, ◌≡◌, refl, true, false, Option, none, some, arith, inr}
use mit_6_5840_2024_lab.Raft.Types.{Persister, Raft, is_leader}
use mit_6_5840_2024_lab.Raft.Persist.{fresh}
use mit_6_5840_2024_lab.Raft.Vote.{
  request_vote, start_election, win_election, election_timeout_step,
}
use mit_6_5840_2024_lab.Raft.Votes.{Vote, Keeps, Move-Keeps}
use mit_6_5840_2024_lab.Raft.Election.{Cluster, Reach, initial, election_safety}
use mit_6_5840_2024_lab.Raft.Vote.{RequestVoteReply}
use mit_6_5840_2024_lab.Raft.Election.{begins, next, acts, elects, acted, elected_at, overruns}
use mit_6_5840_2024_lab.Raft.Votes.{votes, times_out, stands}
use mit_6_5840_2024_lab.Raft.Tests.{Bytes, plain, result}

-- A cluster of three in which peer 1 votes for peer 0, which wins.
abbrev Group : Type 0
Group = Cluster ℕ Bytes

abbrev disks : ℕ → Persister Bytes
disks i = record { raftstate = none; snapshot = none }

abbrev start_up : Group
start_up = initial 3 disks

abbrev timed_out : Group
timed_out =
    acted start_up 0 (result (election_timeout_step (start_up.peer 0) 300 9) (start_up.peer 0)) none

abbrev own_vote : Option Vote
own_vote = some (record { term = 2; candidate = 0 })

abbrev asking : Group
asking = acted timed_out 0 (start_election (timed_out.peer 0)).0 own_vote

abbrev answered : Raft ℕ Bytes × RequestVoteReply
answered =
    result (request_vote (asking.peer 1) (start_election (timed_out.peer 0)).1 12)
      (asking.peer 1, record { term = 0; vote_granted = false })

abbrev voted : Group
voted = acted asking 1 answered.0 own_vote

abbrev led : Group
led = elected_at voted 0 (result (win_election (voted.peer 0) 2) (voted.peer 0))

timed_out-Reach : Reach 3 timed_out
unfolding fresh election_timeout_step
timed_out-Reach =
    next (begins disks (λ i. refl)) (acts 0 _ none (omega arith) (times_out 300 9 refl refl) refl)

asking-Reach : Reach 3 asking
unfolding fresh election_timeout_step start_election
asking-Reach = next timed_out-Reach (acts 0 _ own_vote (omega arith) (stands refl refl) refl)

voted-Reach : Reach 3 voted
unfolding fresh election_timeout_step start_election request_vote
voted-Reach = next asking-Reach (
    acts 1 answered.0 own_vote (omega arith)
      (votes (start_election (timed_out.peer 0)).1 12 answered.1 refl refl) refl)

led-Reach : Reach 3 led
unfolding fresh election_timeout_step start_election request_vote win_election
led-Reach = next voted-Reach (elects 0 _ 2 (omega arith) refl (omega arith) refl)

led-leader : is_leader (led.peer 0).state ≡ true
unfolding fresh election_timeout_step start_election request_vote win_election
led-leader = refl

election_safety_example : ◌≡◌ {A = ℕ} 0 0
election_safety_example =
    election_safety 3 led led-Reach 0 0 (omega arith) (omega arith) led-leader led-leader refl refl
      refl

Move-Keeps_example : Keeps (asking.peer 1) own_vote answered.0
unfolding fresh election_timeout_step start_election request_vote
Move-Keeps_example =
    Move-Keeps (inr (refl, refl, refl))
      (votes (start_election (timed_out.peer 0)).1 12 answered.1 refl refl)

-- The second election of peer 0, which `ticker` has started before the first was won.
abbrev again : Raft ℕ Bytes
again = (start_election (led.peer 0)).0

again-overruns : overruns (led.peer 0) again ≡ true
unfolding fresh election_timeout_step start_election request_vote win_election
again-overruns = refl

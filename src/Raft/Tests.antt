-- ===== src/Raft/Tests.antt =====
-- The theorems about a peer, and its handlers, at concrete peers.
mod Elections
use mit_6_5840_2024_lab.Common.{
  ℕ, ◌-◌, ◌≤◌, ◌<◌, ◌≡◌, refl, true, false, Option, none, some, List, [], ◌∷◌, ◌++◌, arith, Returns,
}
use mit_6_5840_2024_lab.Common.Int.{pos}
use mit_6_5840_2024_lab.Raft.Types.{
  candidate, leader, normal, noop, LogEntry, ApplyMsg, Saved, Codec, Raft, entries, is_leader,
}
use mit_6_5840_2024_lab.Raft.Index.{base, global_log_len, internal_index, external_index}
use mit_6_5840_2024_lab.Raft.Persist.{persist, make, take_snapshot}
use mit_6_5840_2024_lab.Raft.Vote.{request_vote, win_election}
use mit_6_5840_2024_lab.Raft.Append.{
  AppendEntriesArgs, AppendEntriesReply, append_entries, synchronize, fix_package, follow,
  is_prefix, InstallSnapshotArgs, install_snapshot,
}
use mit_6_5840_2024_lab.Raft.Leader.{start, sync_args, commit_check}
use mit_6_5840_2024_lab.Raft.Apply.{enqueue_entries}
use mit_6_5840_2024_lab.Raft.Shape.{IsValid}
use mit_6_5840_2024_lab.Raft.Shape.Follower.{append_entries-IsValid, install_snapshot-IsValid}
use mit_6_5840_2024_lab.Raft.Replication.{
  TermAt, entry_at, append_entries-success, append_entries-keeps_applied,
}
use mit_6_5840_2024_lab.Raft.Durable.{Restored, make-Restored}
use mit_6_5840_2024_lab.Raft.Index.Numbering.{
  internal_index-external_index, external_index-internal_index,
}
use mit_6_5840_2024_lab.Raft.Shape.Follower.{Voted, request_vote-Voted}
use mit_6_5840_2024_lab.Raft.Shape.Snapshot.{take_snapshot-numbering}
use mit_6_5840_2024_lab.Raft.Shape.Leading.{start-appends}
use mit_6_5840_2024_lab.Raft.Leader.Commit.{Majority, commit_check-safe}
use mit_6_5840_2024_lab.Raft.Leader.Sync.{WellFormed, sync_args-WellFormed}
use mit_6_5840_2024_lab.Raft.Apply.{command_msg}
use mit_6_5840_2024_lab.Raft.Apply.Order.{enqueue_entries-messages}
use mit_6_5840_2024_lab.Raft.Durable.{IsPersisted}
use mit_6_5840_2024_lab.Raft.Vote.{RequestVoteArgs}
use mit_6_5840_2024_lab.Raft.Election.{next}
use mit_6_5840_2024_lab.Common.{◌⊎◌}

-- The simplest bytes: what was encoded, or nothing.
abbrev pub Bytes : Type 0
Bytes = Option (Saved ℕ)

abbrev byte_count : Bytes → ℕ
byte_count none = 0
byte_count (some s) = 1

instance abbrev pub plain : Codec ℕ Bytes
plain = record {
  encode = λ s. some s;
  decode = λ b. b;
  size = byte_count;
  empty = none;
  decode-encode = λ s. refl;
  size-encode = λ s. omega arith;
  size-empty = refl;
}

abbrev entry : ℕ → ℕ → ℕ → LogEntry ℕ
entry t i c = record { term = t; type = normal; index = i; command = some c }

abbrev blank : ℕ → ℕ → LogEntry ℕ
blank t i = record { term = t; type = noop; index = i; command = none }

-- Peer 0 of three: a snapshot up to internal index 3 (external 2), then three entries.
abbrev sample : Raft ℕ Bytes
sample = record {
  me = 0;
  peers = 3;
  persister = record { raftstate = none; snapshot = none };
  dead = false;
  state = leader;
  current_term = 2;
  log = record { first = blank 1 3; rest = entry 1 4 10 ∷ blank 2 5 ∷ entry 2 6 11 ∷ [] };
  voted_for = some 0;
  snapshot = none;
  snapshot_index = 2;
  snapshot_term = 1;
  commit_index = 4;
  last_applied = 4;
  next_index = 7 ∷ 5 ∷ 9 ∷ [];
  match_index = 6 ∷ 6 ∷ 0 ∷ [];
  last_heart_beat = 0;
  apply_queue = [];
  apply_ch = [];
}

sample-IsValid : IsValid sample
sample-IsValid = record {
  starts = refl;
  consecutive = (refl, (refl, (refl, tt)));
  applied = omega arith;
  follows = refl;
  matches = refl;
  own = omega arith;
}

-- A replacement of term 3 that replaces all that was not applied.
abbrev replacement : AppendEntriesArgs ℕ
replacement = record {
  term = 3;
  leader_id = 1;
  prev_log_index = 4;
  prev_log_term = 1;
  new_entries = entry 3 5 20 ∷ entry 3 6 21 ∷ [];
  leader_commit = 5;
}

append_entries-IsValid_example : Returns (λ r. IsValid r.0) (append_entries sample replacement 9)
append_entries-IsValid_example =
    append_entries-IsValid sample replacement 9 sample-IsValid (refl, (refl, tt))

append_entries-keeps_applied_example :
    Returns
      (λ r. (entry_at r.0 4 ≡ entry_at sample 4) × (r.0.last_applied ≡ 4))
      (append_entries sample replacement 9)
append_entries-keeps_applied_example =
    append_entries-keeps_applied sample replacement 9 4 sample-IsValid (omega arith) (omega arith)
      (omega arith)

disk_IsPersisted : IsPersisted (persist sample)
unfolding persist
disk_IsPersisted = (refl, refl)

-- A candidate of the next term with a log as long as the sample's.
abbrev candidacy : RequestVoteArgs
candidacy = record { term = 3; candidate_id = 2; last_log_index = 7; last_log_term = 2 }

request_vote-Voted_example : Returns (Voted sample candidacy 9) (request_vote sample candidacy 9)
request_vote-Voted_example = request_vote-Voted sample candidacy 9

-- A snapshot that ends inside the sample's log.
abbrev newer : InstallSnapshotArgs Bytes
newer = record {
  term = 2;
  leader_id = 1;
  last_included_internal = 5;
  last_included_index = 3;
  last_included_term = 2;
  contents = none;
}

install_snapshot-IsValid_example : Returns (λ r. IsValid r.0) (install_snapshot sample newer)
install_snapshot-IsValid_example = install_snapshot-IsValid sample newer sample-IsValid

-- All entries of the sample are committed, and more.
abbrev committed : Raft ℕ Bytes
committed = record sample { commit_index = 9 }

committed-IsValid : IsValid committed
committed-IsValid = record {
  starts = refl;
  consecutive = (refl, (refl, (refl, tt)));
  applied = omega arith;
  follows = refl;
  matches = refl;
  own = omega arith;
}

abbrev one_message : List (ApplyMsg ℕ Bytes)
one_message = command_msg (some 11) 4 ∷ []

sample_external : external_index sample 4 ≡ some 3
unfolding external_index
sample_external = refl

enqueue_entries-messages_example :
    enqueue_entries 7 committed
    ≡ some (record committed { last_applied = 6; apply_queue = one_message })
unfolding external_index
enqueue_entries-messages_example =
    enqueue_entries-messages 7 committed 3 committed-IsValid (omega arith) sample_external
      (omega arith)

make-Restored_example : Returns (Restored (persist sample)) (make 3 0 (persist sample).persister 7)
make-Restored_example = make-Restored (persist sample) 3 0 7 disk_IsPersisted

sync_args-WellFormed_example : Returns (WellFormed sample) (sync_args sample 1)
sync_args-WellFormed_example = sync_args-WellFormed sample 1 sample-IsValid (omega arith)

abbrev refusal : AppendEntriesReply
refusal = record {
  term = 2;
  prev_log_index = 4;
  prev_log_term = 1;
  last_applied = 4;
  success = false;
}

commit_check-safe_example :
    Returns
      (λ rf'.
        (rf' ≡ record sample { commit_index = rf'.commit_index })
        × ((rf'.commit_index ≡ 4)
            ⊎ ((4 < rf'.commit_index)
                × Majority sample rf'.commit_index
                × ((rf'.commit_index < 3) ⊎ TermAt sample rf'.commit_index 2))))
      (commit_check sample)
commit_check-safe_example = commit_check-safe sample

sample_last : external_index sample (global_log_len sample - 1) ≡ some 4
unfolding external_index
sample_last = refl

internal_index-external_index_example : internal_index sample 3 ≡ 4
internal_index-external_index_example =
    internal_index-external_index sample sample-IsValid 4 (omega arith) refl refl sample_external

external_index-internal_index_example :
    (base sample < internal_index sample 4)
    × (internal_index sample 4 < global_log_len sample)
    × (external_index sample (internal_index sample 4) ≡ some 4)
external_index-internal_index_example =
    external_index-internal_index sample sample-IsValid 4 4 sample_last (omega arith) (omega arith)

-- The value of a run that is known to return.
abbrev pub result : {A : Type 0} → Option A → A → A
result none default = default
result (some x) default = x

abbrev replaced : Raft ℕ Bytes × AppendEntriesReply
replaced = result (append_entries sample replacement 9) (sample, refusal)

replaced-run : append_entries sample replacement 9 ≡ some replaced
unfolding append_entries synchronize fix_package follow is_prefix persist
replaced-run = refl

replaced-success : replaced.1.success ≡ true
unfolding append_entries synchronize fix_package follow is_prefix persist
replaced-success = refl

append_entries-success_example : TermAt replaced.0 5 3
append_entries-success_example =
    append_entries-success sample replacement 9 0 sample-IsValid replaced-run replaced-success refl

abbrev standing : Raft ℕ Bytes
standing = record sample { state = candidate }

abbrev winner : Raft ℕ Bytes
winner = result (win_election standing 2) sample

winner-run : win_election standing 2 ≡ some winner
unfolding win_election
winner-run = refl

start-appends_example :
    Returns
      (λ r.
        IsValid r.0
        × (r.1 ≡ record { index = pos 5; term = pos 2; is_leader = true })
        × (entries r.0.log ≡ entries sample.log ++ entry 2 7 30 ∷ []))
      (start sample 30)
start-appends_example = start-appends sample 30 4 sample-IsValid refl sample_last

take_snapshot-numbering_example :
    Returns
      (λ rf'.
        IsValid rf'
        × (global_log_len rf' ≡ 7)
        × ((j : ℕ) → base rf' ≤ j → j < 7 → external_index rf' j ≡ external_index sample j))
      (take_snapshot sample 3 none)
take_snapshot-numbering_example =
    take_snapshot-numbering sample sample-IsValid 3 none 4 sample_last (omega arith) (omega arith)

-- ===== src/Raft/Types.antt =====
-- src/raft/raft.go, enum.go, util.go and persister.go: the data of one Raft peer.
-- `C` is the type of commands (`interface{}`), `B` that of byte strings (`[]byte`).
use mit_6_5840_2024_lab.Common.{
  ℕ, ◌<◌, ◌≡◌, Bool, true, false, Option, none, some, List, [], ◌∷◌, ◌++◌, length,
}
use mit_6_5840_2024_lab.Common.Int.{ℤ}

-- enum.go
pub data RaftState : Type 0 where
  follower candidate leader : RaftState

pub data LogType : Type 0 where
  normal noop : LogType

pub record LogEntry (C : Type 0) : Type 0 where
  pub term : ℕ
  pub type : LogType
  pub index : ℕ
  pub command : Option C

-- The slice `log`, which every peer keeps non-empty: each assignment to it is read by `log[0]`
-- under the same lock, so an empty result is a panic of that handler.
pub record Log (C : Type 0) : Type 0 where
  pub first : LogEntry C
  pub rest : List (LogEntry C)

pub record ApplyMsg (C B : Type 0) : Type 0 where
  pub command_valid : Bool
  pub command : Option C
  pub command_index : ℕ
  pub snapshot_valid : Bool
  pub snapshot : B
  pub snapshot_term : ℕ
  pub snapshot_index : ℕ

-- The six values that `persist` encodes and `readPersist` decodes, in their order. The last is -1
-- for no vote.
pub record Saved (C : Type 0) : Type 0 where
  pub state : RaftState
  pub current_term : ℕ
  pub log : List (LogEntry C)
  pub snapshot_index : ℕ
  pub snapshot_term : ℕ
  pub vote : ℤ

-- labgob stands on encoding/gob, which is not part of the repository: what it is relied on for.
pub record Codec (C B : Type 0) : Type 0 where
  pub encode : Saved C → B
  pub decode : B → Option (Saved C)
  pub size : B → ℕ
  pub empty : B
  pub decode-encode : (s : Saved C) → decode (encode s) ≡ some s
  pub size-encode : (s : Saved C) → 0 < size (encode s)
  pub size-empty : size empty ≡ 0

-- persister.go
pub record Persister (B : Type 0) : Type 0 where
  pub raftstate : B
  pub snapshot : B

-- `Save`
unfoldable pub save : {B : Type 0} → Persister B → B → B → Persister B
save p raftstate snapshot = record { raftstate = raftstate; snapshot = snapshot }

-- Locks, condition variables and the goroutines themselves are not fields: a handler is one step
-- under `mu`. `apply_ch` is what has been sent on `applyCh`.
pub record Raft (C B : Type 0) : Type 0 where
  pub me : ℕ
  pub peers : ℕ
  pub persister : Persister B
  pub dead : Bool
  pub state : RaftState
  pub current_term : ℕ
  pub log : Log C
  pub voted_for : Option ℕ
  pub snapshot : B
  pub snapshot_index : ℕ
  pub snapshot_term : ℕ
  pub commit_index : ℕ
  pub last_applied : ℕ
  pub next_index : List ℕ
  pub match_index : List ℕ
  pub last_heart_beat : ℕ
  pub apply_queue : List (ApplyMsg C B)
  pub apply_ch : List (ApplyMsg C B)

abbrev pub is_noop : LogType → Bool
is_noop noop = true
is_noop normal = false

abbrev pub is_leader : RaftState → Bool
is_leader leader = true
is_leader _ = false

abbrev pub is_candidate : RaftState → Bool
is_candidate candidate = true
is_candidate _ = false

module _ {C : Type 0} where
  abbrev pub entries : Log C → List (LogEntry C)
  entries l = l.first ∷ l.rest

  -- A slice that is to be a log.
  abbrev pub of_list : List (LogEntry C) → Option (Log C)
  of_list [] = none
  of_list (e ∷ l) = some (record { first = e; rest = l })

  abbrev pub last_of : LogEntry C → List (LogEntry C) → LogEntry C
  last_of e [] = e
  last_of e (x ∷ l) = last_of x l

  -- `log[len(log)-1]`
  abbrev pub last_entry : Log C → LogEntry C
  last_entry l = last_of l.first l.rest

  -- `append(log, es...)`
  abbrev pub append_log : Log C → List (LogEntry C) → Log C
  append_log l es = record { first = l.first; rest = l.rest ++ es }

-- util.go: `ApplyQueue`
module _ {A : Type 0} where
  unfoldable pub enqueue : List A → A → List A
  enqueue queue val = queue ++ val ∷ []

  -- `none` is `(ApplyMsg{}, false)`.
  unfoldable pub dequeue : List A → Option (A × List A)
  dequeue [] = none
  dequeue (a ∷ queue) = some (a, queue)

  unfoldable pub queue_size : List A → ℕ
  queue_size queue = length queue

  unfoldable pub clean : List A → List A
  clean queue = []

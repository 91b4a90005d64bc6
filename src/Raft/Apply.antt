-- ===== src/Raft/Apply.antt =====
-- src/raft/raft.go: the two loops of `applyEntries`.
pub mod Order
use mit_6_5840_2024_lab.Common.{
  ℕ, zero, suc, ◌+◌, true, false, ◌&&◌, Option, none, some, ltb, leb, if◌then◌else◌, ◌>>=◌,
}
use mit_6_5840_2024_lab.Common.Int.{pos, ltb_ℤ}
use mit_6_5840_2024_lab.Raft.Types.{
  LogEntry, ApplyMsg, Codec, Raft, is_noop, entries, enqueue, dequeue,
}
use mit_6_5840_2024_lab.Raft.Index.{local_index, global_log_len, get_ℤ, external_index}

module _ {C B : Type 0} ⦃codec : Codec C B⦄ where
  abbrev pub command_msg : Option C → ℕ → ApplyMsg C B
  command_msg command index = record {
    command_valid = true;
    command = command;
    command_index = index;
    snapshot_valid = false;
    snapshot = codec.empty;
    snapshot_term = 0;
    snapshot_index = 0;
  }

  -- The entry that is applied next, if it is committed and in the log.
  unfoldable pub ready : Raft C B → ℕ → Option (LogEntry C)
  ready rf i =
      if leb i rf.commit_index && ltb i (global_log_len rf) && ltb_ℤ (pos 0) (local_index rf i)
      then get_ℤ (entries rf.log) (local_index rf i)
      else none

  -- One round of the enqueueing loop for the entry at `i`.
  unfoldable pub enqueue_entry : Raft C B → ℕ → LogEntry C → Option (Raft C B)
  unfolding external_index enqueue
  enqueue_entry rf i e = if is_noop e.type then some (record rf { last_applied = i }) else (do
    index ← external_index rf i
    some (record rf {
      apply_queue = enqueue rf.apply_queue (command_msg e.command index);
      last_applied = i;
    }))

  -- The enqueueing loop; `none` is a panic, or that the fuel ran out.
  unfoldable pub enqueue_entries : ℕ → Raft C B → Option (Raft C B)
  enqueue_entries zero rf = none
  enqueue_entries (suc fuel) rf = elim (ready rf (rf.last_applied + 1)) [
    | none ↦ some rf
    | some e ↦ elim (enqueue_entry rf (rf.last_applied + 1) e) [
      | none ↦ none
      | some rf1 ↦ enqueue_entries fuel rf1
    ]
  ]

  -- One round of the other goroutine's loop: a message goes to `applyCh`.
  unfoldable pub deliver : Raft C B → Option (Raft C B)
  unfolding dequeue enqueue
  deliver rf = do
    (msg, queue) ← dequeue rf.apply_queue
    some (record rf { apply_queue = queue; apply_ch = enqueue rf.apply_ch msg })

-- ===== src/Raft/Leader/Replies.antt =====
-- `handleFailedReply` covers every reply: it neither indexes outside the log nor reaches
-- `log.Fatalf`.
use mit_6_5840_2024_lab.Common.{
  ℕ, ◌+◌, ◌<◌, ◌≤◌, ◌≡◌, ◌≢◌, ◌⊎◌, ◌==◌, Bool, true, false, Option, none, some, if◌then◌else◌, set,
  Returns, get_elem?, ◌-◌,
}
use mit_6_5840_2024_lab.Raft.Types.{Raft, entries}
use mit_6_5840_2024_lab.Raft.Index.{base, global_log_len}
use mit_6_5840_2024_lab.Raft.Append.{AppendEntriesArgs, AppendEntriesReply}
use mit_6_5840_2024_lab.Raft.Leader.{
  Outcome, cancelled, retry, install, snapshot_args, needs_snapshot,
}

module _ {C B : Type 0} where
  -- The leader's log reaches the index, with an entry of the term there; or of another term.
  abbrev pub Agrees : Raft C B → ℕ → ℕ → Type 0
  Agrees rf i t = Returns (λ e. (t == e.term) ≡ true) (get_elem? (entries rf.log) (i - base rf))

  abbrev pub Differs : Raft C B → ℕ → ℕ → Type 0
  Differs rf i t = Returns (λ e. (t == e.term) ≡ false) (get_elem? (entries rf.log) (i - base rf))

  -- The leader can go on after the follower's last entry.
  abbrev pub Follows : Raft C B → AppendEntriesArgs C → AppendEntriesReply → Type 0
  Follows rf args reply =
      (base rf ≤ reply.prev_log_index)
      × (((reply.prev_log_term ≡ args.prev_log_term) × (reply.prev_log_index < args.prev_log_index))
          ⊎ ((reply.prev_log_index < global_log_len rf)
              × Agrees rf reply.prev_log_index reply.prev_log_term))

  -- The follower's last entry is not the leader's, or is past what the leader asked about.
  abbrev pub Deviates : Raft C B → AppendEntriesArgs C → AppendEntriesReply → Type 0
  Deviates rf args reply =
      (base rf ≤ reply.prev_log_index)
      × (base rf ≤ reply.last_applied + 1)
      × ((args.prev_log_index ≤ reply.prev_log_index)
          ⊎ (global_log_len rf ≤ reply.prev_log_index)
          ⊎ ((reply.prev_log_term ≢ args.prev_log_term)
              × Differs rf reply.prev_log_index reply.prev_log_term))

  -- What it means that cases 1 and 2 do not apply.
  abbrev Stops : Raft C B → AppendEntriesArgs C → AppendEntriesReply → Type 0
  Stops rf args reply =
      base rf ≤ reply.prev_log_index
      → reply.prev_log_index < args.prev_log_index
      → (reply.prev_log_term ≢ args.prev_log_term)
        × (reply.prev_log_index < global_log_len rf
            → Differs rf reply.prev_log_index reply.prev_log_term)

  -- When each outcome is chosen, and what it changes.
  abbrev pub Justified :
      Raft C B → ℕ → AppendEntriesArgs C → AppendEntriesReply → Outcome C B → Type 0
  Justified rf server args reply cancelled = rf.current_term < reply.term
  Justified rf server args reply (retry rf') =
      (reply.term ≤ rf.current_term)
      × ((Follows rf args reply
            × (rf'
                ≡ record rf { next_index = set rf.next_index server (reply.prev_log_index + 1) }))
          ⊎ (Deviates rf args reply
              × (rf'
                  ≡ record rf { next_index = set rf.next_index server (reply.last_applied + 1) })))
  Justified rf server args reply (install sent) =
      (reply.term ≤ rf.current_term)
      × (sent ≡ snapshot_args rf)
      × ((reply.prev_log_index < base rf) ⊎ (reply.last_applied + 1 < base rf))

  -- The choice between the cases, once their tests are computed.
  abbrev chosen : Raft C B → ℕ → AppendEntriesReply → Bool → Bool → Option (Outcome C B)
  chosen rf server reply continues fix =
      if continues
      then some
          (retry (record rf { next_index = set rf.next_index server (reply.prev_log_index + 1) }))
      else if fix
      then some
          (retry (record rf { next_index = set rf.next_index server (reply.last_applied + 1) }))
      else if needs_snapshot rf reply
      then some (install (snapshot_args rf))
      else none

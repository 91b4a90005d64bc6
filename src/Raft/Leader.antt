-- ===== src/Raft/Leader.antt =====
-- src/raft/raft.go: `Start`, `syncEntries`, `handleFailedReply` and `commitCheck`, the leader's
-- side of replication.
pub mod Replies
pub mod Commit
pub mod Sync
use mit_6_5840_2024_lab.Common.{
  ℕ, zero, suc, ◌+◌, ◌-◌, ◌/◌, Bool, true, false, not, ◌&&◌, ◌||◌, Option, none, some, List, [],
  ◌∷◌, ltb, leb, ◌==◌, get_elem?, get_or, set, if◌then◌else◌, ◌>>=◌,
}
use mit_6_5840_2024_lab.Common.Int.{ℤ, pos, negsuc, is_neg, ltb_ℤ}
use mit_6_5840_2024_lab.Raft.Types.{LogEntry, normal, Codec, Raft, is_leader, entries, append_log}
use mit_6_5840_2024_lab.Raft.Index.{
  base, local_index, global_index, global_log_len, get_ℤ, slice_from, external_index,
}
use mit_6_5840_2024_lab.Raft.Persist.{persist}
use mit_6_5840_2024_lab.Raft.Append.{
  AppendEntriesArgs, AppendEntriesReply, InstallSnapshotArgs, InstallSnapshotReply,
}

-- The three results of `Start`.
pub record Started : Type 0 where
  pub index : ℤ
  pub term : ℤ
  pub is_leader : Bool

-- What a goroutine of `syncEntries` does with a failed reply under the lock.
pub data Outcome (C B : Type 0) : Type 0 where
  cancelled : Outcome C B
  retry : Raft C B → Outcome C B
  install : InstallSnapshotArgs B → Outcome C B

-- `a || b` and `a && b` where evaluating `b` can panic
abbrev pub or_else : Bool → Option Bool → Option Bool
or_else true b = some true
or_else false b = b

abbrev pub and_then : Bool → Option Bool → Option Bool
and_then true b = b
and_then false b = some false

abbrev map_not : Option Bool → Option Bool
map_not none = none
map_not (some b) = some (not b)

-- The inner loop of `commitCheck`.
unfoldable pub count_ge : ℕ → List ℕ → ℕ
count_ge n [] = 0
count_ge n (x ∷ xs) = if leb n x then suc (count_ge n xs) else count_ge n xs

module _ {C B : Type 0} where
  -- `rf.log[rf.localIndex(i)].Term == t`
  abbrev pub term_at_is : Raft C B → ℕ → ℕ → Option Bool
  term_at_is rf i t = elim (get_ℤ (entries rf.log) (local_index rf i)) [
    | none ↦ none
    | some e ↦ some (t == e.term)
  ]

  -- The clamped `nextIndex[i]`.
  abbrev pub real_next_index : Raft C B → ℕ → ℕ
  real_next_index rf next =
      if ltb next (global_index rf 1)
      then global_index rf 1
      else if ltb (global_log_len rf) next
      then global_log_len rf
      else next

  -- What `syncEntries` sends to peer `i`.
  unfoldable pub sync_args : Raft C B → ℕ → Option (AppendEntriesArgs C)
  sync_args rf i = do
    next ← get_elem? rf.next_index i
    prev ← get_ℤ (entries rf.log) (local_index rf (real_next_index rf next - 1))
    tail ← slice_from (entries rf.log) (local_index rf (real_next_index rf next))
    some (record {
      term = rf.current_term;
      leader_id = rf.me;
      prev_log_index = real_next_index rf next - 1;
      prev_log_term = prev.term;
      new_entries = tail;
      leader_commit = rf.commit_index;
    })

  -- A reply with `Success`; `new_next_index` is the length of the log when the request was made.
  unfoldable pub handle_success : Raft C B → ℕ → ℕ → Raft C B
  handle_success rf server new_next_index = record rf {
    next_index = set rf.next_index server new_next_index;
    match_index =
        if leb (get_or rf.match_index server 0) (new_next_index - 1)
        then set rf.match_index server (new_next_index - 1)
        else rf.match_index;
  }

  -- Cases 1 and 2 of `handleFailedReply`.
  unfoldable pub continues_log : Raft C B → AppendEntriesArgs C → AppendEntriesReply → Option Bool
  continues_log rf args reply =
      and_then (ltb_ℤ (pos 0) (local_index rf (reply.prev_log_index + 1))) (
        or_else
          (reply.prev_log_term == args.prev_log_term
            && ltb reply.prev_log_index args.prev_log_index)
          (and_then
            (not (reply.prev_log_index == args.prev_log_index)
              && ltb reply.prev_log_index (global_log_len rf))
            (term_at_is rf reply.prev_log_index reply.prev_log_term)))

  -- Cases 3 and 4.
  unfoldable pub must_fix : Raft C B → AppendEntriesArgs C → AppendEntriesReply → Option Bool
  must_fix rf args reply =
      and_then
        (not (is_neg (local_index rf (reply.last_applied + 1)))
          && not (is_neg (local_index rf reply.prev_log_index)))
        (or_else
          (leb args.prev_log_index reply.prev_log_index
            || leb (global_log_len rf) reply.prev_log_index)
          (and_then (ltb reply.prev_log_index args.prev_log_index)
            (map_not (term_at_is rf reply.prev_log_index reply.prev_log_term))))

  -- Case 5.
  abbrev pub needs_snapshot : Raft C B → AppendEntriesReply → Bool
  needs_snapshot rf reply =
      is_neg (local_index rf (reply.prev_log_index + 1))
      || is_neg (local_index rf (reply.last_applied + 1))
      || is_neg (local_index rf reply.prev_log_index)

  abbrev pub snapshot_args : Raft C B → InstallSnapshotArgs B
  snapshot_args rf = record {
    term = rf.current_term;
    leader_id = rf.me;
    last_included_internal = base rf;
    last_included_index = rf.snapshot_index;
    last_included_term = rf.log.first.term;
    contents = rf.snapshot;
  }

  abbrev set_next : Raft C B → ℕ → ℕ → Raft C B
  set_next rf server next = record rf { next_index = set rf.next_index server next }

  -- `handleFailedReply` up to its call of `sendInstallSnapshot`. `none` is a panic or `log.Fatalf`.
  unfoldable pub handle_failed_reply :
      Raft C B → ℕ → AppendEntriesArgs C → AppendEntriesReply → Option (Outcome C B)
  handle_failed_reply rf server args reply =
      if ltb rf.current_term reply.term then some cancelled else (do
        continues ← continues_log rf args reply
        fix ← (if continues then some false else must_fix rf args reply)
        if continues
            then some (retry (set_next rf server (reply.prev_log_index + 1)))
            else if fix
            then some (retry (set_next rf server (reply.last_applied + 1)))
            else if needs_snapshot rf reply
            then some (install (snapshot_args rf))
            else none)

  -- The rest of it, once `InstallSnapshot` has been answered.
  unfoldable pub handle_install_reply :
      Raft C B → ℕ → InstallSnapshotArgs B → InstallSnapshotReply → Outcome C B
  handle_install_reply rf server args reply =
      if ltb rf.current_term reply.term
      then cancelled
      else retry (set_next rf server (args.last_included_index + 1))

  -- The outer loop of `commitCheck`: its result is `newCommitIndex` and `changed`.
  unfoldable pub commit_loop : ℕ → Raft C B → ℕ → ℕ → Bool → Option (ℕ × Bool)
  unfolding count_ge
  commit_loop zero rf n new_commit_index changed = none
  commit_loop (suc fuel) rf n new_commit_index changed =
      let later = commit_loop fuel rf (n + 1) n true in
      if ltb new_commit_index (global_log_len rf)
      then (if leb (rf.peers / 2 + 1) (count_ge n rf.match_index)
          then later
          else some (new_commit_index, changed))
      else some (new_commit_index, changed)

  unfoldable pub may_commit : Raft C B → ℕ → Bool → Option Bool
  may_commit rf new_commit_index changed = and_then changed (
      or_else (is_neg (local_index rf new_commit_index)) (
        and_then (ltb new_commit_index (global_log_len rf))
          (term_at_is rf new_commit_index rf.current_term)))

  -- One round of `commitCheck`.
  unfoldable pub commit_check : Raft C B → Option (Raft C B)
  commit_check rf = do
    (new_commit_index, changed) ←
        commit_loop (global_log_len rf + 2) rf (rf.commit_index + 1) (rf.commit_index + 1) false
    commit ← may_commit rf new_commit_index changed
    some (if commit then record rf { commit_index = new_commit_index } else rf)

module _ {C B : Type 0} ⦃codec : Codec C B⦄ where
  -- The leader's new entry, its own `nextIndex` and its own `matchIndex`.
  abbrev pub new_entry : Raft C B → C → LogEntry C
  new_entry rf command = record {
    term = rf.current_term;
    type = normal;
    index = global_log_len rf;
    command = some command;
  }

  unfoldable pub append_command : Raft C B → C → Raft C B
  unfolding persist
  append_command rf command =
      let rf1 : Raft C B =
        persist (record rf { log = append_log rf.log (new_entry rf command ∷ []) }) in
      record rf1 {
        next_index = set rf1.next_index rf1.me (global_log_len rf1);
        match_index = set rf1.match_index rf1.me (global_log_len rf1 - 1);
      }

  -- `Start(command)`; -1 stands for no index and no term.
  unfoldable pub start : Raft C B → C → Option (Raft C B × Started)
  start rf command =
      if not (is_leader rf.state)
      then some (rf, record { index = negsuc 0; term = negsuc 0; is_leader = false })
      else (do
        let rf1 = append_command rf command
        extern ← external_index rf1 (global_log_len rf1 - 1)
        some (rf1, record { index = pos extern; term = pos rf.current_term; is_leader = true }))

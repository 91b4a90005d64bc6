-- ===== src/Raft/Append.antt =====
-- src/raft/raft.go: `AppendEntries` and `InstallSnapshot`, the follower's two handlers.
use mit_6_5840_2024_lab.Common.{
  ℕ, ◌+◌, ◌-◌, Bool, true, false, not, ◌&&◌, ◌||◌, Option, none, some, List, [], ◌∷◌, ◌++◌, ltb,
  leb, ◌==◌, if◌then◌else◌, ◌>>=◌,
}
use mit_6_5840_2024_lab.Common.Int.{pos, is_neg, ltb_ℤ}
use mit_6_5840_2024_lab.Raft.Types.{
  follower, noop, LogEntry, Log, Codec, Raft, entries, of_list, last_entry, append_log, enqueue,
  clean,
}
use mit_6_5840_2024_lab.Raft.Index.{
  local_index, log_len, global_log_len, get_ℤ, slice_from, slice_to,
}
use mit_6_5840_2024_lab.Raft.Persist.{persist, snapshot_msg}

pub record AppendEntriesArgs (C : Type 0) : Type 0 where
  pub term : ℕ
  pub leader_id : ℕ
  pub prev_log_index : ℕ
  pub prev_log_term : ℕ
  pub new_entries : List (LogEntry C)
  pub leader_commit : ℕ

pub record AppendEntriesReply : Type 0 where
  pub term : ℕ
  pub success : Bool
  pub prev_log_index : ℕ
  pub prev_log_term : ℕ
  pub last_applied : ℕ

pub record InstallSnapshotArgs (B : Type 0) : Type 0 where
  pub term : ℕ
  pub leader_id : ℕ
  pub last_included_internal : ℕ
  pub last_included_index : ℕ
  pub last_included_term : ℕ
  pub contents : B

pub record InstallSnapshotReply : Type 0 where
  pub term : ℕ

module _ {C B : Type 0} where
  -- The loop of the prefix check: `i` is the global index of the first of the entries left. True
  -- when it leaves with `i == len(args.Entries)`, also by its `break` below the log's start.
  unfoldable pub is_prefix : Raft C B → List (LogEntry C) → ℕ → Bool
  is_prefix rf [] i = true
  is_prefix rf (e ∷ es) i =
      if not (ltb_ℤ (local_index rf i) (pos (log_len rf)))
      then false
      else if is_neg (local_index rf i)
      then true
      else (elim (get_ℤ (entries rf.log) (local_index rf i)) [
        | none ↦ false
        | some x ↦ if x.term == e.term then is_prefix rf es (i + 1) else false
      ])

module _ {C B : Type 0} ⦃codec : Codec C B⦄ where
  -- State synchronization, for a request that is not of an older term.
  unfoldable pub follow : Raft C B → AppendEntriesArgs C → ℕ → Raft C B
  unfolding persist
  follow rf args now =
      record (persist (record rf {
        voted_for = if ltb rf.current_term args.term then none else rf.voted_for;
        current_term = args.term;
        state = follower;
      })) { last_heart_beat = now }

  abbrev pub reply_of : Raft C B → Bool → AppendEntriesReply
  reply_of rf success = record {
    term = rf.current_term;
    success = success;
    prev_log_index = global_log_len rf - 1;
    prev_log_term = (last_entry rf.log).term;
    last_applied = rf.last_applied;
  }

  -- The new log is stored, and the leader's commit index taken over.
  abbrev pub store : Raft C B → Log C → ℕ → Raft C B
  store rf log leader_commit = record (persist (record rf { log = log })) {
    commit_index = leader_commit;
  }

  -- A package that starts at `lastApplied + 1`, inside the log.
  unfoldable pub fix_package :
      Raft C B → AppendEntriesArgs C → Option (Raft C B × AppendEntriesReply)
  unfolding persist
  fix_package rf args =
      if is_prefix rf args.new_entries (rf.last_applied + 1)
      then some (rf, reply_of rf true)
      else (do
        kept ← slice_to (entries rf.log) (local_index rf (rf.last_applied + 1))
        log ← of_list (kept ++ args.new_entries)
        some (store rf log args.leader_commit, reply_of rf true))

  -- Log synchronization. The last branch is `log.Fatalf`.
  unfoldable pub synchronize :
      Raft C B → AppendEntriesArgs C → Option (Raft C B × AppendEntriesReply)
  unfolding persist
  synchronize rf args =
      let prev_log_index : ℕ = global_log_len rf - 1 in
      let prev_log_term : ℕ = (last_entry rf.log).term in
      if prev_log_index == args.prev_log_index && prev_log_term == args.prev_log_term
      then some (store rf (append_log rf.log args.new_entries) args.leader_commit, reply_of rf true)
      else if ltb args.prev_log_index prev_log_index && args.prev_log_index == rf.last_applied
      then fix_package rf args
      else if not (prev_log_index == args.prev_log_index)
          || not (prev_log_term == args.prev_log_term)
      then some (rf, reply_of rf false)
      else none

  unfoldable pub append_entries :
      Raft C B → AppendEntriesArgs C → ℕ → Option (Raft C B × AppendEntriesReply)
  append_entries rf args now =
      if leb rf.current_term args.term
      then synchronize (follow rf args now) args
      else some (
        rf,
        record {
          term = rf.current_term;
          success = false;
          prev_log_index = 0;
          prev_log_term = 0;
          last_applied = 0;
        },
      )

  -- Figure 13, step 6: the entries after the snapshot are kept if the log has its last entry.
  abbrev pub has_included : Raft C B → InstallSnapshotArgs B → Bool
  has_included rf args =
      elim (get_ℤ (entries rf.log) (local_index rf args.last_included_internal)) [
        | none ↦ false
        | some x ↦ args.last_included_term == x.term
      ]

  abbrev pub filler : InstallSnapshotArgs B → LogEntry C
  filler args = record {
    term = args.last_included_term;
    type = noop;
    index = args.last_included_internal;
    command = none;
  }

  unfoldable pub log_after : Raft C B → InstallSnapshotArgs B → Option (Log C)
  log_after rf args =
      if has_included rf args
      then (do
        tail ← slice_from (entries rf.log) (local_index rf args.last_included_internal)
        log ← of_list tail
        some (record log { first = filler args }))
      else some (record { first = filler args; rest = [] })

  abbrev pub installed : Raft C B → InstallSnapshotArgs B → Log C → Raft C B
  installed rf args log =
      record (persist (record rf {
        log = log;
        state = follower;
        snapshot = args.contents;
        snapshot_index = args.last_included_index;
        snapshot_term = args.last_included_term;
      })) {
        last_applied = log.first.index;
        commit_index = log.first.index;
        apply_queue =
            enqueue (clean rf.apply_queue)
              (snapshot_msg args.contents args.last_included_index args.last_included_term);
      }

  unfoldable pub install_snapshot :
      Raft C B → InstallSnapshotArgs B → Option (Raft C B × InstallSnapshotReply)
  unfolding persist enqueue clean
  install_snapshot rf args =
      let reply : InstallSnapshotReply = record { term = rf.current_term } in
      if ltb args.term rf.current_term
      then some (rf, reply)
      else if ltb args.last_included_index rf.snapshot_index
      then some (rf, reply)
      else if args.last_included_index == rf.snapshot_index
      then some (rf, reply)
      else (do log ← log_after rf args; some (installed rf args log, reply))

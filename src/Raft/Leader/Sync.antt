-- ===== src/Raft/Leader/Sync.antt =====
-- What `syncEntries` sends.
use mit_6_5840_2024_lab.Common.{
  ℕ, suc, ◌+◌, ◌-◌, ◌<◌, ◌≤◌, ◌≡◌, refl, arith, Returns, some, drop, get_elem?-in_range, ◌>>=◌,
}
use mit_6_5840_2024_lab.Raft.Types.{Raft, entries}
use mit_6_5840_2024_lab.Raft.Index.{base, global_log_len, local_index, get_ℤ, slice_from}
use mit_6_5840_2024_lab.Raft.Index.Local.{slice_from-local, get_ℤ-local}
use mit_6_5840_2024_lab.Raft.Shape.{IsValid, Contiguous, Contiguous-drop}
use mit_6_5840_2024_lab.Raft.Replication.{TermAt}
use mit_6_5840_2024_lab.Raft.Append.{AppendEntriesArgs}
use mit_6_5840_2024_lab.Raft.Leader.{sync_args, real_next_index}

module _ {C B : Type 0} where
  pub record WellFormed (rf : Raft C B) (args : AppendEntriesArgs C) : Type 0 where
    pub current : args.term ≡ rf.current_term
    pub previous : TermAt rf args.prev_log_index args.prev_log_term
    pub rest : args.new_entries ≡ drop (suc args.prev_log_index - base rf) (entries rf.log)
    pub consecutive : Contiguous (suc args.prev_log_index) args.new_entries

  real_next_index-bounds :
      (rf : Raft C B) (next : ℕ)
      → (base rf + 1 ≤ real_next_index rf next) × (real_next_index rf next ≤ global_log_len rf)
  real_next_index-bounds rf next = ground arith

  sent-WellFormed :
      (rf : Raft C B)
      → IsValid rf
      → (real : ℕ) → (base rf + 1 ≤ real) × (real ≤ global_log_len rf)
      → Returns (WellFormed rf) (do
        prev ← get_ℤ (entries rf.log) (local_index rf (real - 1))
        tail ← slice_from (entries rf.log) (local_index rf real)
        some (record {
          term = rf.current_term;
          leader_id = rf.me;
          prev_log_index = real - 1;
          prev_log_term = prev.term;
          new_entries = tail;
          leader_commit = rf.commit_index;
        }))
  sent-WellFormed rf v real b =
      let (prev, e) = get_elem?-in_range (entries rf.log) (real - 1 - base rf) (omega arith) in
      let g = get_ℤ-local rf (real - 1) (omega arith) in
      let back : suc (real - 1) ≡ real = omega arith in
      rw (slice_from-local rf real (omega arith) (omega arith), g, e)
        (record {
          current = refl;
          previous = rw (g, e) refl;
          rest = rw back refl;
          consecutive = rw back (
              Contiguous-drop (base rf) real (real - base rf) (entries rf.log) (omega arith)
                (refl, v.consecutive));
        })

  -- For each peer a well-formed leader has a request, whatever `nextIndex` says: it has the
  -- leader's term, names an entry of the log and its term, and carries all entries after it, with
  -- consecutive indices.
  pub sync_args-WellFormed :
      (rf : Raft C B) (i : ℕ) → IsValid rf → i < rf.peers → Returns (WellFormed rf) (sync_args rf i)
  unfolding sync_args
  sync_args-WellFormed rf i v h =
      let (next, e) = get_elem?-in_range rf.next_index i (omega (arith, v.follows)) in
      rw e (sent-WellFormed rf v (real_next_index rf next) (real_next_index-bounds rf next))

-- ===== src/Raft/Leader/Commit.antt =====
-- `commitCheck` ends, and commits only what the paper's rule allows.
use mit_6_5840_2024_lab.Common.{
  ℕ, zero, suc, ◌+◌, ◌/◌, ◌<◌, ◌≤◌, ◌≡◌, refl, ◌⊎◌, inl, inr, arith, Bool, true, false, Returns,
  Option-cases, get_elem?-in_range, ◌-◌,
}
use mit_6_5840_2024_lab.Raft.Types.{Raft, entries}
use mit_6_5840_2024_lab.Raft.Index.{base, global_log_len}
use mit_6_5840_2024_lab.Raft.Replication.{TermAt}
use mit_6_5840_2024_lab.Raft.Leader.{count_ge, commit_loop, may_commit, commit_check}

module _ {C B : Type 0} where
  -- A majority of `matchIndex` has reached `n`.
  abbrev pub Majority : Raft C B → ℕ → Type 0
  Majority rf n = rf.peers / 2 + 1 ≤ count_ge n rf.match_index

  -- What the loop has found when it was started at `lo`.
  abbrev Found : Raft C B → ℕ → ℕ × Bool → Type 0
  Found rf lo (new, true) = Majority rf new × (lo ≤ new)
  Found rf lo (new, false) = new ≡ lo

  commit_loop-Found :
      (fuel : ℕ) (rf : Raft C B) (lo n new : ℕ) (changed : Bool)
      → global_log_len rf + 1 < fuel + n
      → 0 < fuel
      → n ≤ new + 1
      → lo ≤ n
      → Found rf lo (new, changed)
      → Returns (Found rf lo) (commit_loop fuel rf n new changed)
  unfolding commit_loop
  commit_loop-Found zero rf lo n new changed enough pos_fuel near low f = absurd (omega arith)
  commit_loop-Found (suc fuel) rf lo n new changed enough pos_fuel near low f =
      ground (arith, commit_loop-Found fuel rf lo (n + 1) n true)

  may_commit-Returns :
      (rf : Raft C B) (new : ℕ) (changed : Bool)
      → Returns
          (λ commit.
            commit ≡ true → (changed ≡ true) × ((new < base rf) ⊎ TermAt rf new rf.current_term))
          (may_commit rf new changed)
  unfolding may_commit
  may_commit-Returns rf new changed =
      ground (arith, get_elem?-in_range (entries rf.log) (new - base rf))

  -- One round ends, without a panic, and changes nothing but the commit index. It leaves that
  -- alone, or raises it to an index that a majority holds and whose entry is of the leader's own
  -- term or already in its snapshot.
  pub commit_check-safe :
      (rf : Raft C B)
      → Returns
          (λ rf'.
            (rf' ≡ record rf { commit_index = rf'.commit_index })
            × ((rf'.commit_index ≡ rf.commit_index)
                ⊎ ((rf.commit_index < rf'.commit_index)
                    × Majority rf rf'.commit_index
                    × ((rf'.commit_index < base rf) ⊎ TermAt rf rf'.commit_index rf.current_term))))
          (commit_check rf)
  unfolding commit_check
  commit_check-safe rf =
      let lo = rf.commit_index + 1 in
      let found =
        commit_loop-Found (global_log_len rf + 2) rf lo lo lo false (omega arith) (omega arith)
          (omega arith) (omega arith) refl in
      elim (Option-cases (commit_loop (global_log_len rf + 2) rf lo lo false)) [
        | inl e ↦ absurd (rw e at found)
        | inr ((new, changed), e) ↦
            let f = rw e at found in
            let m = may_commit-Returns rf new changed in rw e (ground arith)
      ]

-- ===== src/Raft/Replication.antt =====
-- What `AppendEntries` does to the log, beside its shape.
use mit_6_5840_2024_lab.Common.{
  ℕ, zero, suc, ◌+◌, ◌-◌, ◌≤◌, ◌<◌, ◌≡◌, refl, true, Option, some, List, [], ◌∷◌, ◌++◌, arith,
  length, get_elem?, take, length-take, get_elem?-append, get_elem?-append_right, get_elem?-take,
  Returns, Returns-some, inl, inr, Bool-cases,
}
use mit_6_5840_2024_lab.Raft.Types.{LogEntry, Log, Codec, Raft, entries, append_log}
use mit_6_5840_2024_lab.Raft.Index.{base, local_index, global_log_len, get_ℤ}
use mit_6_5840_2024_lab.Raft.Index.Local.{slice_to-local, local_index-pos}
use mit_6_5840_2024_lab.Raft.Append.{
  AppendEntriesArgs, AppendEntriesReply, append_entries, synchronize, fix_package, follow,
  is_prefix,
}
use mit_6_5840_2024_lab.Raft.Shape.{IsValid}
use mit_6_5840_2024_lab.Raft.Shape.Follower.{follow-IsValid}

-- The entry with the global index `i`, if the log holds it.
abbrev pub entry_at : {C B : Type 0} → Raft C B → ℕ → Option (LogEntry C)
entry_at rf i = get_ℤ (entries rf.log) (local_index rf i)

-- The log holds an entry of term `t` at `i`.
abbrev pub TermAt : {C B : Type 0} → Raft C B → ℕ → ℕ → Type 0
TermAt rf i t = Returns (λ x. x.term ≡ t) (entry_at rf i)

module _ {C B : Type 0} where
  is_prefix-cons :
      (rf : Raft C B) (x : LogEntry C) (es : List (LogEntry C)) (i : ℕ)
      → is_prefix rf (x ∷ es) i ≡ true
      → base rf ≤ i
      → TermAt rf i x.term × (is_prefix rf es (i + 1) ≡ true)
  unfolding is_prefix
  is_prefix-cons rf x es i p low =
      let q = rw (local_index-pos rf i low) at p in rw (local_index-pos rf i low) (ground arith)

  is_prefix-TermAt :
      (rf : Raft C B) (es : List (LogEntry C)) (i k : ℕ) {e : LogEntry C}
      → is_prefix rf es i ≡ true
      → base rf ≤ i
      → get_elem? es k ≡ some e
      → TermAt rf (i + k) e.term
  is_prefix-TermAt rf [] i k p low g = absurd (cc)
  is_prefix-TermAt rf (x ∷ es) i zero {e} p low g =
      let e0 : i + 0 ≡ i = omega arith in
      let same : x ≡ e = cc in rw (e0, ← same) ((is_prefix-cons rf x es i p low).0)
  is_prefix-TermAt rf (x ∷ es) i (suc k) p low g =
      let e1 : i + suc k ≡ i + 1 + k = omega arith in
      rw e1 (is_prefix-TermAt rf es (i + 1) k ((is_prefix-cons rf x es i p low).1) (omega arith) g)

module _ {C B : Type 0} ⦃codec : Codec C B⦄ (args : AppendEntriesArgs C) (k : ℕ) {e : LogEntry C}
    (g : get_elem? args.new_entries k ≡ some e) where
  -- a log that the entries were appended to
  stored-TermAt :
      (rf : Raft C B) (kept : List (LogEntry C)) (log : Log C)
      → entries log ≡ kept ++ args.new_entries
      → log.first.index + length kept ≡ suc args.prev_log_index
      → TermAt (record rf { log = log }) (suc args.prev_log_index + k) e.term
  stored-TermAt rf kept log el at =
      rw
        (
          local_index-pos (record rf { log = log }) (suc args.prev_log_index + k) (omega arith),
          el,
          get_elem?-append_right kept args.new_entries k
              (suc args.prev_log_index + k - log.first.index) (omega arith),
          g,
        )
        refl

  fix_package-TermAt :
      (rf : Raft C B)
      → IsValid rf
      → args.prev_log_index < global_log_len rf - 1
      → args.prev_log_index ≡ rf.last_applied
      → Returns (λ r. TermAt r.0 (suc args.prev_log_index + k) e.term) (fix_package rf args)
  unfolding fix_package
  fix_package-TermAt rf v lt eq =
      elim (Bool-cases (is_prefix rf args.new_entries (rf.last_applied + 1))) [
        | inl p ↦ rw p (
            let e1 : suc args.prev_log_index ≡ rf.last_applied + 1 = omega arith in
            rw e1 (is_prefix-TermAt rf args.new_entries (rf.last_applied + 1) k p (omega arith) g))
        | inr n ↦
            rw (n, slice_to-local rf rf.last_applied v.applied (omega arith))
              (stored-TermAt rf (rf.log.first ∷ take (rf.last_applied - base rf) rf.log.rest) _ refl
                (omega (arith, length-take (rf.last_applied - base rf) rf.log.rest)))
      ]

  synchronize-TermAt :
      (rf : Raft C B)
      → IsValid rf
      → Returns
          (λ r. r.1.success ≡ true → TermAt r.0 (suc args.prev_log_index + k) e.term)
          (synchronize rf args)
  unfolding synchronize
  synchronize-TermAt rf v = ground (
    arith,
    fix_package-TermAt rf v,
    stored-TermAt rf (entries rf.log) (append_log rf.log args.new_entries) refl,
  )

module _ {C B : Type 0} ⦃codec : Codec C B⦄ where
  append_entries-TermAt :
      (rf : Raft C B) (args : AppendEntriesArgs C) (now k : ℕ) {e : LogEntry C}
      → get_elem? args.new_entries k ≡ some e
      → IsValid rf
      → Returns
          (λ r. r.1.success ≡ true → TermAt r.0 (suc args.prev_log_index + k) e.term)
          (append_entries rf args now)
  unfolding append_entries
  append_entries-TermAt rf args now k g v =
      ground
        (arith, synchronize-TermAt args k g (follow rf args now) (follow-IsValid rf args now v))

  -- After a well-formed peer has replied with `Success`, its log holds at each place after
  -- `PrevLogIndex` an entry of the term of the entry that was sent for that place.
  pub append_entries-success :
      (rf : Raft C B) (args : AppendEntriesArgs C) (now k : ℕ) {r : Raft C B × AppendEntriesReply}
      {e : LogEntry C}
      → IsValid rf
      → append_entries rf args now ≡ some r
      → r.1.success ≡ true
      → get_elem? args.new_entries k ≡ some e
      → TermAt r.0 (suc args.prev_log_index + k) e.term
  append_entries-success rf args now k {e = e} v eq s g =
      Returns-some (λ r. r.1.success ≡ true → TermAt r.0 (suc args.prev_log_index + k) e.term)
        (append_entries rf args now) (append_entries-TermAt rf args now k g v) eq s

  fix_package-keeps :
      (rf : Raft C B) (args : AppendEntriesArgs C) (i : ℕ)
      → IsValid rf
      → args.prev_log_index < global_log_len rf - 1
      → args.prev_log_index ≡ rf.last_applied
      → base rf ≤ i
      → i ≤ rf.last_applied
      → Returns (λ r. entry_at r.0 i ≡ entry_at rf i) (fix_package rf args)
  unfolding fix_package
  fix_package-keeps rf args i v lt eq low high =
      rw (slice_to-local rf rf.last_applied v.applied (omega arith)) (
        ground (
          arith,
          local_index-pos rf i low,
          get_elem?-append (rf.log.first ∷ take (rf.last_applied - base rf) rf.log.rest)
              args.new_entries (i - base rf),
          get_elem?-take (suc (rf.last_applied - base rf)) (entries rf.log) (i - base rf),
          length-take (rf.last_applied - base rf) rf.log.rest,
        ))

  synchronize-keeps :
      (rf : Raft C B) (args : AppendEntriesArgs C) (i : ℕ)
      → IsValid rf
      → base rf ≤ i
      → i ≤ rf.last_applied
      → i < global_log_len rf
      → Returns (λ r. (entry_at r.0 i ≡ entry_at rf i)) (synchronize rf args)
  unfolding synchronize
  synchronize-keeps rf args i v low high inside = ground (
    arith,
    fix_package-keeps rf args i v,
    local_index-pos rf i low,
    get_elem?-append (entries rf.log) args.new_entries (i - base rf),
  )

  synchronize-last_applied :
      (rf : Raft C B) (args : AppendEntriesArgs C)
      → IsValid rf
      → Returns (λ r. r.0.last_applied ≡ rf.last_applied) (synchronize rf args)
  unfolding synchronize fix_package
  synchronize-last_applied rf args v = ground (arith, slice_to-local rf rf.last_applied v.applied)

  -- At a well-formed peer `AppendEntries` returns for every request. It leaves each applied entry
  -- that the log holds where it is, and the index of the last applied one.
  pub append_entries-keeps_applied :
      (rf : Raft C B) (args : AppendEntriesArgs C) (now i : ℕ)
      → IsValid rf
      → base rf ≤ i
      → i ≤ rf.last_applied
      → i < global_log_len rf
      → Returns
          (λ r. (entry_at r.0 i ≡ entry_at rf i) × (r.0.last_applied ≡ rf.last_applied))
          (append_entries rf args now)
  unfolding append_entries follow
  append_entries-keeps_applied rf args now i v low high inside = ground (
    arith,
    synchronize-keeps (follow rf args now) args i (follow-IsValid rf args now v),
    synchronize-last_applied (follow rf args now) args (follow-IsValid rf args now v),
  )

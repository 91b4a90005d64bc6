-- ===== src/Raft/Shape/Snapshot.antt =====
-- `Snapshot` cuts the log, and keeps its shape and the external numbering of what is left.
use native.Mathlib.Decide.{dec_lt}
use mit_6_5840_2024_lab.Common.{
  ℕ, suc, ◌+◌, ◌-◌, ◌≤◌, ◌<◌, ◌≡◌, refl, sym, ap, ◌∙◌, some, arith, get_elem?, drop, length-drop,
  drop-get_elem?, get_elem?-in_range, Returns,
}
use mit_6_5840_2024_lab.Raft.Types.{LogEntry, Codec, Raft, entries}
use mit_6_5840_2024_lab.Raft.Index.{
  base, global_log_len, external_index, internal_index, count_external,
}
use mit_6_5840_2024_lab.Raft.Index.Local.{slice_from-local}
use mit_6_5840_2024_lab.Raft.Index.Numbering.{
  external_index-internal_index, external_index-count, count_external-some, count_external-drop,
}
use mit_6_5840_2024_lab.Raft.Persist.{persist, trim, take_snapshot}
use mit_6_5840_2024_lab.Raft.Shape.Lists.{Contiguous-drop, Contiguous-get, IsValid}

module _ {C B : Type 0} ⦃codec : Codec C B⦄ (rf : Raft C B) (v : IsValid rf) (index : ℕ)
    (snapshot : B) where
  abbrev cut : ℕ → LogEntry C → Raft C B
  cut prev e =
      persist
        (trim rf index snapshot (record { first = e; rest = drop (prev - base rf) rf.log.rest }))

  take_snapshot-cut :
      (e : LogEntry C)
      → rf.snapshot_index < index
      → base rf ≤ internal_index rf index
      → internal_index rf index ≤ rf.last_applied
      → internal_index rf index < global_log_len rf
      → get_elem? (entries rf.log) (internal_index rf index - base rf) ≡ some e
      → take_snapshot rf index snapshot ≡ some (cut (internal_index rf index) e)
  unfolding take_snapshot
  take_snapshot-cut e newer low applied inside g =
      rw
        (
          slice_from-local rf (internal_index rf index) low (omega arith),
          drop-get_elem? (entries rf.log) (internal_index rf index - base rf) g,
        )
        (ground arith)

  take_snapshot-refused :
      rf.last_applied < internal_index rf index → take_snapshot rf index snapshot ≡ some rf
  unfolding take_snapshot
  take_snapshot-refused early = ground arith

  cut-base : (prev : ℕ) (e : LogEntry C) (j : ℕ) → e.index ≡ prev → base (cut prev e) ≤ j → prev ≤ j
  unfolding persist
  cut-base prev e j at h = omega arith

  cut-len :
      (prev : ℕ) (e : LogEntry C)
      → base rf ≤ prev
      → prev < global_log_len rf
      → e.index ≡ prev
      → global_log_len (cut prev e) ≡ global_log_len rf
  unfolding persist
  cut-len prev e low inside at = omega (arith, length-drop (prev - base rf) rf.log.rest)

  cut-IsValid :
      (prev : ℕ) (e : LogEntry C)
      → base rf ≤ prev
      → prev ≤ rf.last_applied
      → e.index ≡ prev
      → IsValid (cut prev e)
  unfolding persist
  cut-IsValid prev e low applied at = record {
    starts = refl;
    consecutive =
        Contiguous-drop (suc (base rf)) (suc e.index) (prev - base rf) rf.log.rest (omega arith)
          v.consecutive;
    applied = omega arith;
    follows = v.follows;
    matches = v.matches;
    own = v.own;
  }

  cut-external_index :
      (prev j : ℕ) (e : LogEntry C)
      → base rf ≤ prev
      → prev ≤ j
      → j < global_log_len rf
      → e.index ≡ prev
      → external_index rf prev ≡ some index
      → IsValid (cut prev e)
      → external_index (cut prev e) j ≡ external_index rf j
  unfolding persist
  cut-external_index prev j e low high inside at x v' =
      let a : ℕ = prev - base rf in
      let (c, q) = count_external-some rf.log.rest a (omega arith) in
      let (d, r) =
        count_external-some (drop a rf.log.rest) (j - prev)
          (omega (arith, length-drop a rf.log.rest)) in
      let at_prev = external_index-count rf v prev c low q in
      let split : j - base rf ≡ a + (j - prev) = omega arith in
      let old = external_index-count rf v j (d + c) (omega arith) (
        ap (count_external rf.log.rest) split ∙ count_external-drop rf.log.rest a (j - prev) q r) in
      let new =
        external_index-count (cut prev e) v' j d (omega arith)
          (ap (λ p. count_external (drop a rf.log.rest) (j - p)) at ∙ r) in
      new ∙ ground arith ∙ sym old

  -- At a well-formed peer, `Snapshot` up to an external index that the log holds, above the last
  -- snapshot's, returns. The log is then well-formed and ends where it did, and each entry that it
  -- still holds has the external index that it had.
  pub take_snapshot-numbering :
      (last : ℕ)
      → external_index rf (global_log_len rf - 1) ≡ some last
      → rf.snapshot_index < index
      → index ≤ last
      → Returns
          (λ rf'.
            IsValid rf'
            × (global_log_len rf' ≡ global_log_len rf)
            × ((j : ℕ)
                → base rf' ≤ j
                → j < global_log_len rf
                → external_index rf' j ≡ external_index rf j))
          (take_snapshot rf index snapshot)
  take_snapshot-numbering last h newer old = elim (dec_lt rf.last_applied prev) [
    | yes early ↦ rw (refused early) (v, refl, λ j low inside. refl)
    | no late ↦
        let (low, inside, x) = found in
        let (e, g) = get_elem?-in_range (entries rf.log) (prev - base rf) (omega arith) in
        let at : e.index ≡ prev = omega (
          arith,
          Contiguous-get (base rf) (prev - base rf) (entries rf.log) (refl, v.consecutive) g,
        ) in
        let v' = cut-IsValid prev e (omega arith) (omega arith) at in
        rw (take_snapshot-cut e newer (omega arith) (omega arith) inside g) (
          v',
          cut-len prev e (omega arith) inside at,
          λ j lower inner.
              cut-external_index prev j e (omega arith) (cut-base prev e j at lower) inner at x v',
        )
  ]
    where
      prev : ℕ
      prev = internal_index rf index

      found : (base rf < prev) × (prev < global_log_len rf) × (external_index rf prev ≡ some index)
      found = external_index-internal_index rf v index last h newer old

      refused : rf.last_applied < prev → take_snapshot rf index snapshot ≡ some rf
      refused early = take_snapshot-refused early

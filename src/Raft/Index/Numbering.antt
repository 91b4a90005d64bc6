-- ===== src/Raft/Index/Numbering.antt =====
-- The two numberings of the log are inverse to one another on the entries that are no no-ops.
use native.Mathlib.Decide.{ℕ_discrete}
use mit_6_5840_2024_lab.Common.{
  ℕ, zero, suc, ◌+◌, ◌-◌, ◌≤◌, ◌<◌, ◌≡◌, refl, sym, ap, ◌∙◌, some, List, [], ◌∷◌, ◌++◌, arith,
  length, get_elem?, drop, if◌then◌else◌, true, get_elem?-bound, Option-cases, inl, inr,
}
use mit_6_5840_2024_lab.Common.Int.{pos}
use mit_6_5840_2024_lab.Raft.Types.{LogEntry, Raft, is_noop, entries, normal, noop}
use mit_6_5840_2024_lab.Raft.Index.{
  base, global_log_len, count_external, find_internal, internal_index, external_index,
}
use mit_6_5840_2024_lab.Raft.Index.Local.{sub_ℕ-pos}
use mit_6_5840_2024_lab.Raft.Shape.{IsValid}

module _ {C : Type 0} where
  abbrev plus_entry : LogEntry C → ℕ → ℕ
  plus_entry e c = if is_noop e.type then c else suc c

  count_external-inv :
      (x : LogEntry C) (l : List (LogEntry C)) (n : ℕ) {c : ℕ}
      → count_external (x ∷ l) (suc n) ≡ some c
      → (c' : ℕ) × (count_external l n ≡ some c') × (c ≡ plus_entry x c')
  unfolding count_external
  count_external-inv x l n h = elim (Option-cases (count_external l n)) [
    | inl e ↦ absurd (ground arith)
    | inr (c', e) ↦ (c', e, ground arith)
  ]

  pub count_external-suc :
      (l : List (LogEntry C)) (n : ℕ) {c : ℕ} {e : LogEntry C}
      → count_external l n ≡ some c
      → get_elem? l n ≡ some e
      → count_external l (suc n) ≡ some (if is_noop e.type then c else suc c)
  unfolding count_external
  count_external-suc [] n h g = absurd (cc)
  count_external-suc (x ∷ l) zero h g = ground arith
  count_external-suc (x ∷ l) (suc n) h g =
      let (c', k, e) = count_external-inv x l n h in rw (count_external-suc l n k g) (ground arith)

  pub count_external-some :
      (l : List (LogEntry C)) (n : ℕ) → n ≤ length l → (c : ℕ) × (count_external l n ≡ some c)
  unfolding count_external
  count_external-some l zero h = (0, refl)
  count_external-some [] (suc n) h = absurd (omega arith)
  count_external-some (x ∷ l) (suc n) h =
      let (c, e) = count_external-some l n (omega arith) in (plus_entry x c, rw e)

  pub count_external-append :
      (l ys : List (LogEntry C)) (n : ℕ)
      → n ≤ length l
      → count_external (l ++ ys) n ≡ count_external l n
  unfolding count_external
  count_external-append l ys zero h = refl
  count_external-append [] ys (suc n) h = absurd (omega arith)
  count_external-append (x ∷ l) ys (suc n) h = rw (count_external-append l ys n (omega arith))

  pub count_external-drop :
      (l : List (LogEntry C)) (a b : ℕ) {c d : ℕ}
      → count_external l a ≡ some c
      → count_external (drop a l) b ≡ some d
      → count_external l (a + b) ≡ some (d + c)
  unfolding count_external
  count_external-drop l zero b {c} {d} h k =
      let z : 0 + b ≡ b = omega arith in let w : d + c ≡ d = ground arith in rw (z, w) k
  count_external-drop [] (suc a) b h k = absurd (cc)
  count_external-drop (x ∷ l) (suc a) b h k =
      let (c', q, e) = count_external-inv x l a h in
      let z : suc a + b ≡ suc (a + b) = omega arith in
      rw (z, count_external, count_external-drop l a b q k) (ground arith)

  count_external-pos :
      (l : List (LogEntry C)) (m : ℕ) {c : ℕ} {e : LogEntry C}
      → count_external l (suc m) ≡ some c
      → get_elem? l m ≡ some e
      → e.type ≡ normal
      → 0 < c
  unfolding count_external
  count_external-pos [] m h g t = absurd (cc)
  count_external-pos (x ∷ l) zero h g t = ground arith
  count_external-pos (x ∷ l) (suc m) h g t =
      let (c', q, e) = count_external-inv x l (suc m) h in
      ground (arith, count_external-pos l m q g t)

  -- The search stops at the entry that makes the count reach its target.
  find_internal-hit :
      (l : List (LogEntry C)) (m i cnt index : ℕ) {c : ℕ} {e : LogEntry C}
      → count_external l (suc m) ≡ some c
      → get_elem? l m ≡ some e
      → e.type ≡ normal
      → find_internal l i cnt (pos (cnt + c)) index ≡ i + m
  unfolding count_external find_internal
  find_internal-hit [] m i cnt index h g t = absurd (cc)
  find_internal-hit (x ∷ l) zero i cnt index h g t = ground arith
  find_internal-hit (x ∷ l) (suc m) i cnt index {c} h g t =
      let (c', q, e) = count_external-inv x l (suc m) h in
      let p = count_external-pos l m q g t in
      let cnt' : ℕ = if is_noop x.type then cnt else cnt + 1 in
      let same : cnt' + c' ≡ cnt + c = ground arith in
      let ih = rw same at (find_internal-hit l m (i + 1) cnt' i q g t) in ground arith

  find_internal-found :
      (l : List (LogEntry C)) (i cnt t index : ℕ) {total : ℕ}
      → count_external l (length l) ≡ some total
      → cnt < t
      → t ≤ cnt + total
      → (m : ℕ) × (find_internal l i cnt (pos t) index ≡ i + m)
        × (m < length l)
        × (count_external l (suc m) ≡ some (t - cnt))
  unfolding count_external find_internal
  find_internal-found [] i cnt t index h low high = absurd (ground arith)
  find_internal-found (x ∷ l) i cnt t index {total} h low high =
      let (total', q, e) = count_external-inv x l (length l) h in
      let cnt' : ℕ = if is_noop x.type then cnt else cnt + 1 in
      elim (ℕ_discrete cnt' t) [
        | yes here ↦ (0, ground arith, omega arith, ground arith)
        | no there ↦
            let (m, f, b, k) =
              find_internal-found l (i + 1) cnt' t i q (ground arith) (ground arith) in
            (suc m, ground arith, omega arith, ground arith)
      ]

  -- The search passes over a no-op.
  find_internal-noop :
      (e : LogEntry C) (l : List (LogEntry C)) (c : ℕ)
      → e.type ≡ noop
      → 0 < c
      → find_internal (e ∷ l) 0 0 (pos c) 0 ≡ find_internal l 1 0 (pos c) 0
  unfolding find_internal
  find_internal-noop e l c t low =
      let n : is_noop e.type ≡ true = ground arith in rw n (ground arith)

module _ {C B : Type 0} (rf : Raft C B) (v : IsValid rf) where
  pub external_index-count :
      (i c : ℕ)
      → base rf ≤ i
      → count_external rf.log.rest (i - base rf) ≡ some c
      → external_index rf i ≡ some (c + rf.snapshot_index)
  unfolding external_index
  external_index-count i c low e = rw (sub_ℕ-pos i (base rf) low, e) refl

  internal_index-rest :
      (x c : ℕ)
      → 0 < c
      → c + rf.snapshot_index ≡ x
      → internal_index rf x ≡ find_internal rf.log.rest 1 0 (pos c) 0 + base rf
  unfolding internal_index
  internal_index-rest x c low e =
      let d : x - rf.snapshot_index ≡ c = omega arith in
      rw
        (
          sub_ℕ-pos x rf.snapshot_index (omega arith),
          d,
          find_internal-noop rf.log.first rf.log.rest c v.starts low,
        )
        refl

  internal_index-hit :
      (m c : ℕ) {e : LogEntry C}
      → count_external rf.log.rest (suc m) ≡ some c
      → get_elem? rf.log.rest m ≡ some e
      → e.type ≡ normal
      → internal_index rf (c + rf.snapshot_index) ≡ suc m + base rf
  internal_index-hit m c k g t =
      let hit = find_internal-hit rf.log.rest m 1 0 0 k g t in
      let zc : 0 + c ≡ c = omega arith in
      let hit' = rw zc at hit in
      rw
        (
          internal_index-rest (c + rf.snapshot_index) c (count_external-pos rf.log.rest m k g t)
              refl,
          hit',
        )
        (omega arith)

  -- At a well-formed peer, an entry after the log's first that is no no-op is found again by its
  -- external index.
  pub internal_index-external_index :
      (i : ℕ) {x : ℕ} {e : LogEntry C}
      → base rf < i
      → get_elem? (entries rf.log) (i - base rf) ≡ some e
      → e.type ≡ normal
      → external_index rf i ≡ some x
      → internal_index rf x ≡ i
  internal_index-external_index i {x} {e} low g t h =
      let m : ℕ = i - base rf - 1 in
      let sm : i - base rf ≡ suc m = omega arith in
      let g' : get_elem? rf.log.rest m ≡ some e = rw sm at g in
      let (c, k) =
        count_external-some rf.log.rest (suc m) (omega (arith, get_elem?-bound rf.log.rest m g')) in
      let ext = external_index-count i c (omega arith) (ap (count_external rf.log.rest) sm ∙ k) in
      let xc : x ≡ c + rf.snapshot_index = ground arith in
      ap (internal_index rf) xc ∙ internal_index-hit m c k g' t ∙ omega arith

  -- At a well-formed peer, each external index above the snapshot's and up to the last entry's is
  -- that of the entry that `internalIndex` finds for it, which is in the log.
  pub external_index-internal_index :
      (x last : ℕ)
      → external_index rf (global_log_len rf - 1) ≡ some last
      → rf.snapshot_index < x
      → x ≤ last
      → (base rf < internal_index rf x)
        × (internal_index rf x < global_log_len rf)
        × (external_index rf (internal_index rf x) ≡ some x)
  external_index-internal_index x last h low high =
      let c : ℕ = x - rf.snapshot_index in
      let (total, k) = count_external-some rf.log.rest (length rf.log.rest) (omega arith) in
      let whole : global_log_len rf - 1 - base rf ≡ length rf.log.rest = omega arith in
      let ext = external_index-count (global_log_len rf - 1) total (omega arith) (rw whole k) in
      let top : total + rf.snapshot_index ≡ last = ground arith in
      let (m, f, b, q) = find_internal-found rf.log.rest 1 0 c 0 k (omega arith) (omega arith) in
      let int = internal_index-rest x c (omega arith) (omega arith) in
      let at : internal_index rf x ≡ suc m + base rf = ground arith in
      let sm : suc m + base rf - base rf ≡ suc m = omega arith in
      let back = external_index-count (suc m + base rf) (c - 0) (omega arith) (rw sm q) in
      let xc : c - 0 + rf.snapshot_index ≡ x = omega arith in
      rw at (omega arith, omega arith, rw xc at back)

  -- The external index of the next entry is one more, or the same for a no-op.
  pub external_index-suc :
      (i : ℕ) {k : ℕ} {e : LogEntry C}
      → base rf ≤ i
      → i < global_log_len rf
      → external_index rf i ≡ some k
      → get_elem? (entries rf.log) (i + 1 - base rf) ≡ some e
      → external_index rf (i + 1) ≡ some (if is_noop e.type then k else suc k)
  external_index-suc i {k} {e} low inside h g =
      let (c, q) = count_external-some rf.log.rest (i - base rf) (omega arith) in
      let ext = external_index-count i c low q in
      let kc : c + rf.snapshot_index ≡ k = ground arith in
      let si : i + 1 - base rf ≡ suc (i - base rf) = omega arith in
      let g' : get_elem? rf.log.rest (i - base rf) ≡ some e =
        ap (get_elem? (entries rf.log)) (sym si) ∙ g in
      external_index-count (i + 1) (if is_noop e.type then c else suc c) (omega arith)
        (ap (count_external rf.log.rest) si ∙ count_external-suc rf.log.rest (i - base rf) q g')
      ∙ ground arith

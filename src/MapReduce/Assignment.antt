-- ===== src/MapReduce/Assignment.antt =====
-- src/mr/coordinator.go: which worker has which task, over all interleavings of the handlers with
-- the goroutine of `run`.
use mit_6_5840_2024_lab.Common.{
  ℕ, zero, suc, ◌≡◌, ◌≢◌, sym, Bool, true, false, some, List, [], ◌∷◌, arith, get_elem?, Bool-cases,
  inl, inr,
}
use mit_6_5840_2024_lab.Common.Int.{ℤ, pos, negsuc, eq_ℤ, eq_ℤ_iff, int_eq}
use mit_6_5840_2024_lab.Common.Maps.{Map, lookup, insert, lookup-insert}
use mit_6_5840_2024_lab.Common.Merges.{UniqueKeys}
use mit_6_5840_2024_lab.Common.Strings.{Str}
use mit_6_5840_2024_lab.MapReduce.Coordinator.{
  WorkerState, ready, death, WorkType, empty, job, WorkerEntry, WorkInfo, Place, choosing,
  assigning, telling, ended, is_assigned, is_late, recover,
}

abbrev pub is_ready : WorkerState → Bool
is_ready ready = true
is_ready _ = false

-- The task that the worker has a job for is down as its own.
pub record Holds (type : WorkType) (infos : List WorkInfo) (id : ℤ) (w : WorkerEntry) : Type 0 where
  pub task : ℕ
  pub arg : Str
  pub work : w.work ≡ job type task arg
  pub info : WorkInfo
  pub entry : get_elem? infos task ≡ some info
  pub own : info.state ≡ id

abbrev pub IsOpen : List WorkInfo → ℕ → ℤ → Type 0
IsOpen infos i state = (info : WorkInfo) × (get_elem? infos i ≡ some info) × (info.state ≡ state)

-- The worker is known, and has no job.
abbrev pub IsIdle : Map ℤ WorkerEntry → ℤ → Type 0
IsIdle m id = (w : WorkerEntry) × (lookup id m ≡ some w) × (is_ready w.state ≡ false)

abbrev pub AllDone : List WorkInfo → Type 0
AllDone infos = (i : ℕ) (info : WorkInfo) → get_elem? infos i ≡ some info → info.state ≡ negsuc 0

-- The entries of the map in some order: each key once, with its value.
pub record Ranges (order m : Map ℤ WorkerEntry) : Type 0 where
  pub unique : UniqueKeys order
  pub same : (id : ℤ) → lookup id order ≡ lookup id m

-- What the local variables of `AllocWork` are good for.
abbrev pub PlaceHolds : List WorkInfo → Map ℤ WorkerEntry → Place → Type 0
PlaceHolds infos m (choosing i) = IsOpen infos i (pos 0)
PlaceHolds infos m (assigning i id) = IsOpen infos i (pos 0) × IsIdle m id
PlaceHolds infos m (telling i id) = IsOpen infos i id × IsIdle m id
PlaceHolds infos m ended = AllDone infos
PlaceHolds infos m _ = Unit

-- All ids that are known can stand for a worker in a task.
abbrev pub AllIds : Map ℤ WorkerEntry → Type 0
AllIds m = (id : ℤ) (w : WorkerEntry) → lookup id m ≡ some w → is_assigned id ≡ true

pub record Consistent (type : WorkType) (infos : List WorkInfo) (m : Map ℤ WorkerEntry)
    : Type 0 where
  pub ids : AllIds m
  pub jobs :
      (id : ℤ) (w : WorkerEntry)
      → lookup id m ≡ some w
      → is_ready w.state ≡ true
      → Holds type infos id w

pub AllIds-insert :
    (m : Map ℤ WorkerEntry) (id : ℤ) (w : WorkerEntry)
    → AllIds m
    → is_assigned id ≡ true
    → AllIds (insert id w m)
AllIds-insert m id w h a j v e =
    let l = lookup-insert id j w m in
    elim (Bool-cases (eq_ℤ id j)) [
      | inl same ↦ let k : id ≡ j = (eq_ℤ_iff id j).0 same in rw k at a
      | inr other ↦ h j v (ground arith)
    ]

pub AllIds-recover :
    (now : ℕ) (infos : List WorkInfo) (m : Map ℤ WorkerEntry)
    → AllIds m
    → AllIds (recover now infos m).1
unfolding recover
AllIds-recover now [] m h = h
AllIds-recover now (info ∷ infos) m h = elim (Bool-cases (is_late now info)) [
  | inl l ↦ rw l (
      AllIds-recover now infos (insert info.state (record { state = death; work = empty }) m)
        (AllIds-insert m info.state (record { state = death; work = empty }) h (ground arith)))
  | inr l ↦ rw l (AllIds-recover now infos m h)
]

-- A worker keeps its tasks.
abbrev pub Keeps : List WorkInfo → List WorkInfo → ℤ → Type 0
Keeps infos infos' id =
    (i : ℕ) (info : WorkInfo)
    → get_elem? infos i ≡ some info
    → info.state ≡ id
    → get_elem? infos' i ≡ some info

Keeps-same :
    (x : WorkInfo) (xs ys : List WorkInfo) (id : ℤ) → Keeps xs ys id → Keeps (x ∷ xs) (x ∷ ys) id
Keeps-same x xs ys id k zero info e s = e
Keeps-same x xs ys id k (suc i) info e s = k i info e s

Keeps-other :
    (x y : WorkInfo) (xs ys : List WorkInfo) (id : ℤ)
    → x.state ≢ id
    → Keeps xs ys id
    → Keeps (x ∷ xs) (y ∷ ys) id
Keeps-other x y xs ys id n k zero info e s = absurd (let same : x ≡ info = cc in n (rw same s))
Keeps-other x y xs ys id n k (suc i) info e s = k i info e s

-- The crash recovery: a worker that is still ready was so before, and keeps its tasks.
recover-Keeps :
    (now : ℕ) (infos : List WorkInfo) (m : Map ℤ WorkerEntry) (id : ℤ) (w : WorkerEntry)
    → lookup id (recover now infos m).1 ≡ some w
    → is_ready w.state ≡ true
    → (lookup id m ≡ some w) × Keeps infos (recover now infos m).0 id
unfolding recover
recover-Keeps now [] m id w e r = (e, λ i info g s. g)
recover-Keeps now (info ∷ infos) m id w e r = elim (Bool-cases (is_late now info)) [
  | inl l ↦
      let dead : WorkerEntry = record { state = death; work = empty } in
      let rest = recover-Keeps now infos (insert info.state dead m) id w (rw l at e) r in
      let found = rest.0 in
      let at = lookup-insert info.state id dead m in
      elim (Bool-cases (eq_ℤ info.state id)) [
        | inl same ↦
            let d : dead ≡ w = (let found' = rw (at, same) at found in cc) in
            absurd (let r' = rw (sym d) at r in cc)
        | inr other ↦ rw l (
          (rw (at, other) at found),
          Keeps-other info (record info { state = pos 0 }) infos _ id
              (λ s. let t = (eq_ℤ_iff info.state id).1 s in absurd (cc)) rest.1,
        )
      ]
  | inr l ↦
      let rest = recover-Keeps now infos m id w (rw l at e) r in
      rw l (rest.0, Keeps-same info infos _ id rest.1)
]

pub recover-Consistent :
    (type : WorkType) (now : ℕ) (infos : List WorkInfo) (m : Map ℤ WorkerEntry)
    → Consistent type infos m
    → Consistent type (recover now infos m).0 (recover now infos m).1
recover-Consistent type now infos m c = record {
  ids = AllIds-recover now infos m c.ids;
  jobs = λ id w e r.
      let k = recover-Keeps now infos m id w e r in
      let h = c.jobs id w k.0 r in
      record {
        task = h.task;
        arg = h.arg;
        work = h.work;
        info = h.info;
        entry = k.1 h.task h.info h.entry h.own;
        own = h.own;
      };
}

-- ===== src/MapReduce/Loops.antt =====
-- src/mr/coordinator.go: what the loops of `AllocWork` and `Exit` find and leave.
use mit_6_5840_2024_lab.Common.{
  ℕ, zero, suc, ◌+◌, ◌≡◌, refl, true, false, not, none, some, List, [], ◌∷◌, arith, length,
  Bool-cases, inl, inr,
}
use mit_6_5840_2024_lab.Common.Int.{ℤ, pos, negsuc, eq_ℤ, eq_ℤ_iff, int_eq}
use mit_6_5840_2024_lab.Common.Maps.{Map, lookup, insert}
use mit_6_5840_2024_lab.Common.Merges.{UniqueKeys, UniqueKeys-insert}
use mit_6_5840_2024_lab.MapReduce.Coordinator.{
  WorkerState, free, ready, working, death, exiting, empty, WorkerEntry, WorkInfo, is_free, is_late,
  recover, find_ready, Found, ready_work, is_working, nothing_left, later, get_free_worker,
  send_exit, exit_entry,
}
use mit_6_5840_2024_lab.MapReduce.Assignment.{is_ready, IsOpen, IsIdle, AllDone}

-- What the loops find.
abbrev pub FoundHolds : List WorkInfo → ℕ → Found → Type 0
FoundHolds infos k (ready_work j) = (i : ℕ) × (k + i ≡ j) × IsOpen infos i (pos 0)
FoundHolds infos k is_working = Unit
FoundHolds infos k nothing_left = AllDone infos

AllDone-cons :
    (x : WorkInfo) (infos : List WorkInfo)
    → x.state ≡ negsuc 0
    → AllDone infos
    → AllDone (x ∷ infos)
AllDone-cons x infos e h zero y g = let d : x ≡ y = cc in rw d at e
AllDone-cons x infos e h (suc i) y g = h i y g

FoundHolds-cons :
    (x : WorkInfo) (infos : List WorkInfo) (k : ℕ) (found : Found)
    → FoundHolds infos (k + 1) found
    → FoundHolds (x ∷ infos) k (later (not (eq_ℤ x.state (negsuc 0))) found)
FoundHolds-cons x infos k (ready_work j) (i, e, o) = (suc i, omega arith, o)
FoundHolds-cons x infos k is_working h = tt
FoundHolds-cons x infos k nothing_left h = elim (Bool-cases (eq_ℤ x.state (negsuc 0))) [
  | inl e ↦ rw e (AllDone-cons x infos ((eq_ℤ_iff x.state (negsuc 0)).0 e) h)
  | inr e ↦ rw e tt
]

pub find_ready-FoundHolds :
    (infos : List WorkInfo) (k : ℕ) → FoundHolds infos k (find_ready k infos)
unfolding find_ready
find_ready-FoundHolds [] k = λ i info e. absurd (cc)
find_ready-FoundHolds (x ∷ infos) k = elim (Bool-cases (eq_ℤ x.state (pos 0))) [
  | inl e ↦ rw e (zero, omega arith, (x, refl, (eq_ℤ_iff x.state (pos 0)).0 e))
  | inr e ↦
      rw e
        (FoundHolds-cons x infos k (find_ready (k + 1) infos) (find_ready-FoundHolds infos (k + 1)))
]

free-idle : (state : WorkerState) → is_free state ≡ true → is_ready state ≡ false
free-idle free e = refl
free-idle ready e = absurd (cc)
free-idle working e = refl
free-idle death e = refl
free-idle exiting e = refl

exit_entry-idle : (w : WorkerEntry) → is_ready (exit_entry w).state ≡ false
exit_entry-idle w = go w.state refl
  where
    go : (state : WorkerState) → w.state ≡ state → is_ready (exit_entry w).state ≡ false
    go free e = rw e refl
    go ready e = rw e refl
    go working e = rw e refl
    go death e = rw e refl
    go exiting e = rw e refl

pub get_free_worker-IsIdle :
    (m : Map ℤ WorkerEntry) (id : ℤ) → UniqueKeys m → get_free_worker m ≡ some id → IsIdle m id
unfolding get_free_worker lookup
get_free_worker-IsIdle [] id u e = absurd (cc)
get_free_worker-IsIdle ((j, w) ∷ m) id (n, u) e = elim (Bool-cases (is_free w.state)) [
  | inl f ↦
      let k : j ≡ id = (let e' = rw f at e in cc) in
      (w, rw ((eq_ℤ_iff j id).1 k) refl, free-idle w.state f)
  | inr f ↦
      let (v, l, r) = get_free_worker-IsIdle m id u (rw f at e) in
      elim (Bool-cases (eq_ℤ j id)) [
        | inl same ↦ let k : j ≡ id = (eq_ℤ_iff j id).0 same in absurd (let n' = rw k at n in cc)
        | inr other ↦ (v, rw other l, r)
      ]
]

-- `Exit` leaves no worker ready.
pub send_exit-was :
    (m : Map ℤ WorkerEntry) (id : ℤ) (w : WorkerEntry)
    → lookup id (send_exit m) ≡ some w
    → (is_ready w.state ≡ false) × ((v : WorkerEntry) × (lookup id m ≡ some v))
unfolding send_exit lookup
send_exit-was [] id w e = absurd (cc)
send_exit-was ((j, v) ∷ m) id w e = elim (Bool-cases (eq_ℤ j id)) [
  | inl same ↦
      let d : exit_entry v ≡ w = (let e' = rw same at e in cc) in
      ((let i = exit_entry-idle v in rw d at i), (v, rw same refl))
  | inr other ↦ let r = send_exit-was m id w (rw other at e) in (r.0, (r.1.0, rw other r.1.1))
]

pub UniqueKeys-recover :
    (now : ℕ) (infos : List WorkInfo) (m : Map ℤ WorkerEntry)
    → UniqueKeys m
    → UniqueKeys (recover now infos m).1
unfolding recover
UniqueKeys-recover now [] m u = u
UniqueKeys-recover now (info ∷ infos) m u = elim (Bool-cases (is_late now info)) [
  | inl l ↦ rw l (
      UniqueKeys-recover now infos (insert info.state (record { state = death; work = empty }) m)
        (UniqueKeys-insert info.state _ m u))
  | inr l ↦ rw l (UniqueKeys-recover now infos m u)
]

pub length-recover :
    (now : ℕ) (infos : List WorkInfo) (m : Map ℤ WorkerEntry)
    → length (recover now infos m).0 ≡ length infos
unfolding recover
length-recover now [] m = refl
length-recover now (info ∷ infos) m = ground (
  arith,
  length-recover now infos m,
  length-recover now infos (insert info.state (record { state = death; work = empty }) m),
)

send_exit-misses :
    (m : Map ℤ WorkerEntry) (id : ℤ) → lookup id m ≡ none → lookup id (send_exit m) ≡ none
unfolding send_exit lookup
send_exit-misses [] id e = refl
send_exit-misses ((j, v) ∷ m) id e = ground (arith, send_exit-misses m id)

pub UniqueKeys-send_exit : (m : Map ℤ WorkerEntry) → UniqueKeys m → UniqueKeys (send_exit m)
unfolding send_exit
UniqueKeys-send_exit [] u = tt
UniqueKeys-send_exit ((j, v) ∷ m) (n, u) = (send_exit-misses m j n, UniqueKeys-send_exit m u)

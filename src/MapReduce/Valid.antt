-- ===== src/MapReduce/Valid.antt =====
-- src/mr/coordinator.go: the well-formedness of the coordinator, and the handlers.
use mit_6_5840_2024_lab.Common.{
  ℕ, zero, suc, ◌≡◌, ◌≢◌, refl, sym, ap, ◌∙◌, true, false, some, List, arith, length, get_elem?,
  set, Returns, Bool-cases, inl, inr, get_elem?-set_self, get_elem?-set_ne, get_elem?-bound,
  length-set,
}
use mit_6_5840_2024_lab.Common.Int.{ℤ, negsuc, int_eq}
use mit_6_5840_2024_lab.Common.Maps.{lookup}
use mit_6_5840_2024_lab.Common.Merges.{UniqueKeys, UniqueKeys-insert}
use mit_6_5840_2024_lab.Common.Strings.{Str}
use mit_6_5840_2024_lab.MapReduce.Coordinator.{
  free, ready, WorkType, map, empty, job, WorkerEntry, WorkInfo, Coordinator, System, is_assigned,
  with_worker, no_job, is_running, new_tasks, make_coordinator, register_worker, work_finish,
}
use mit_6_5840_2024_lab.MapReduce.Assignment.{is_ready, IsOpen, PlaceHolds, Consistent}
use mit_6_5840_2024_lab.MapReduce.Handlers.{
  PlaceHolds-insert, Consistent-insert, report-Consistent, report-PlaceHolds,
}

pub record IsValid (files : List Str) (s : System) : Type 0 where
  pub consistent : Consistent s.type s.coordinator.work_info s.coordinator.worker_map
  pub place : PlaceHolds s.coordinator.work_info s.coordinator.worker_map s.place
  pub unique : UniqueKeys s.coordinator.worker_map
  pub per_file : s.type ≡ map → length s.coordinator.work_info ≡ length files

pub length-new_tasks : (n : ℕ) → length (new_tasks n) ≡ n
length-new_tasks zero = refl
length-new_tasks (suc n) = ap suc (length-new_tasks n)

pub make_coordinator-IsValid :
    (files : List Str) (n_reduce : ℕ) → IsValid files (make_coordinator files n_reduce)
unfolding lookup
make_coordinator-IsValid files n_reduce = record {
  consistent = record { ids = λ id w e. absurd (cc); jobs = λ id w e. absurd (cc) };
  place = tt;
  unique = tt;
  per_file = λ e. length-new_tasks (length files);
}

-- A worker without a job is entered.
pub with_idle-IsValid :
    (files : List Str) (s : System) (id : ℤ) (w : WorkerEntry)
    → is_assigned id ≡ true
    → is_ready w.state ≡ false
    → IsValid files s
    → IsValid files (record s { coordinator = with_worker s.coordinator id w })
with_idle-IsValid files s id w a i v = record {
  consistent =
      Consistent-insert s.coordinator.worker_map id w s.type s.coordinator.work_info i a
        v.consistent;
  place = PlaceHolds-insert s.coordinator.worker_map id w s.coordinator.work_info s.place i v.place;
  unique = UniqueKeys-insert id w s.coordinator.worker_map v.unique;
  per_file = v.per_file;
}

pub register-IsValid :
    (files : List Str) (s : System) (id : ℤ)
    → is_assigned id ≡ true
    → IsValid files s
    → IsValid files (record s { coordinator = (register_worker s.coordinator id).0 })
unfolding register_worker
register-IsValid files s id a v = elim (Bool-cases (is_running s.coordinator.state)) [
  | inl e ↦ rw e (with_idle-IsValid files s id (record { state = free; work = no_job }) a refl v)
  | inr e ↦ rw e v
]

-- What a report of the task that the worker has comes to.
pub record Reported (c : Coordinator) (task : ℕ) (c' : Coordinator) : Type 0 where
  pub done : IsOpen c'.work_info task (negsuc 0)
  pub others : (k : ℕ) → task ≢ k → get_elem? c'.work_info k ≡ get_elem? c.work_info k

work_finish-ready :
    (c : Coordinator) (id : ℤ) (task : ℕ) {w : WorkerEntry} {info : WorkInfo}
    → lookup id c.worker_map ≡ some w
    → w.state ≡ ready
    → get_elem? c.work_info task ≡ some info
    → work_finish c id task
      ≡ some (
        record (with_worker c id (record { state = free; work = empty })) {
          work_info = set c.work_info task (record info { state = negsuc 0 });
        },
        false,
      )
unfolding work_finish
work_finish-ready c id task l r e = ground arith

pub report-IsValid :
    (files : List Str) (s : System) (id : ℤ) (w : WorkerEntry) (type : WorkType) (task : ℕ)
    (arg : Str)
    → lookup id s.coordinator.worker_map ≡ some w
    → w.state ≡ ready
    → w.work ≡ job type task arg
    → IsValid files s
    → (type ≡ s.type)
      × IsOpen s.coordinator.work_info task id
      × Returns
          (λ r.
            (r.1 ≡ false)
            × Reported s.coordinator task r.0
            × IsValid files (record s { coordinator = r.0 }))
          (work_finish s.coordinator id task)
report-IsValid files s id w type task arg l r j v =
    let ready' : is_ready w.state ≡ true = rw r refl in
    let infos = s.coordinator.work_info in
    let h = v.consistent.jobs id w l ready' in
    let a = v.consistent.ids id w l in
    let same : job type task arg ≡ job s.type h.task h.arg = sym j ∙ h.work in
    let t : h.task ≡ task = cc in
    let entry : get_elem? infos task ≡ some h.info = (let e = h.entry in rw t at e) in
    let o : IsOpen infos task id = (h.info, entry, h.own) in
    let new : WorkInfo = record h.info { state = negsuc 0 } in
    (
      cc,
      o,
      rw (work_finish-ready s.coordinator id task l r entry) (
        refl,
        record {
          done = (new, get_elem?-set_self infos task new (get_elem?-bound infos task entry), refl);
          others = λ k n. get_elem?-set_ne infos task k new n;
        },
        record {
          consistent =
              report-Consistent s.type infos s.coordinator.worker_map task id h.info w v.consistent
                a o;
          place =
              report-PlaceHolds s.type infos s.coordinator.worker_map task id h.info w s.place a l
                ready' o v.place;
          unique = UniqueKeys-insert id _ s.coordinator.worker_map v.unique;
          per_file = λ m. length-set infos task new ∙ v.per_file m;
        },
      ),
    )

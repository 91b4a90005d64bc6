-- ===== src/MapReduce/Reachable.antt =====
-- src/mr/coordinator.go: the coordinator with its handlers and its goroutine, from the start on.
use mit_6_5840_2024_lab.Common.{
  ℕ, ◌≡◌, refl, sym, ap, ◌∙◌, Bool, true, false, some, List, arith, Returns, Returns-some,
  Returns-map,
}
use mit_6_5840_2024_lab.Common.Int.{ℤ, int_eq}
use mit_6_5840_2024_lab.Common.Maps.{Map, lookup}
use mit_6_5840_2024_lab.Common.Strings.{Str}
use mit_6_5840_2024_lab.MapReduce.Coordinator.{
  ready, death, worker_at, WorkType, job, WorkerEntry, Coordinator, System, is_assigned,
  make_coordinator, run_at, register_worker, work_finish, worker_death,
}
use mit_6_5840_2024_lab.MapReduce.Assignment.{IsOpen, Ranges}
use mit_6_5840_2024_lab.MapReduce.Run.{run_at-IsValid}
use mit_6_5840_2024_lab.MapReduce.Valid.{
  IsValid, Reported, make_coordinator-IsValid, with_idle-IsValid, register-IsValid, report-IsValid,
}

-- One step: a call of a handler, or the next critical section of `run`, where a `range` over the
-- workers goes in any order. Ids are process numbers. A worker reports only a task that it was given
-- and still has, or it has been marked death meanwhile, and reports whatever it was given.
pub data Step (files : List Str) : System → System → Type 0 where
  registers :
      (s : System) (id : ℤ)
      → is_assigned id ≡ true
      → Step files s (record s { coordinator = (register_worker s.coordinator id).0 })
  dies :
      (s : System) (id : ℤ)
      → is_assigned id ≡ true
      → Step files s (record s { coordinator = worker_death s.coordinator id })
  reports :
      (s : System) (id : ℤ) (w : WorkerEntry) (type : WorkType) (task : ℕ) (arg : Str)
      (c : Coordinator) (failed : Bool)
      → lookup id s.coordinator.worker_map ≡ some w
      → w.state ≡ ready
      → w.work ≡ job type task arg
      → work_finish s.coordinator id task ≡ some (c, failed)
      → Step files s (record s { coordinator = c })
  reports_late :
      (s : System) (id : ℤ) (task : ℕ) (c : Coordinator) (failed : Bool)
      → (worker_at s.coordinator id).state ≡ death
      → work_finish s.coordinator id task ≡ some (c, failed)
      → Step files s (record s { coordinator = c })
  runs :
      (s s' : System) (now : ℕ) (order : Map ℤ WorkerEntry)
      → Ranges order s.coordinator.worker_map
      → run_at files now order s s.place ≡ some s'
      → Step files s s'

pub data Reachable (files : List Str) (n_reduce : ℕ) : System → Type 0 where
  starts : Reachable files n_reduce (make_coordinator files n_reduce)
  steps :
      (s s' : System) → Reachable files n_reduce s → Step files s s' → Reachable files n_reduce s'

work_finish-death :
    (c : Coordinator) (id : ℤ) (task : ℕ) (c' : Coordinator) (failed : Bool)
    → (worker_at c id).state ≡ death
    → work_finish c id task ≡ some (c', failed)
    → c' ≡ c
unfolding work_finish
work_finish-death c id task c' failed d e = ground arith

Step-IsValid :
    (files : List Str) (s s' : System) → Step files s s' → IsValid files s → IsValid files s'
unfolding worker_death
Step-IsValid files s s' (registers _ id a) v = register-IsValid files s id a v
Step-IsValid files s s' (dies _ id a) v = with_idle-IsValid files s id _ a refl v
Step-IsValid files s s' (reports _ id w type task arg c failed l r j e) v =
    (Returns-some _ (work_finish s.coordinator id task)
      (report-IsValid files s id w type task arg l r j v).2 e).2
Step-IsValid files s s' (reports_late _ id task c failed d e) v =
    rw (work_finish-death s.coordinator id task c failed d e) v
Step-IsValid files s s' (runs _ _ now order o e) v =
    Returns-some (IsValid files) (run_at files now order s s.place)
      (run_at-IsValid files now order s s.place o refl v) e

pub Reachable-IsValid :
    (files : List Str) (n_reduce : ℕ) (s : System) → Reachable files n_reduce s → IsValid files s
Reachable-IsValid files n_reduce s starts = make_coordinator-IsValid files n_reduce
Reachable-IsValid files n_reduce s (steps r _ reached step) =
    Step-IsValid files r s step (Reachable-IsValid files n_reduce r reached)

-- The goroutine of `run` never panics: at no time does its next step use a task or a file that is
-- not there.
pub run_at-Returns :
    (files : List Str) (n_reduce now : ℕ) (order : Map ℤ WorkerEntry) (s : System)
    → Reachable files n_reduce s
    → Ranges order s.coordinator.worker_map
    → Returns (IsValid files) (run_at files now order s s.place)
run_at-Returns files n_reduce now order s r o =
    run_at-IsValid files now order s s.place o refl (Reachable-IsValid files n_reduce s r)

-- No other worker has a job for the task.
abbrev pub Alone : System → ℤ → ℕ → Type 0
Alone s id task =
    (other : ℤ) (v : WorkerEntry) (type : WorkType) (arg : Str)
    → lookup other s.coordinator.worker_map ≡ some v
    → v.state ≡ ready
    → v.work ≡ job type task arg
    → other ≡ id

-- After any interleaving of calls of the handlers, of dead and restarted workers and of tasks that
-- were taken away after ten seconds, with the steps of the coordinator's goroutine, which picks any
-- free worker, let a worker be ready with a job. A worker that calls WorkFinish is ready with a
-- job for the task that it names, or it is marked death and names any task; the ids of workers that
-- register or die are not 0 or -1. The job belongs to the current phase, its task is down as that worker's, and no
-- other ready worker has a job for the task. The worker's report is accepted without a panic, marks
-- the task as done, and leaves all other tasks as they are.
pub Reachable-report :
    (files : List Str) (n_reduce : ℕ) (s : System) (id : ℤ) (w : WorkerEntry) (type : WorkType)
    (task : ℕ) (arg : Str)
    → Reachable files n_reduce s
    → lookup id s.coordinator.worker_map ≡ some w
    → w.state ≡ ready
    → w.work ≡ job type task arg
    → (type ≡ s.type)
      × IsOpen s.coordinator.work_info task id
      × Alone s id task
      × Returns
          (λ r. (r.1 ≡ false) × Reported s.coordinator task r.0)
          (work_finish s.coordinator id task)
Reachable-report files n_reduce s id w type task arg reached l r j =
    let v = Reachable-IsValid files n_reduce s reached in
    let mine = report-IsValid files s id w type task arg l r j v in
    (
      mine.0,
      mine.1,
      λ other v' type' arg' l' r' j'.
          let its = report-IsValid files s other v' type' task arg' l' r' j' v in
          let (x, e, o) = mine.1 in
          let (y, e', o') = its.1 in let d : y ≡ x = cc in sym o' ∙ ap (λ x. x.state) d ∙ o,
      Returns-map _ _ (work_finish s.coordinator id task) mine.2 (λ q t. (t.0, t.1)),
    )

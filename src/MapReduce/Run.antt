-- ===== src/MapReduce/Run.antt =====
-- src/mr/coordinator.go: the critical sections of `run`, `AllocWork` and `Exit`.
use mit_6_5840_2024_lab.Common.{
  ℕ, ◌<◌, ◌≡◌, refl, sym, ◌∙◌, Option, none, some, List, [], arith, length, Returns, Bool-cases,
  inl, inr, get_elem?-set_self, get_elem?-bound, get_elem?-in_range, length-set, lt→ltb,
}
use mit_6_5840_2024_lab.Common.Int.{ℤ, pos, negsuc, int_eq}
use mit_6_5840_2024_lab.Common.Maps.{Map}
use mit_6_5840_2024_lab.Common.Merges.{UniqueKeys-insert}
use mit_6_5840_2024_lab.Common.Strings.{Str}
use mit_6_5840_2024_lab.MapReduce.Coordinator.{
  ready, WorkType, map, reduce, job, WorkerEntry, WorkInfo, System, Place, recovering, finding,
  choosing, assigning, telling, ended, signalling, quitting, halted, find_ready, Found, ready_work,
  is_working, nothing_left, get_free_worker, with_worker, all_death, new_job, next_phase,
  after_finding, after_choosing, new_tasks, run_at, assign_work, tell_worker,
}
use mit_6_5840_2024_lab.MapReduce.Assignment.{
  IsOpen, IsIdle, AllDone, PlaceHolds, Ranges, Consistent, recover-Consistent,
}
use mit_6_5840_2024_lab.MapReduce.Handlers.{assign-Consistent, tell-Consistent}
use mit_6_5840_2024_lab.MapReduce.Loops.{
  FoundHolds, find_ready-FoundHolds, get_free_worker-IsIdle, send_exit-was, UniqueKeys-recover,
  length-recover, UniqueKeys-send_exit,
}
use mit_6_5840_2024_lab.MapReduce.Valid.{IsValid}

-- All tasks are done, so no worker is ready, and a new phase can begin.
nobody-ready :
    (type : WorkType) (infos : List WorkInfo) (m : Map ℤ WorkerEntry) (new : List WorkInfo)
    (next : WorkType)
    → AllDone infos
    → Consistent type infos m
    → Consistent next new m
nobody-ready type infos m new next d c = record {
  ids = c.ids;
  jobs = λ id w e r.
      let h = c.jobs id w e r in
      let a = c.ids id w e in
      absurd
        (let s : id ≡ negsuc 0 = sym h.own ∙ d h.task h.info h.entry in let a' = rw s at a in cc);
}

found-PlaceHolds :
    (infos : List WorkInfo) (m : Map ℤ WorkerEntry) (found : Found)
    → FoundHolds infos 0 found
    → PlaceHolds infos m (after_finding found)
found-PlaceHolds infos m (ready_work j) (i, e, o) = let k : i ≡ j = omega arith in rw k at o
found-PlaceHolds infos m is_working h = tt
found-PlaceHolds infos m nothing_left h = h

chosen-PlaceHolds :
    (infos : List WorkInfo) (m : Map ℤ WorkerEntry) (i : ℕ) (found : Option ℤ)
    → IsOpen infos i (pos 0)
    → ((id : ℤ) → found ≡ some id → IsIdle m id)
    → PlaceHolds infos m (after_choosing i found)
chosen-PlaceHolds infos m i none o h = tt
chosen-PlaceHolds infos m i (some id) o h = (o, h id refl)

new_job-job :
    (files : List Str) (type : WorkType) (i : ℕ)
    → (type ≡ map → i < length files)
    → (arg : Str) × (new_job files type i ≡ some (job type i arg))
new_job-job files map i h =
    let (file, e) = get_elem?-in_range files i (h refl) in (file, rw (e, new_job) refl)
new_job-job files reduce i h = ([], refl)

module _ (files : List Str) (now : ℕ) (order : Map ℤ WorkerEntry) (s : System) where
  assign_at :
      (i : ℕ) (id : ℤ)
      → s.place ≡ assigning i id
      → IsValid files s
      → Returns (IsValid files) (run_at files now order s (assigning i id))
  unfolding run_at assign_work
  assign_at i id e v =
      let infos = s.coordinator.work_info in
      let p : PlaceHolds infos s.coordinator.worker_map (assigning i id) =
        (let q = v.place in rw e at q) in
      let o = p.0 in
      let b = get_elem?-bound infos i o.1 in
      let new : WorkInfo = record { state = id; timestamp = now } in
      rw (lt→ltb i (length infos) b) (record {
        consistent =
            assign-Consistent s.type infos s.coordinator.worker_map i id new v.consistent o;
        place = ((new, get_elem?-set_self infos i new b, refl), p.1);
        unique = v.unique;
        per_file = λ m. length-set infos i new ∙ v.per_file m;
      })

  told :
      (i : ℕ) (id : ℤ) (arg : Str)
      → s.place ≡ telling i id
      → IsValid files s
      → IsValid files (record s {
        coordinator =
            with_worker s.coordinator id (record { state = ready; work = job s.type i arg });
        place = recovering;
      })
  told i id arg e v =
      let p : PlaceHolds s.coordinator.work_info s.coordinator.worker_map (telling i id) =
        (let q = v.place in rw e at q) in
      record {
        consistent =
            tell-Consistent s.type s.coordinator.work_info s.coordinator.worker_map i id arg
              v.consistent p.0 (v.consistent.ids id p.1.0 p.1.1);
        place = tt;
        unique = UniqueKeys-insert id _ s.coordinator.worker_map v.unique;
        per_file = v.per_file;
      }

  tell_at :
      (i : ℕ) (id : ℤ)
      → s.place ≡ telling i id
      → IsValid files s
      → Returns (IsValid files) (run_at files now order s (telling i id))
  unfolding run_at tell_worker
  tell_at i id e v =
      let p : PlaceHolds s.coordinator.work_info s.coordinator.worker_map (telling i id) =
        (let q = v.place in rw e at q) in
      let (arg, j) = new_job-job files s.type i (λ m.
        let b = get_elem?-bound s.coordinator.work_info i p.0.1 in
        let l = v.per_file m in omega arith) in
      rw j (told i id arg e v)

  phase_ends :
      (type : WorkType)
      → s.type ≡ type
      → AllDone s.coordinator.work_info
      → IsValid files s
      → IsValid files (next_phase s type)
  phase_ends map t d v = record {
    consistent =
        nobody-ready s.type s.coordinator.work_info s.coordinator.worker_map
          (new_tasks s.coordinator.n_reduce) reduce d v.consistent;
    place = tt;
    unique = v.unique;
    per_file = λ m. absurd (cc);
  }
  phase_ends reduce t d v = record {
    consistent = v.consistent;
    place = tt;
    unique = v.unique;
    per_file = v.per_file;
  }

  end_at :
      s.place ≡ ended → IsValid files s → Returns (IsValid files) (run_at files now order s ended)
  unfolding run_at
  end_at e v = phase_ends s.type refl (let q = v.place in rw e at q) v

  pub run_at-IsValid :
      (p : Place)
      → Ranges order s.coordinator.worker_map
      → s.place ≡ p
      → IsValid files s
      → Returns (IsValid files) (run_at files now order s p)
  unfolding run_at
  run_at-IsValid recovering o e v = record {
    consistent =
        recover-Consistent s.type now s.coordinator.work_info s.coordinator.worker_map v.consistent;
    place = tt;
    unique = UniqueKeys-recover now s.coordinator.work_info s.coordinator.worker_map v.unique;
    per_file =
        λ m. length-recover now s.coordinator.work_info s.coordinator.worker_map ∙ v.per_file m;
  }
  run_at-IsValid finding o e v = record {
    consistent = v.consistent;
    place =
        found-PlaceHolds s.coordinator.work_info s.coordinator.worker_map
          (find_ready 0 s.coordinator.work_info) (find_ready-FoundHolds s.coordinator.work_info 0);
    unique = v.unique;
    per_file = v.per_file;
  }
  run_at-IsValid (choosing i) o e v = record {
    consistent = v.consistent;
    place =
        chosen-PlaceHolds s.coordinator.work_info s.coordinator.worker_map i (get_free_worker order)
          (let q = v.place in rw e at q)
          (λ id g.
            let (w, l, r) = get_free_worker-IsIdle order id o.unique g in
            (w, sym (o.same id) ∙ l, r));
    unique = v.unique;
    per_file = v.per_file;
  }
  run_at-IsValid (assigning i id) o e v = assign_at i id e v
  run_at-IsValid (telling i id) o e v = tell_at i id e v
  run_at-IsValid ended o e v = end_at e v
  run_at-IsValid signalling o e v = record {
    consistent = record {
      ids = λ id w l. v.consistent.ids id _ (send_exit-was s.coordinator.worker_map id w l).1.1;
      jobs = λ id w l r. absurd (let i = (send_exit-was s.coordinator.worker_map id w l).0 in cc);
    };
    place = tt;
    unique = UniqueKeys-send_exit s.coordinator.worker_map v.unique;
    per_file = v.per_file;
  }
  run_at-IsValid quitting o e v = elim (Bool-cases (all_death s.coordinator.worker_map)) [
    | inl d ↦
        rw d (record {
          consistent = v.consistent;
          place = tt;
          unique = v.unique;
          per_file = v.per_file;
        })
    | inr d ↦ rw d v
  ]
  run_at-IsValid halted o e v = v

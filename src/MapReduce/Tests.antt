-- ===== src/MapReduce/Tests.antt =====
-- The theorems about MapReduce at a concrete coordinator and at concrete pairs.
use mathlib.Core.List.{Permᴰ}
use mit_6_5840_2024_lab.Common.{
  ℕ, ◌+◌, ◌%◌, ◌≡◌, refl, false, none, some, List, [], ◌∷◌, ◌==◌, if◌then◌else◌, Returns,
}
use mit_6_5840_2024_lab.Common.Int.{pos, int_eq}
use mit_6_5840_2024_lab.Common.Maps.{lookup, insert}
use mit_6_5840_2024_lab.Common.Strings.{Str, str_eq}
use mit_6_5840_2024_lab.MapReduce.Coordinator.{
  free, ready, map, job, no_job, WorkerEntry, System, Place, recovering, finding, choosing,
  assigning, telling, make_coordinator, run_at, register_worker, work_finish, recover, find_ready,
  get_free_worker, assign_work, tell_worker,
}
use mit_6_5840_2024_lab.MapReduce.Assignment.{IsOpen, Ranges}
use mit_6_5840_2024_lab.MapReduce.Valid.{Reported}
use mit_6_5840_2024_lab.MapReduce.Reachable.{
  Reachable, starts, steps, registers, runs, Alone, Reachable-report,
}
use mit_6_5840_2024_lab.MapReduce.Worker.{KeyValue, str_le, ihash, bucket, read_all, do_reducef}
use mit_6_5840_2024_lab.MapReduce.Worker.Groups.{values_of, output_of, IsSorted}
use mit_6_5840_2024_lab.MapReduce.Worker.Partition.{files_for, do_reducef-partition}

abbrev files : List Str
files = (1 ∷ []) ∷ []

abbrev entry : WorkerEntry
entry = record { state = free; work = no_job }

abbrev new_system : System
new_system = make_coordinator files 2

-- Worker 7 has registered.
abbrev one_worker : Place → System
one_worker place = record new_system {
  coordinator = record new_system.coordinator { worker_map = (pos 7, entry) ∷ [] };
  place = place;
}

abbrev assigned : System
assigned = record (one_worker (telling 0 (pos 7))) {
  coordinator = record (one_worker recovering).coordinator {
    work_info = record { state = pos 7; timestamp = 5 } ∷ [];
  };
}

abbrev given : WorkerEntry
given = record { state = ready; work = job map 0 (1 ∷ []) }

abbrev told : System
told = record assigned {
  coordinator = record assigned.coordinator { worker_map = (pos 7, given) ∷ [] };
  place = recovering;
}

registered :
    (register_worker new_system.coordinator (pos 7)).0 ≡ (one_worker recovering).coordinator
unfolding register_worker insert
registered = refl

one_worker-Reachable : Reachable files 2 (one_worker recovering)
unfolding register_worker insert
one_worker-Reachable =
    steps new_system (one_worker recovering) starts (registers new_system (pos 7) refl)

one_order :
    Ranges
      (one_worker recovering).coordinator.worker_map
      (one_worker recovering).coordinator.worker_map
unfolding lookup
one_order = record { unique = (refl, tt); same = λ id. refl }

told-Reachable : Reachable files 2 told
unfolding run_at recover find_ready get_free_worker assign_work tell_worker insert
told-Reachable =
    steps assigned told
      (steps (one_worker (assigning 0 (pos 7))) assigned
        (steps (one_worker (choosing 0)) (one_worker (assigning 0 (pos 7)))
          (steps (one_worker finding) (one_worker (choosing 0))
            (steps (one_worker recovering) (one_worker finding) one_worker-Reachable
              (runs (one_worker recovering) (one_worker finding) 1 _ one_order refl))
            (runs (one_worker finding) (one_worker (choosing 0)) 2 _ one_order refl))
          (runs (one_worker (choosing 0)) (one_worker (assigning 0 (pos 7))) 3 _ one_order refl))
        (runs (one_worker (assigning 0 (pos 7))) assigned 5 _ one_order refl))
      (runs assigned told 6 _ one_order refl)

worker_has_job : lookup (pos 7) told.coordinator.worker_map ≡ some given
unfolding lookup
worker_has_job = refl

Reachable-report_example :
    (map ≡ told.type)
    × IsOpen told.coordinator.work_info 0 (pos 7)
    × Alone told (pos 7) 0
    × Returns
        (λ r. (r.1 ≡ false) × Reported told.coordinator 0 r.0)
        (work_finish told.coordinator (pos 7) 0)
Reachable-report_example =
    Reachable-report files 2 told (pos 7) given map 0 (1 ∷ []) told-Reachable worker_has_job refl
      refl

-- Insertion by key.
abbrev insert_pair : KeyValue → List KeyValue → List KeyValue
insert_pair kv [] = kv ∷ []
insert_pair kv (x ∷ kvs) =
    let rest = insert_pair kv kvs in if str_le kv.key x.key then kv ∷ x ∷ kvs else x ∷ rest

abbrev sort : List KeyValue → List KeyValue
sort [] = []
sort (kv ∷ kvs) = insert_pair kv (sort kvs)

abbrev pair : ℕ → ℕ → KeyValue
pair k v = record { key = k ∷ []; value = v ∷ [] }

abbrev maps : List (List KeyValue)
maps = (pair 4 1 ∷ pair 3 2 ∷ pair 2 9 ∷ []) ∷ (pair 4 5 ∷ []) ∷ []

-- Sums of bytes: keys 2 and 4 go to task 0 of two.
abbrev sum : Str → ℕ
sum [] = 0
sum (b ∷ s) = b + sum s

abbrev count : Str → List Str → Str
count key [] = []
count key (v ∷ vs) = 1 ∷ count key vs

sorted : IsSorted (sort (read_all (files_for sum 2 0 maps)))
unfolding files_for read_all bucket str_le
sorted = ((refl, (refl, tt)), ((refl, tt), (tt, tt)))

permuted : Permᴰ (read_all (files_for sum 2 0 maps)) (sort (read_all (files_for sum 2 0 maps)))
unfolding files_for read_all bucket str_le
permuted = Permᴰ.swap refl refl

do_reducef-partition_example :
    (values : List Str) × Permᴰ (values_of (4 ∷ []) (read_all maps)) values
    × (lookup (4 ∷ []) (do_reducef sort count (files_for sum 2 0 maps))
        ≡ (if ihash sum (4 ∷ []) % 2 == 0 then output_of count (4 ∷ []) values else none))
do_reducef-partition_example = do_reducef-partition sum 2 0 (4 ∷ []) sort count maps sorted permuted

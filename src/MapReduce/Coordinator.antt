-- ===== src/MapReduce/Coordinator.antt =====
-- src/mr/coordinator.go: the RPC handlers, and the critical sections of `run`, `AllocWork` and
-- `Exit`. `none` is an index out of range.
use mit_6_5840_2024_lab.Common.{
  ℕ, ◌+◌, Bool, true, false, not, ◌&&◌, Option, none, some, List, [], ◌∷◌, length, ltb, get_elem?,
  set, replicate, if◌then◌else◌, ◌>>=◌,
}
use mit_6_5840_2024_lab.Common.Int.{ℤ, pos, negsuc, eq_ℤ, int_eq}
use mit_6_5840_2024_lab.Common.Maps.{Map, lookup, insert}
use mit_6_5840_2024_lab.Common.Strings.{Str}

-- enum.go
pub data WorkerState : Type 0 where
  free ready working death exiting : WorkerState

-- "Map" and "Reduce". No other string is ever a type of work.
pub data WorkType : Type 0 where
  map reduce : WorkType

-- The strings that `work` can be: "", "No job", "None", "Exit", or a job. A job's last part is its
-- file, and for a Reduce its number once more.
pub data Work : Type 0 where
  empty no_job none_left exit : Work
  job : WorkType → ℕ → Str → Work

-- `worker`; the zero value is that of `zero_worker`.
pub record WorkerEntry : Type 0 where
  pub state : WorkerState
  pub work : Work

abbrev pub zero_worker : WorkerEntry
zero_worker = record { state = free; work = empty }

-- `workInfo`: `state` is -1 for a finished task, 0 for one that is ready, or a worker's id.
pub record WorkInfo : Type 0 where
  pub state : ℤ
  pub timestamp : ℕ

pub data CoordinatorState : Type 0 where
  starting running leaving gone : CoordinatorState

pub record Coordinator : Type 0 where
  pub worker_map : Map ℤ WorkerEntry
  pub work_info : List WorkInfo
  pub state : CoordinatorState
  pub n_reduce : ℕ

abbrev pub is_death : WorkerState → Bool
is_death death = true
is_death _ = false

abbrev pub is_free : WorkerState → Bool
is_free free = true
is_free _ = false

abbrev pub is_running : CoordinatorState → Bool
is_running running = true
is_running _ = false

abbrev pub worker_at : Coordinator → ℤ → WorkerEntry
worker_at c id = elim (lookup id c.worker_map) [ none ↦ zero_worker | some w ↦ w ]

abbrev pub with_worker : Coordinator → ℤ → WorkerEntry → Coordinator
with_worker c id w = record c { worker_map = insert id w c.worker_map }

-- The handlers. The second component is `reply.IsErr`.
unfoldable pub register_worker : Coordinator → ℤ → Coordinator × Bool
register_worker c id =
    if is_running c.state
    then (with_worker c id (record { state = free; work = no_job }), false)
    else (c, true)

abbrev pub get_worker_info : Coordinator → ℤ → WorkerState × Work
get_worker_info c id = ((worker_at c id).state, (worker_at c id).work)

abbrev pub get_n_reduce : Coordinator → ℕ
get_n_reduce c = c.n_reduce

-- `c.workInfo[i].state = state`
abbrev with_state : List WorkInfo → ℕ → ℤ → Option (List WorkInfo)
with_state infos i state = elim (get_elem? infos i) [
  | none ↦ none
  | some info ↦ some (set infos i (record info { state = state }))
]

-- Both types of work are handled alike.
unfoldable pub work_finish : Coordinator → ℤ → ℕ → Option (Coordinator × Bool)
work_finish c id work_id =
    if is_death (worker_at c id).state
    then some (c, true)
    else (with_state c.work_info work_id (negsuc 0) >>= λ infos. some (
      record (with_worker c id (record { state = free; work = empty })) { work_info = infos },
      false,
    ))

unfoldable pub worker_death : Coordinator → ℤ → Coordinator
worker_death c id = with_worker c id (record { state = death; work = none_left })

-- `work.state != 0 && work.state != -1`
abbrev pub is_assigned : ℤ → Bool
is_assigned id = not (eq_ℤ id (pos 0)) && not (eq_ℤ id (negsuc 0))

-- `time.Since(work.timestamp).Seconds() > 10`, in nanoseconds
abbrev pub is_late : ℕ → WorkInfo → Bool
is_late now info = is_assigned info.state && ltb (info.timestamp + 10000000000) now

-- The first loop of `AllocWork`, the crash recovery.
unfoldable pub recover : ℕ → List WorkInfo → Map ℤ WorkerEntry → List WorkInfo × Map ℤ WorkerEntry
recover now [] m = ([], m)
recover now (info ∷ infos) m =
    let dead = recover now infos (insert info.state (record { state = death; work = empty }) m) in
    let alive = recover now infos m in
    if is_late now info
    then (record info { state = pos 0 } ∷ dead.0, dead.1)
    else (info ∷ alive.0, alive.1)

pub data Found : Type 0 where
  ready_work : ℕ → Found
  is_working nothing_left : Found

abbrev pub later : Bool → Found → Found
later work nothing_left = if work then is_working else nothing_left
later work found = found

-- The second loop, from task `i` on; `size` is the number of tasks.
unfoldable pub find_ready : ℕ → List WorkInfo → Found
find_ready i [] = nothing_left
find_ready i (info ∷ infos) =
    let rest = find_ready (i + 1) infos in
    if eq_ℤ info.state (pos 0) then ready_work i else later (not (eq_ℤ info.state (negsuc 0))) rest

-- `getFreeWorker`, whose -1 is `none`, from the entries in the order in which `range` gives them.
unfoldable pub get_free_worker : Map ℤ WorkerEntry → Option ℤ
get_free_worker [] = none
get_free_worker ((id, w) ∷ m) =
    let rest = get_free_worker m in if is_free w.state then some id else rest

unfoldable pub assign_work : Coordinator → ℕ → ℤ → ℕ → Option Coordinator
assign_work c i id now =
    if ltb i (length c.work_info)
    then some (record c { work_info = set c.work_info i (record { state = id; timestamp = now }) })
    else none

-- `newJob`
abbrev pub new_job : List Str → WorkType → ℕ → Option Work
new_job files map i = elim (get_elem? files i) [ none ↦ none | some file ↦ some (job map i file) ]
new_job files reduce i = some (job reduce i [])

unfoldable pub tell_worker : Coordinator → List Str → WorkType → ℕ → ℤ → Option Coordinator
tell_worker c files type i id =
    new_job files type i >>= λ work. some (with_worker c id (record { state = ready; work = work }))

-- The first loop of `Exit`.
abbrev pub exit_entry : WorkerEntry → WorkerEntry
exit_entry w = if is_death w.state then w else record { state = exiting; work = exit }

unfoldable pub send_exit : Map ℤ WorkerEntry → Map ℤ WorkerEntry
send_exit [] = []
send_exit ((id, w) ∷ m) = (id, exit_entry w) ∷ send_exit m

-- The second.
abbrev pub all_death : Map ℤ WorkerEntry → Bool
all_death [] = true
all_death ((id, w) ∷ m) = is_death w.state && all_death m

-- Where the goroutine of `run` stands between two critical sections, with its local variables.
pub data Place : Type 0 where
  recovering finding ended signalling quitting halted : Place
  choosing : ℕ → Place
  assigning telling : ℕ → ℤ → Place

-- The coordinator with its goroutine: the phase, and the place in it.
pub record System : Type 0 where
  pub coordinator : Coordinator
  pub type : WorkType
  pub place : Place

-- `make([]workInfo, n)`
abbrev pub new_tasks : ℕ → List WorkInfo
new_tasks n = replicate n (record { state = pos 0; timestamp = 0 })

abbrev pub after_finding : Found → Place
after_finding (ready_work i) = choosing i
after_finding is_working = recovering
after_finding nothing_left = ended

abbrev pub after_choosing : ℕ → Option ℤ → Place
after_choosing i none = recovering
after_choosing i (some id) = assigning i id

-- The end of a phase: Reduce follows Map, and `Exit` follows Reduce.
abbrev pub next_phase : System → WorkType → System
next_phase s map = record s {
  coordinator = record s.coordinator { work_info = new_tasks s.coordinator.n_reduce };
  type = reduce;
  place = recovering;
}
next_phase s reduce = record s {
  coordinator = record s.coordinator { state = leaving };
  place = signalling;
}

-- The next critical section of the goroutine of `run`, at time `now`. `order` is the map of workers in
-- the order in which a `range` over it goes now.
unfoldable pub run_at : List Str → ℕ → Map ℤ WorkerEntry → System → Place → Option System
unfolding recover find_ready get_free_worker assign_work tell_worker send_exit
run_at files now order s recovering =
    let r = recover now s.coordinator.work_info s.coordinator.worker_map in
    some (record s {
      coordinator = record s.coordinator { work_info = r.0; worker_map = r.1 };
      place = finding;
    })
run_at files now order s finding =
    some (record s { place = after_finding (find_ready 0 s.coordinator.work_info) })
run_at files now order s (choosing i) =
    some (record s { place = after_choosing i (get_free_worker order) })
run_at files now order s (assigning i id) = assign_work s.coordinator i id now >>= λ c.
    some (record s { coordinator = c; place = telling i id })
run_at files now order s (telling i id) = tell_worker s.coordinator files s.type i id >>= λ c.
    some (record s { coordinator = c; place = recovering })
run_at files now order s ended = some (next_phase s s.type)
run_at files now order s signalling = some (record s {
  coordinator = record s.coordinator { worker_map = send_exit s.coordinator.worker_map };
  place = quitting;
})
run_at files now order s quitting = some (
    if all_death s.coordinator.worker_map
    then record s { coordinator = record s.coordinator { state = gone }; place = halted }
    else s)
run_at files now order s halted = some s

-- `MakeCoordinator` and the beginning of `run`
abbrev pub make_coordinator : List Str → ℕ → System
make_coordinator files n_reduce = record {
  coordinator = record {
    worker_map = [];
    work_info = new_tasks (length files);
    state = running;
    n_reduce = n_reduce;
  };
  type = map;
  place = recovering;
}

-- `Done`
abbrev pub is_done : Coordinator → Bool
is_done c = elim c.state [ gone ↦ true | _ ↦ false ]

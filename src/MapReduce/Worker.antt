-- ===== src/MapReduce/Worker.antt =====
-- src/mr/worker.go: what a worker does with the coordinator's answer, the partition of the pairs that
-- Map emits, and the loop of Reduce. The file system is left out: an intermediate file is the list of
-- the pairs in it.
pub mod Groups
pub mod Partition
use mit_6_5840_2024_lab.Common.{
  ℕ, zero, suc, ◌+◌, ◌%◌, Bool, true, false, ◌&&◌, ◌||◌, List, [], ◌∷◌, ◌++◌, length, ltb, ◌==◌,
  if◌then◌else◌,
}
use mit_6_5840_2024_lab.Common.Strings.{Str, str_beq}
use mit_6_5840_2024_lab.MapReduce.Coordinator.{
  WorkerState, free, ready, working, death, exiting, Work, WorkType, job, map, reduce,
}

pub record KeyValue : Type 0 where
  pub key : Str
  pub value : Str

-- `a[i].Key <= a[j].Key`, the order of Go's strings
unfoldable pub str_le : Str → Str → Bool
str_le [] b = true
str_le (x ∷ a) [] = false
str_le (x ∷ a) (y ∷ b) = ltb x y || ((x == y) && str_le a b)

-- What the loop of `Worker` does after an answer.
pub data Action : Type 0 where
  waits quits : Action
  maps : ℕ → Str → Action
  reduces : ℕ → Action

-- `do_it`
abbrev pub do_it : Work → Action
do_it (job map id file) = maps id file
do_it (job reduce id arg) = reduces id
do_it _ = waits

abbrev pub next_action : WorkerState → Work → Action
next_action ready work = do_it work
next_action exiting work = quits
next_action _ work = waits

-- `h.Sum32() & 0x7fffffff`, where `sum32` is FNV-1a.
abbrev pub ihash : (Str → ℕ) → Str → ℕ
ihash sum32 key = sum32 key % 2147483648

-- The pairs that `do_mapf` writes for the reduce task `i`.
unfoldable pub bucket : (Str → ℕ) → ℕ → ℕ → List KeyValue → List KeyValue
bucket sum32 n_reduce i [] = []
bucket sum32 n_reduce i (kv ∷ kvs) =
    let rest = bucket sum32 n_reduce i kvs in
    if ihash sum32 kv.key % n_reduce == i then kv ∷ rest else rest

-- All files of `do_mapf`, from the reduce task `i` on, `left` of them.
unfoldable pub buckets : (Str → ℕ) → ℕ → ℕ → ℕ → List KeyValue → List (List KeyValue)
unfolding bucket
buckets sum32 n_reduce i zero kvs = []
buckets sum32 n_reduce i (suc left) kvs =
    bucket sum32 n_reduce i kvs ∷ buckets sum32 n_reduce (i + 1) left kvs

-- The pairs that `do_reducef` reads: the contents of the files of all map tasks.
unfoldable pub read_all : List (List KeyValue) → List KeyValue
read_all [] = []
read_all (file ∷ files) = file ++ read_all files

-- The inner loops of `do_reducef`: the values of the pairs with the key `key`, up to the first one
-- with another key, and what is left from there on.
unfoldable pub values_of_run : Str → List KeyValue → List Str × List KeyValue
values_of_run key [] = ([], [])
values_of_run key (kv ∷ kvs) =
    let rest = values_of_run key kvs in
    if str_beq kv.key key then (kv.value ∷ rest.0, rest.1) else ([], kv ∷ kvs)

-- The loop of `do_reducef`: the keys with their outputs. There are no more rounds than pairs.
unfoldable pub reduce_runs : (Str → List Str → Str) → ℕ → List KeyValue → List (Str × Str)
unfolding values_of_run
reduce_runs reducef zero kva = []
reduce_runs reducef (suc fuel) [] = []
reduce_runs reducef (suc fuel) (kv ∷ kva) =
    let run = values_of_run kv.key kva in
    (kv.key, reducef kv.key (kv.value ∷ run.0)) ∷ reduce_runs reducef fuel run.1

-- `do_reducef`; `sort` is `sort.Sort(ByKey(kva))`.
unfoldable pub do_reducef :
    (List KeyValue → List KeyValue)
    → (Str → List Str → Str)
    → List (List KeyValue)
    → List (Str × Str)
unfolding read_all reduce_runs
do_reducef sort reducef files =
    let kva = sort (read_all files) in reduce_runs reducef (length kva) kva

-- ===== src/Raft/Index.antt =====
-- src/raft/raft.go: the two numberings of the log. The internal one counts every entry, the
-- external one, which the service sees, leaves the no-op entries out.
pub mod Local
pub mod Numbering
use mit_6_5840_2024_lab.Common.{
  ℕ, zero, suc, ◌+◌, Option, none, some, List, [], ◌∷◌, length, get_elem?, drop, take, leb,
  if◌then◌else◌, ◌>>=◌,
}
use mit_6_5840_2024_lab.Common.Int.{ℤ, pos, negsuc, sub_ℕ, eq_ℤ}
use mit_6_5840_2024_lab.Raft.Types.{LogEntry, Raft, is_noop, entries}

module _ {C : Type 0} where
  -- `rf.log[i]`: no index below 0 or past the end
  abbrev pub get_ℤ : List (LogEntry C) → ℤ → Option (LogEntry C)
  get_ℤ l (pos i) = get_elem? l i
  get_ℤ l (negsuc i) = none

  -- `rf.log[i:]`
  abbrev pub slice_from : List (LogEntry C) → ℤ → Option (List (LogEntry C))
  slice_from l (pos i) = if leb i (length l) then some (drop i l) else none
  slice_from l (negsuc i) = none

  -- `rf.log[:i]`
  abbrev pub slice_to : List (LogEntry C) → ℤ → Option (List (LogEntry C))
  slice_to l (pos i) = if leb i (length l) then some (take i l) else none
  slice_to l (negsuc i) = none

  -- The loop of `externalIndex`: how many of the first `n` entries are no no-ops.
  unfoldable pub count_external : List (LogEntry C) → ℕ → Option ℕ
  count_external l zero = some 0
  count_external [] (suc n) = none
  count_external (e ∷ l) (suc n) = do
    count ← count_external l n
    some (if is_noop e.type then count else suc count)

  -- The loop of `internalIndex` from `log[i]` on; `index` is its variable of that name.
  unfoldable pub find_internal : List (LogEntry C) → ℕ → ℕ → ℤ → ℕ → ℕ
  find_internal [] i cnt target index = index
  find_internal (e ∷ l) i cnt target index =
      let cnt' : ℕ = if is_noop e.type then cnt else cnt + 1 in
      let later = find_internal l (i + 1) cnt' target i in
      if eq_ℤ (pos cnt') target then i else later

module _ {C B : Type 0} (rf : Raft C B) where
  -- `rf.log[0].Index`
  abbrev pub base : ℕ
  base = rf.log.first.index

  abbrev pub local_index : ℕ → ℤ
  local_index global = sub_ℕ global base

  abbrev pub global_index : ℕ → ℕ
  global_index local = local + base

  abbrev pub log_len : ℕ
  log_len = length (entries rf.log)

  abbrev pub global_log_len : ℕ
  global_log_len = log_len + base

  unfoldable pub internal_index : ℕ → ℕ
  unfolding find_internal
  internal_index external =
      global_index (find_internal (entries rf.log) 0 0 (sub_ℕ external rf.snapshot_index) 0)

  abbrev target_of : ℤ → ℕ
  target_of (pos n) = n
  target_of (negsuc n) = 0

  -- `log[1]` is the first entry that the loop reads.
  unfoldable pub external_index : ℕ → Option ℕ
  unfolding count_external
  external_index internal = do
    index ← count_external rf.log.rest (target_of (sub_ℕ internal base))
    some (index + rf.snapshot_index)

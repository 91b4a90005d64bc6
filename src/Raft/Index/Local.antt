-- ===== src/Raft/Index/Local.antt =====
-- Where a global index lies in the log.
use mit_6_5840_2024_lab.Common.{
  ℕ, suc, ◌+◌, ◌-◌, ◌≤◌, ◌<◌, ◌≡◌, some, List, ◌∷◌, arith, length, get_elem?, take, drop,
}
use mit_6_5840_2024_lab.Common.Int.{pos, negsuc, sub_ℕ}
use mit_6_5840_2024_lab.Raft.Types.{LogEntry, Raft, entries}
use mit_6_5840_2024_lab.Raft.Index.{base, local_index, global_log_len, get_ℤ, slice_from, slice_to}

pub sub_ℕ-pos : (a b : ℕ) → b ≤ a → sub_ℕ a b ≡ pos (a - b)
sub_ℕ-pos a b h = ground arith

pub sub_ℕ-neg : (a b : ℕ) → a < b → sub_ℕ a b ≡ negsuc (b - a - 1)
sub_ℕ-neg a b h = ground arith

module _ {C : Type 0} where
  slice_to-pos :
      (l : List (LogEntry C)) (n : ℕ) → n ≤ length l → slice_to l (pos n) ≡ some (take n l)
  slice_to-pos l n h = ground arith

  slice_from-pos :
      (l : List (LogEntry C)) (n : ℕ) → n ≤ length l → slice_from l (pos n) ≡ some (drop n l)
  slice_from-pos l n h = ground arith

module _ {C B : Type 0} (rf : Raft C B) where
  pub local_index-pos : (i : ℕ) → base rf ≤ i → local_index rf i ≡ pos (i - base rf)
  local_index-pos i h = sub_ℕ-pos i (base rf) h

  -- `log[:localIndex(i+1)]` for an index in the log
  pub slice_to-local :
      (i : ℕ)
      → base rf ≤ i
      → i < global_log_len rf
      → slice_to (entries rf.log) (local_index rf (i + 1))
        ≡ some (rf.log.first ∷ take (i - base rf) rf.log.rest)
  slice_to-local i low high =
      let e : i + 1 - base rf ≡ suc (i - base rf) = omega arith in
      rw (sub_ℕ-pos (i + 1) (base rf) (omega arith), e)
        (slice_to-pos (entries rf.log) _ (omega arith))

  -- `log[localIndex(i):]`
  pub slice_from-local :
      (i : ℕ)
      → base rf ≤ i
      → i ≤ global_log_len rf
      → slice_from (entries rf.log) (local_index rf i) ≡ some (drop (i - base rf) (entries rf.log))
  slice_from-local i low high =
      rw (sub_ℕ-pos i (base rf) low) (slice_from-pos (entries rf.log) _ (omega arith))

  -- `log[localIndex(i)]`
  pub get_ℤ-local :
      (i : ℕ)
      → base rf ≤ i
      → get_ℤ (entries rf.log) (local_index rf i) ≡ get_elem? (entries rf.log) (i - base rf)
  get_ℤ-local i low = rw (sub_ℕ-pos i (base rf) low)

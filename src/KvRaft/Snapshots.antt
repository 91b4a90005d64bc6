-- ===== src/KvRaft/Snapshots.antt =====
-- `Snapshot` of a Raft peer never panics, so a server can always make its snapshot.
use mit_6_5840_2024_lab.Common.{
  ℕ, ◌+◌, ◌-◌, ◌<◌, ◌≡◌, List, [], ◌∷◌, arith, length, drop-get_elem?, get_elem?-in_range, Returns,
}
use mit_6_5840_2024_lab.Common.Int.{ℤ, pos, sub_ℕ}
use mit_6_5840_2024_lab.Raft.Types.{LogEntry, Codec, Raft, entries}
use mit_6_5840_2024_lab.Raft.Index.{base, find_internal, internal_index, local_index}
use mit_6_5840_2024_lab.Raft.Index.Local.{local_index-pos}
use mit_6_5840_2024_lab.Raft.Persist.{take_snapshot}

find_internal-bound :
    {C : Type 0} (l : List (LogEntry C)) (i cnt : ℕ) (target : ℤ) (index : ℕ)
    → index < i + length l
    → find_internal l i cnt target index < i + length l
unfolding find_internal
find_internal-bound [] i cnt target index h = omega arith
find_internal-bound (e ∷ l) i cnt target index h = ground (
  arith,
  find_internal-bound l (i + 1) cnt target i,
  find_internal-bound l (i + 1) (cnt + 1) target i,
)

module _ {C B : Type 0} ⦃codec : Codec C B⦄ where
  pub take_snapshot-Returns :
      (rf : Raft C B) (index : ℕ) (snapshot : B)
      → Returns (λ rf'. rf'.peers ≡ rf.peers) (take_snapshot rf index snapshot)
  unfolding take_snapshot internal_index
  take_snapshot-Returns rf index snapshot =
      let prev : ℕ = internal_index rf index in
      let k : ℕ = prev - base rf in
      let inside =
        find_internal-bound (entries rf.log) 0 0 (sub_ℕ index rf.snapshot_index) 0 (omega arith) in
      let at : local_index rf prev ≡ pos k = local_index-pos rf prev (omega arith) in
      let (e, g) = get_elem?-in_range (entries rf.log) k (omega arith) in
      ground (arith, drop-get_elem? (entries rf.log) k g)

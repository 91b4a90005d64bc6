-- ===== src/ShardCtrler/Rebalance.antt =====
-- src/shardctrler/server.go: `rebalance`. Group ids are natural numbers, 0 for none.
use mit_6_5840_2024_lab.Common.{
  ℕ, zero, suc, ◌-◌, Bool, true, false, not, ◌&&◌, Option, none, some, List, [], ◌∷◌, ◌++◌, length,
  get_elem?, set, take, leb, ◌==◌, if◌then◌else◌, ◌>>=◌,
}

-- common.go
abbrev pub n_shards : ℕ
n_shards = 10

-- `GS`, a group and its shards
pub record Gs : Type 0 where
  pub gid : ℕ
  pub shards : List ℕ

abbrev pub gids : List Gs → List ℕ
gids [] = []
gids (gs ∷ gss) = gs.gid ∷ gids gss

abbrev pub is_in : ℕ → List ℕ → Bool
is_in gid [] = false
is_in gid (g ∷ rest) = if g == gid then true else is_in gid rest

-- `gid2Index[gid]`, which is 0 for a gid that is not there
unfoldable pub index_of : ℕ → List ℕ → ℕ
index_of gid [] = 0
index_of gid (g ∷ rest) =
    let later = index_of gid rest in if g == gid then 0 else if is_in gid rest then suc later else 0

-- The group of the loop variables `minGid` or `maxGid`.
pub record Extremes : Type 0 where
  pub min_num : ℕ
  pub min_gid : ℕ
  pub max_num : ℕ
  pub max_gid : ℕ

-- The inner loop over `GSs`.
unfoldable pub scan : Extremes → List Gs → Extremes
scan x [] = x
scan x (gs ∷ gss) =
    scan
      (record {
        min_num = if leb (length gs.shards) x.min_num then length gs.shards else x.min_num;
        min_gid = if leb (length gs.shards) x.min_num then gs.gid else x.min_gid;
        max_num = if leb x.max_num (length gs.shards) then length gs.shards else x.max_num;
        max_gid = if leb x.max_num (length gs.shards) then gs.gid else x.max_gid;
      })
      gss

abbrev pub extremes : List Gs → Extremes
extremes gss = scan (record { min_num = 10000000000; min_gid = 0; max_num = 0; max_gid = 0 }) gss

-- `shards[len(shards)-1]`
abbrev pub last_shard : List ℕ → Option ℕ
last_shard shards = get_elem? shards (length shards - 1)

-- `shards[0 : len(shards)-1]`
abbrev pub but_last : List ℕ → List ℕ
but_last shards = take (length shards - 1) shards

-- Give a shard to the group at an index: `none` is an index out of range.
abbrev pub with_shard : List Gs → ℕ → ℕ → Option (List Gs)
with_shard gss i shard = do
  gs ← get_elem? gss i
  some (set gss i (record gs { shards = gs.shards ++ shard ∷ [] }))

-- `GSs[gid2Index[minGid]].Shards` and `GSs[gid2Index[maxGid]].Shards` after the move of a shard.
unfoldable pub move_shard : List Gs → ℕ → ℕ → Option (List Gs)
move_shard gss low high = do
  from ← get_elem? gss high
  moved ← last_shard from.shards
  gss1 ← with_shard gss low moved
  some (set gss1 high (record from { shards = but_last from.shards }))

-- One round: an orphan goes to the smallest group, or a shard of the largest group does.
unfoldable pub spread_step : List Gs → List ℕ → Option (List Gs × List ℕ)
unfolding scan index_of move_shard
spread_step gss orphans =
    let x = extremes gss in
    let low = index_of x.min_gid (gids gss) in
    if not (length orphans == 0)
    then (do
      orphan ← last_shard orphans
      gss1 ← with_shard gss low orphan
      some (gss1, but_last orphans))
    else (do gss1 ← move_shard gss low (index_of x.max_gid (gids gss)); some (gss1, orphans))

-- The stop condition.
unfoldable pub is_spread : List Gs → List ℕ → Bool
unfolding scan
is_spread gss orphans =
    leb ((extremes gss).max_num - (extremes gss).min_num) 1 && length orphans == 0

-- The loop. `none` is a panic, or a loop that goes on after `fuel` rounds.
unfoldable pub spread : ℕ → List Gs → List ℕ → Option (List Gs)
unfolding spread_step is_spread
spread zero gss orphans = none
spread (suc fuel) gss orphans = elim (is_spread gss orphans) [
  | true ↦ some gss
  | false ↦ spread_step gss orphans >>= λ (gss1, orphans1). spread fuel gss1 orphans1
]

-- ===== src/ShardCtrler/Configs.antt =====
-- src/shardctrler/server.go: `rebalance` around its loop, and the configurations that Join, Leave
-- and Move make.
use mit_6_5840_2024_lab.Common.{
  ℕ, ◌+◌, ◌-◌, not, ◌||◌, Option, none, some, List, [], ◌∷◌, ◌++◌, length, get_elem?, set, ltb,
  ◌==◌, replicate, if◌then◌else◌, ◌>>=◌,
}
use mit_6_5840_2024_lab.Common.Maps.{Map, insert, delete, nat_eq}
use mit_6_5840_2024_lab.Common.Strings.{Str}
use mit_6_5840_2024_lab.ShardCtrler.Rebalance.{
  Gs, n_shards, gids, is_in, index_of, with_shard, spread,
}

-- `shards` is the array from shards to gids.
pub record Config : Type 0 where
  pub num : ℕ
  pub shards : List ℕ
  pub groups : Map ℕ (List Str)

-- `sc.configs` of a new server
abbrev pub initial_configs : List Config
initial_configs = record { num = 0; shards = replicate n_shards 0; groups = [] } ∷ []

-- The loop over `newConfig.Groups`, whose order the sort below makes good.
unfoldable pub groups_of : Map ℕ (List Str) → List Gs
groups_of [] = []
groups_of ((gid, servers) ∷ rest) = record { gid = gid; shards = [] } ∷ groups_of rest

-- The loop over `oldConfig.Shards`, from shard `n` on: a shard goes to its group, or is an orphan.
unfoldable pub collect : List ℕ → ℕ → List Gs → List ℕ → Option (List Gs × List ℕ)
unfolding index_of
collect [] n gss orphans = some (gss, orphans)
collect (gid ∷ rest) n gss orphans =
    let lost = gid == 0 || not (is_in gid (gids gss)) in
    (if lost then some gss else with_shard gss (index_of gid (gids gss)) n) >>= λ gss1.
    collect rest (n + 1) gss1 (if lost then orphans ++ n ∷ [] else orphans)

-- `sort.Slice` by gid
unfoldable pub insert_by_gid : Gs → List Gs → List Gs
insert_by_gid gs [] = gs ∷ []
insert_by_gid gs (x ∷ gss) =
    let later = insert_by_gid gs gss in if ltb gs.gid x.gid then gs ∷ x ∷ gss else x ∷ later

unfoldable pub sort_by_gid : List Gs → List Gs
unfolding insert_by_gid
sort_by_gid [] = []
sort_by_gid (gs ∷ gss) = insert_by_gid gs (sort_by_gid gss)

-- `newShards[shard] = gs.Gid`, where `none` is an index out of range
unfoldable pub assign_group : List ℕ → ℕ → List ℕ → Option (List ℕ)
assign_group [] gid array = some array
assign_group (shard ∷ shards) gid array =
    (if ltb shard (length array) then some (set array shard gid) else none) >>= λ array1.
    assign_group shards gid array1

unfoldable pub assign : List Gs → List ℕ → Option (List ℕ)
unfolding assign_group
assign [] array = some array
assign (gs ∷ gss) array = do array1 ← assign_group gs.shards gs.gid array; assign gss array1

-- Ten shards need at most ten rounds for the orphans and a hundred for the moves.
abbrev pub fuel : ℕ
fuel = 111

unfoldable pub rebalance : List ℕ → Config → Option Config
unfolding collect spread assign groups_of sort_by_gid
rebalance old_shards new_config = elim (groups_of new_config.groups) [
  | [] ↦ some (record new_config { shards = replicate n_shards 0 })
  | ◌∷◌ gs gss ↦ do
    (gss1, orphans) ← collect old_shards 0 (gs ∷ gss) []
    gss2 ← spread fuel (sort_by_gid gss1) orphans
    shards ← assign gss2 (replicate n_shards 0)
    some (record new_config { shards = shards })
]

-- `newConfig.Groups[key] = value` for all new groups
unfoldable pub insert_all : Map ℕ (List Str) → Map ℕ (List Str) → Map ℕ (List Str)
insert_all [] groups = groups
insert_all ((gid, servers) ∷ rest) groups = insert_all rest (insert gid servers groups)

unfoldable pub delete_all : List ℕ → Map ℕ (List Str) → Map ℕ (List Str)
delete_all [] groups = groups
delete_all (gid ∷ rest) groups = delete_all rest (delete gid groups)

-- The operations that change the configuration, with their arguments.
pub data Change : Type 0 where
  join : Map ℕ (List Str) → Change
  leave : List ℕ → Change
  move : ℕ → ℕ → Change

abbrev pub last_config : List Config → Option Config
last_config configs = get_elem? configs (length configs - 1)

abbrev pub next_config : Config → Config
next_config old = record old { num = old.num + 1 }

-- The configuration that a change makes of the last one.
unfoldable pub changed : Config → Change → Option Config
unfolding rebalance insert_all delete_all
changed old (join servers) =
    rebalance old.shards (record (next_config old) { groups = insert_all servers old.groups })
changed old (leave gs) =
    rebalance old.shards (record (next_config old) { groups = delete_all gs old.groups })
changed old (move shard gid) =
    if ltb shard (length old.shards)
    then some (record (next_config old) { shards = set old.shards shard gid })
    else none

-- `applyOp` for all but Query
unfoldable pub apply_change : List Config → Change → Option (List Config)
unfolding changed
apply_change configs change = do
  old ← last_config configs
  new ← changed old change
  some (configs ++ new ∷ [])

-- ===== src/ShardCtrler/Tests.antt =====
-- The theorem about `rebalance` at concrete groups.
use mit_6_5840_2024_lab.Common.{ℕ, ◌≡◌, refl, some, List, [], ◌∷◌, arith, Returns}
use mit_6_5840_2024_lab.ShardCtrler.Rebalance.{Gs, spread}
use mit_6_5840_2024_lab.Common.{replicate}
use mit_6_5840_2024_lab.ShardCtrler.Configs.{Config, rebalance, groups_of}
use mit_6_5840_2024_lab.ShardCtrler.Placement.{Placed, rebalance-Placed}
use mit_6_5840_2024_lab.ShardCtrler.Spread.{IsReady, Spread, spread-Spread}

-- Group 3 has joined, and group 4 has left its shards 8 and 9.
abbrev groups : List Gs
groups =
    record { gid = 1; shards = 0 ∷ 1 ∷ 2 ∷ 3 ∷ [] }
    ∷ record { gid = 2; shards = 4 ∷ 5 ∷ 6 ∷ 7 ∷ [] }
    ∷ record { gid = 3; shards = [] }
    ∷ []

abbrev orphans : List ℕ
orphans = 8 ∷ 9 ∷ []

groups-IsReady : IsReady groups orphans
groups-IsReady = record {
  distinct = (refl, (refl, (refl, tt)));
  some_group = omega arith;
  few = omega arith;
}

spread-Spread_example : Returns (Spread groups orphans) (spread 111 groups orphans)
spread-Spread_example = spread-Spread 111 groups orphans groups-IsReady (omega arith)

spread_run :
    spread 111 groups orphans
    ≡ some (
        record { gid = 1; shards = 0 ∷ 1 ∷ 2 ∷ 3 ∷ [] }
        ∷ record { gid = 2; shards = 4 ∷ 5 ∷ 6 ∷ [] }
        ∷ record { gid = 3; shards = 9 ∷ 8 ∷ 7 ∷ [] }
        ∷ [])
unfolding spread
spread_run = refl

abbrev two_groups : Config
two_groups = record { num = 2; shards = replicate 10 0; groups = (2, []) ∷ (1, []) ∷ [] }

abbrev old_shards : List ℕ
old_shards = 1 ∷ 1 ∷ 1 ∷ 1 ∷ 1 ∷ 1 ∷ 1 ∷ 3 ∷ 3 ∷ 0 ∷ []

rebalance-Placed_example : Returns (Placed two_groups) (rebalance old_shards two_groups)
unfolding groups_of
rebalance-Placed_example =
    rebalance-Placed old_shards two_groups refl (omega arith) (refl, (refl, tt))

rebalance_run :
    rebalance old_shards two_groups
    ≡ some (record two_groups { shards = 1 ∷ 1 ∷ 1 ∷ 1 ∷ 1 ∷ 2 ∷ 2 ∷ 2 ∷ 2 ∷ 2 ∷ [] })
unfolding rebalance
rebalance_run = refl

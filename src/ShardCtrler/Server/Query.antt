-- ===== src/ShardCtrler/Server/Query.antt =====
-- src/shardctrler/server.go: what Query tells of the configurations.
use mit_6_5840_2024_lab.Common.{
  ℕ, ◌-◌, ◌<◌, ◌≡◌, refl, some, List, arith, length, get_elem?, leb, if◌then◌else◌, Returns,
  get_elem?-in_range,
}
use mit_6_5840_2024_lab.Common.Int.{ℤ, pos, negsuc}
use mit_6_5840_2024_lab.Common.Maps.{nat_eq}
use mit_6_5840_2024_lab.ShardCtrler.Configs.{Config}
use mit_6_5840_2024_lab.ShardCtrler.History.{IsSound}
use mit_6_5840_2024_lab.ShardCtrler.Server.{ShardCtrler, query, config_at, success_commit}
use mit_6_5840_2024_lab.ShardCtrler.Server.Numbers.{Numbered}

-- The number that a Query asks for: its own, or that of the last configuration.
abbrev pub wanted : List Config → ℤ → ℕ
wanted configs (pos num) = if leb (length configs) num then length configs - 1 else num
wanted configs (negsuc n) = length configs - 1

abbrev pub IsNumber : ℤ → Type 0
IsNumber (pos num) = Unit
IsNumber (negsuc n) = n ≡ 0

config_at-get_elem? :
    (configs : List Config) (num : ℤ)
    → IsNumber num
    → config_at configs num ≡ get_elem? configs (wanted configs num)
unfolding config_at
config_at-get_elem? configs (pos num) h = ground arith
config_at-get_elem? configs (negsuc n) h = rw h refl

wanted_bound :
    (configs : List Config) (num : ℤ) → 0 < length configs → wanted configs num < length configs
wanted_bound configs (pos num) h = ground arith
wanted_bound configs (negsuc n) h = omega arith

-- At a controller whose configurations are sound and numbered by their places, a Query with number
-- -1 or a number that is not negative is answered without a panic, with a sound configuration: the
-- one of that number, or the last one if the number is -1 or there is no such configuration yet.
pub success_commit-query :
    {B : Type 0} (sc : ShardCtrler B) (num : ℤ)
    → Numbered sc.configs
    → IsNumber num
    → Returns
        (λ reply.
          (c : Config) × (reply.config ≡ some c) × IsSound c × (c.num ≡ wanted sc.configs num))
        (success_commit sc (query num))
unfolding success_commit
success_commit-query sc num v h =
    let (c, e) =
      get_elem?-in_range sc.configs (wanted sc.configs num)
        (wanted_bound sc.configs num v.some_config) in
    let p = v.each (wanted sc.configs num) c e in
    rw (config_at-get_elem? sc.configs num h) (rw e (c, refl, p.0, p.1))

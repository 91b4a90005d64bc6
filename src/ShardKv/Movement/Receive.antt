-- ===== src/ShardKv/Movement/Receive.antt =====
-- src/shardkv/server.go: what `MoveShards` asks the other groups for.
use mit_6_5840_2024_lab.Common.{
  ℕ, zero, suc, ◌+◌, ◌<◌, ◌≡◌, ◌≢◌, refl, ◌∙◌, Bool, true, false, not, ◌&&◌, ◌||◌, some, List, [],
  ◌∷◌, arith, get_elem?, ==_iff, ◌==◌, if◌then◌else◌,
}
use mit_6_5840_2024_lab.Common.Maps.{Map, lookup, insert, lookup_or, lookup-insert, nat_eq}
use mit_6_5840_2024_lab.ShardCtrler.Configs.{Config}
use mit_6_5840_2024_lab.ShardKv.Types.{ShardKv}
use mit_6_5840_2024_lab.ShardKv.Movement.{receive_from, to_receive}

-- Shard `i` is to be received from group `gid`.
abbrev pub needs : Map ℕ (Map ℕ Bool) → ℕ → ℕ → Bool
needs from gid i = lookup_or i (lookup_or gid from []) false

abbrev step : ℕ → ℕ → ℕ → ℕ → Map ℕ (Map ℕ Bool) → Map ℕ (Map ℕ Bool)
step me k old new from =
    if not (old == me) && (new == me)
    then insert old (insert k true (lookup_or old from [])) from
    else from

module _ (me gid i : ℕ) where
  needs-step :
      (k old new : ℕ) (from : Map ℕ (Map ℕ Bool))
      → needs (step me k old new from) gid i
        ≡ (((k == i) && (old == gid) && not (old == me) && (new == me)) || needs from gid i)
  needs-step k old new from = ground (
    arith,
    ==_iff old gid,
    lookup-insert old gid (insert k true (lookup_or old from [])) from,
    lookup-insert k i true (lookup_or old from []),
  )

  needs-receive_from_below :
      (k : ℕ) (olds news : List ℕ) (from : Map ℕ (Map ℕ Bool))
      → i < k
      → needs (receive_from me k olds news from) gid i ≡ needs from gid i
  unfolding receive_from
  needs-receive_from_below k [] news from h = refl
  needs-receive_from_below k (old ∷ olds) [] from h = refl
  needs-receive_from_below k (old ∷ olds) (new ∷ news) from h =
      needs-receive_from_below (k + 1) olds news (step me k old new from) (omega arith)
      ∙ (let s = needs-step k old new from in ground arith)

  needs-receive_from :
      (k j : ℕ) (olds news : List ℕ) (from : Map ℕ (Map ℕ Bool)) {old new : ℕ}
      → k + j ≡ i
      → get_elem? olds j ≡ some old
      → get_elem? news j ≡ some new
      → needs from gid i ≡ false
      → needs (receive_from me k olds news from) gid i
        ≡ ((old == gid) && not (old == me) && (new == me))
  unfolding receive_from
  needs-receive_from k j [] news from e o n f = absurd (cc)
  needs-receive_from k j (old ∷ olds) [] from e o n f = absurd (cc)
  needs-receive_from k zero (old ∷ olds) (new ∷ news) from e o n f =
      needs-receive_from_below (k + 1) olds news (step me k old new from) (omega arith)
      ∙ (let s = needs-step k old new from in ground arith)
  needs-receive_from k (suc j) (old ∷ olds) (new ∷ news) from e o n f =
      needs-receive_from (k + 1) j olds news (step me k old new from) (omega arith) o n
        (let s = needs-step k old new from in ground arith)

-- On its way from a configuration, which is not the first one, to one with another number, a server
-- asks a group for exactly the shards that the group has in the old configuration and that go to the
-- server's own group, another one, in the new: of no group it asks for a shard that is not moved, or
-- that another group has. What group 0 has, which is no group, is asked for like the rest.
pub needs-to_receive :
    {B : Type 0} (kv : ShardKv B) (new : Config) (gid i : ℕ) {old_gid new_gid : ℕ}
    → kv.config.num ≢ 0
    → kv.config.num ≢ new.num
    → get_elem? kv.config.shards i ≡ some old_gid
    → get_elem? new.shards i ≡ some new_gid
    → needs (to_receive kv new) gid i
      ≡ ((old_gid == gid) && not (old_gid == kv.gid) && (new_gid == kv.gid))
unfolding to_receive lookup
needs-to_receive kv new gid i {old_gid} {new_gid} h h' o n =
    let r =
      needs-receive_from kv.gid gid i 0 i kv.config.shards new.shards [] (omega arith) o n refl in
    ground arith

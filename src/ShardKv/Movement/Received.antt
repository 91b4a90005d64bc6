-- ===== src/ShardKv/Movement/Received.antt =====
-- src/shardkv/server.go: the shards that `MoveShards` asks for are the group's own in the new
-- configuration, so its movements are calls on the way to that configuration.
use mit_6_5840_2024_lab.Common.{
  ℕ, ◌+◌, ◌≡◌, ap, sym, subst, ◌∙◌, Bool, true, not, ◌&&◌, ◌||◌, some, List, [], ◌∷◌, arith,
  get_elem?, Bool-cases, inl, inr, ==_iff, ◌==◌, zero, suc,
}
use mit_6_5840_2024_lab.Common.Maps.{Map, insert, lookup, lookup_or, lookup-insert, nat_eq}
use mit_6_5840_2024_lab.ShardCtrler.Configs.{Config}
use mit_6_5840_2024_lab.ShardKv.Types.{ShardKv}
use mit_6_5840_2024_lab.ShardKv.Movement.{receive_from, to_receive}
use mit_6_5840_2024_lab.ShardKv.Movement.Within.{AllTo}

module _ (me : ℕ) (all : List ℕ) where
  AllTo-insert :
      (i : ℕ) (b : Bool) (shards : Map ℕ Bool)
      → get_elem? all i ≡ some me
      → AllTo me all shards
      → AllTo me all (insert i b shards)
  unfolding insert
  AllTo-insert i b [] e a = (e, tt)
  AllTo-insert i b ((j, c) ∷ shards) e (f, a) = elim (Bool-cases (j == i)) [
    | inl t ↦ rw t (e, a)
    | inr t ↦ rw t (f, AllTo-insert i b shards e a)
  ]

  -- Every set of shards to receive.
  abbrev AllSets : Map ℕ (Map ℕ Bool) → Type 0
  AllSets from = (gid : ℕ) → AllTo me all (lookup_or gid from [])

  AllSets-insert :
      (gid : ℕ) (shards : Map ℕ Bool) (from : Map ℕ (Map ℕ Bool))
      → AllTo me all shards
      → AllSets from
      → AllSets (insert gid shards from)
  AllSets-insert gid shards from a h j =
      let l = lookup-insert gid j shards from in
      elim (Bool-cases (gid == j)) [
        | inl t ↦
            let now : lookup_or j (insert gid shards from) [] ≡ shards = ground arith in
            subst (AllTo me all) (sym now) a
        | inr t ↦
            let now : lookup_or j (insert gid shards from) [] ≡ lookup_or j from [] =
              ground arith in
            subst (AllTo me all) (sym now) (h j)
      ]

  receive_from-AllSets :
      (k : ℕ) (olds news : List ℕ) (from : Map ℕ (Map ℕ Bool))
      → ((i : ℕ) → get_elem? news i ≡ get_elem? all (k + i))
      → AllSets from
      → AllSets (receive_from me k olds news from)
  unfolding receive_from
  receive_from-AllSets k [] news from e h = h
  receive_from-AllSets k (old ∷ olds) [] from e h = h
  receive_from-AllSets k (old ∷ olds) (new ∷ news) from e h =
      let tail : (i : ℕ) → get_elem? news i ≡ get_elem? all (k + 1 + i) =
        λ i. e (suc i) ∙ ap (get_elem? all) (let s : k + suc i ≡ k + 1 + i = omega arith in s) in
      elim (Bool-cases (not (old == me) && (new == me))) [
        | inl t ↦ rw t (
            receive_from-AllSets (k + 1) olds news
              (insert old (insert k true (lookup_or old from [])) from) tail
              (AllSets-insert old (insert k true (lookup_or old from [])) from
                (AllTo-insert k true (lookup_or old from [])
                  (let z = e zero in
                    let s : k + 0 ≡ k = omega arith in
                    let n : new ≡ me = ground (arith, ==_iff new me) in
                    let z' = rw (s, n) at z in sym z')
                  (h old))
                h))
        | inr t ↦ rw t (receive_from-AllSets (k + 1) olds news from tail h)
      ]

-- What is asked of any group is the server's own in the new configuration.
pub to_receive-AllTo :
    {B : Type 0} (kv : ShardKv B) (new : Config) (gid : ℕ)
    → AllTo kv.gid new.shards (lookup_or gid (to_receive kv new) [])
unfolding to_receive lookup
to_receive-AllTo kv new gid =
    elim (Bool-cases ((kv.config.num == 0) || (kv.config.num == new.num))) [
      | inl t ↦ rw t tt
      | inr t ↦ rw t (
          receive_from-AllSets kv.gid new.shards 0 kv.config.shards new.shards []
            (λ i. ap (get_elem? new.shards) (let s : i ≡ 0 + i = omega arith in s)) (λ g. tt) gid)
    ]

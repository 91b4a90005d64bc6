-- ===== src/ShardCtrler/History.antt =====
-- The list of configurations: what Join, Leave and Move add to it.
use native.Mathlib.Decide.{dec_lt}
use mit_6_5840_2024_lab.Common.{
  ℕ, ◌+◌, ◌-◌, ◌≤◌, ◌<◌, ◌≡◌, refl, ap, sym, subst, ◌∙◌, true, false, some, List, [], ◌∷◌, ◌++◌,
  arith, length, replicate, ltb, ◌==◌, ==_iff, if◌then◌else◌, Returns, Returns-bind, Returns-map,
  length-set, length-append, get_elem?-append_right,
}
use mit_6_5840_2024_lab.Common.Maps.{Map, insert, delete, nat_eq}
use mit_6_5840_2024_lab.Common.Strings.{Str}
use mit_6_5840_2024_lab.ShardCtrler.Rebalance.{Gs, gids, is_in}
use mit_6_5840_2024_lab.ShardCtrler.Extremes.{Distinct}
use mit_6_5840_2024_lab.ShardCtrler.Configs.{
  Config, groups_of, rebalance, insert_all, delete_all, Change, join, leave, move, changed,
  last_config, apply_change,
}
use mit_6_5840_2024_lab.ShardCtrler.Placement.{gids_of, Placed, rebalance-Placed}

abbrev keys : Map ℕ (List Str) → List ℕ
keys m = gids (groups_of m)

is_in-insert :
    (g k : ℕ) (v : List Str) (m : Map ℕ (List Str))
    → is_in g (keys (insert k v m)) ≡ (if k == g then true else is_in g (keys m))
unfolding groups_of insert
is_in-insert g k v [] = refl
is_in-insert g k v ((j, w) ∷ m) =
    ground (arith, is_in-insert g k v m, ==_iff j k, ==_iff k g, ==_iff j g)

Distinct-insert :
    (k : ℕ) (v : List Str) (m : Map ℕ (List Str))
    → Distinct (keys m)
    → Distinct (keys (insert k v m))
unfolding groups_of insert
Distinct-insert k v [] d = (refl, tt)
Distinct-insert k v ((j, w) ∷ m) (n, d) =
    ground (arith, Distinct-insert k v m d, is_in-insert j k v m, ==_iff j k, ==_iff k j)

is_in-delete :
    (g k : ℕ) (m : Map ℕ (List Str))
    → is_in g (keys (delete k m)) ≡ (if k == g then false else is_in g (keys m))
unfolding groups_of delete
is_in-delete g k [] = ground arith
is_in-delete g k ((j, w) ∷ m) =
    ground (arith, is_in-delete g k m, ==_iff j k, ==_iff k g, ==_iff j g)

Distinct-delete : (k : ℕ) (m : Map ℕ (List Str)) → Distinct (keys m) → Distinct (keys (delete k m))
unfolding groups_of delete
Distinct-delete k [] d = tt
Distinct-delete k ((j, w) ∷ m) (n, d) =
    ground (arith, Distinct-delete k m d, is_in-delete j k m, ==_iff j k, ==_iff k j)

Distinct-insert_all :
    (new m : Map ℕ (List Str)) → Distinct (keys m) → Distinct (keys (insert_all new m))
unfolding insert_all
Distinct-insert_all [] m d = d
Distinct-insert_all ((k, v) ∷ new) m d =
    Distinct-insert_all new (insert k v m) (Distinct-insert k v m d)

Distinct-delete_all :
    (old : List ℕ) (m : Map ℕ (List Str)) → Distinct (keys m) → Distinct (keys (delete_all old m))
unfolding delete_all
Distinct-delete_all [] m d = d
Distinct-delete_all (k ∷ old) m d = Distinct-delete_all old (delete k m) (Distinct-delete k m d)

-- Ten shards, and no gid twice.
pub record IsSound (c : Config) : Type 0 where
  pub ten : length c.shards ≡ 10
  pub distinct : Distinct (gids_of c)

-- `rebalance` keeps the number and the groups.
record Rebalanced (c c' : Config) : Type 0 where
  sound : IsSound c'
  num : c'.num ≡ c.num

Placed-Rebalanced : (c c' : Config) → Distinct (gids_of c) → Placed c c' → Rebalanced c c'
Placed-Rebalanced c c' d p = record {
  sound = record { ten = p.size; distinct = subst Distinct (sym (ap gids_of p.rest)) d };
  num = ap (λ c. c.num) p.rest;
}

length-none : (gss : List Gs) → length gss ≤ 0 → gss ≡ []
length-none [] h = refl
length-none (gs ∷ gss) h = absurd (omega arith)

rebalance-empty :
    (old_shards : List ℕ) (c : Config)
    → groups_of c.groups ≡ []
    → rebalance old_shards c ≡ some (record c { shards = replicate 10 0 })
unfolding rebalance
rebalance-empty old_shards c e = rw (e, rebalance) refl

rebalance-Rebalanced :
    (old_shards : List ℕ) (c : Config)
    → length old_shards ≡ 10
    → Distinct (gids_of c)
    → Returns (Rebalanced c) (rebalance old_shards c)
rebalance-Rebalanced old_shards c ten d = elim (dec_lt 0 (length (groups_of c.groups))) [
  | yes lt ↦
      Returns-map (Placed c) (Rebalanced c) (rebalance old_shards c)
        (rebalance-Placed old_shards c ten lt d) (λ c' p. Placed-Rebalanced c c' d p)
  | no ge ↦
      rw (rebalance-empty old_shards c (length-none (groups_of c.groups) (omega arith)))
        (record { sound = record { ten = refl; distinct = d }; num = refl })
]

-- A Move is of one of the ten shards.
abbrev pub IsPossible : Change → Type 0
IsPossible (join servers) = Unit
IsPossible (leave gs) = Unit
IsPossible (move shard gid) = shard < 10

record Next (old new : Config) : Type 0 where
  sound : IsSound new
  num : new.num ≡ old.num + 1

changed-Next :
    (old : Config) (change : Change)
    → IsSound old
    → IsPossible change
    → Returns (Next old) (changed old change)
unfolding changed
changed-Next old (join servers) v ok =
    let c : Config = record old { num = old.num + 1; groups = insert_all servers old.groups } in
    Returns-map (Rebalanced c) (Next old) (rebalance old.shards c)
      (rebalance-Rebalanced old.shards c v.ten (Distinct-insert_all servers old.groups v.distinct))
      (λ c' r. record { sound = r.sound; num = r.num })
changed-Next old (leave gs) v ok =
    let c : Config = record old { num = old.num + 1; groups = delete_all gs old.groups } in
    Returns-map (Rebalanced c) (Next old) (rebalance old.shards c)
      (rebalance-Rebalanced old.shards c v.ten (Distinct-delete_all gs old.groups v.distinct))
      (λ c' r. record { sound = r.sound; num = r.num })
changed-Next old (move shard gid) v ok =
    let fits : ltb shard (length old.shards) ≡ true = ground (arith, v.ten) in
    rw fits (record {
      sound = record { ten = length-set old.shards shard gid ∙ v.ten; distinct = v.distinct };
      num = refl;
    })

-- The list ends with a sound configuration that is numbered by its place.
abbrev pub IsHistory : List Config → Type 0
IsHistory configs = Returns (λ c. IsSound c × (c.num + 1 ≡ length configs)) (last_config configs)

pub last-appended :
    (configs : List Config) (new : Config) → last_config (configs ++ new ∷ []) ≡ some new
last-appended configs new =
    get_elem?-append_right configs (new ∷ []) 0 (length (configs ++ new ∷ []) - 1)
      (omega (arith, length-append configs (new ∷ [])))

-- Let the last configuration have ten shards, no gid twice, and the number of its place. Then a
-- Join, a Leave, or a Move of one of the ten shards never panics. It leaves the configurations as
-- they are and adds one, of which the same holds.
pub apply_change-IsHistory :
    (configs : List Config) (change : Change)
    → IsHistory configs
    → IsPossible change
    → Returns
        (λ configs'. IsHistory configs' × ((new : Config) × (configs' ≡ configs ++ new ∷ [])))
        (apply_change configs change)
unfolding apply_change
apply_change-IsHistory configs change h ok =
    Returns-bind (λ c. IsSound c × (c.num + 1 ≡ length configs)) _ (last_config configs) _ h
      (λ old p.
        Returns-bind (Next old) _ (changed old change) _ (changed-Next old change p.0 ok) (λ new q.
          (
            rw (last-appended configs new)
                (q.sound, omega (arith, q.num, p.1, length-append configs (new ∷ []))),
            (new, refl),
          )))

-- ===== src/ShardCtrler/Server/Numbers.antt =====
-- src/shardctrler/server.go: the configurations over the life of a server.
use native.Mathlib.Decide.{dec_lt}
use mit_6_5840_2024_lab.Common.{
  ℕ, zero, suc, replicate, ◌+◌, ◌-◌, ◌<◌, ◌≡◌, refl, sym, subst, ◌∙◌, true, some, List, [], ◌∷◌,
  ◌++◌, Bool, Bool-cases, inl, inr, arith, length, get_elem?, Returns, Returns-bind, Returns-map,
  length-append, get_elem?-append, get_elem?-append_right, get_elem?-bound, get_elem?-in_range,
}
use mit_6_5840_2024_lab.Common.Maps.{lookup, nat_eq}
use mit_6_5840_2024_lab.Raft.Types.{Codec, ApplyMsg}
use mit_6_5840_2024_lab.Raft.Persist.{take_snapshot}
use mit_6_5840_2024_lab.KvRaft.Types.{SnapshotCodec}
use mit_6_5840_2024_lab.KvRaft.Snapshots.{take_snapshot-Returns}
use mit_6_5840_2024_lab.ShardCtrler.Configs.{Config, initial_configs, groups_of, apply_change}
use mit_6_5840_2024_lab.ShardCtrler.History.{
  IsSound, IsHistory, IsPossible, apply_change-IsHistory, last-appended,
}
use mit_6_5840_2024_lab.ShardCtrler.Server.{
  ShardCtrler, Op, Call, update, query, Snapshot, apply_op, recorded, snapshot_of, must_snapshot,
  make_snapshot, is_stable, apply_command, apply_snapshot, handle_apply_msg,
}

-- There is a configuration, and each is sound and numbered by its place.
pub record Numbered (configs : List Config) : Type 0 where
  pub some_config : 0 < length configs
  pub each : (i : ℕ) (c : Config) → get_elem? configs i ≡ some c → IsSound c × (c.num ≡ i)

-- The first list is a beginning of the second.
abbrev pub Extends : List Config → List Config → Type 0
Extends configs configs' =
    (i : ℕ) (c : Config) → get_elem? configs i ≡ some c → get_elem? configs' i ≡ some c

initial_config-IsSound :
    (i : ℕ) (c : Config) → get_elem? initial_configs i ≡ some c → IsSound c × (c.num ≡ i)
unfolding groups_of
initial_config-IsSound zero c e =
    let same : record { num = 0; shards = replicate 10 0; groups = [] } ≡ c = cc in
    subst (λ c. IsSound c × (c.num ≡ 0)) same (record { ten = refl; distinct = tt }, refl)
initial_config-IsSound (suc i) c e = absurd (cc)

-- The configurations of a new server.
pub initial_configs-Numbered : Numbered initial_configs
initial_configs-Numbered = record { some_config = omega arith; each = initial_config-IsSound }

Numbered-IsHistory : (configs : List Config) → Numbered configs → IsHistory configs
Numbered-IsHistory configs v =
    let (c, e) =
      get_elem?-in_range configs (length configs - 1) (let s = v.some_config in omega arith) in
    let p = v.each (length configs - 1) c e in
    rw e (p.0, (let s = v.some_config in let n = p.1 in omega arith))

Numbered-append :
    (configs : List Config) (new : Config)
    → Numbered configs
    → IsSound new
    → new.num ≡ length configs
    → Numbered (configs ++ new ∷ [])
Numbered-append configs new v s n = record {
  some_config = omega (arith, length-append configs (new ∷ []));
  each = λ i c e. elim (dec_lt i (length configs)) [
    | yes lt ↦ v.each i c (sym (get_elem?-append configs (new ∷ []) i lt) ∙ e)
    | no ge ↦
        let b = get_elem?-bound (configs ++ new ∷ []) i e in
        let l = length-append configs (new ∷ []) in
        let at : length configs + 0 ≡ i = omega arith in
        let r : get_elem? (configs ++ new ∷ []) i ≡ some new =
          get_elem?-append_right configs (new ∷ []) 0 i at in
        let same : new ≡ c = cc in subst (λ c. IsSound c × (c.num ≡ i)) same (s, omega arith)
  ];
}

Extends-append : (configs : List Config) (new : Config) → Extends configs (configs ++ new ∷ [])
Extends-append configs new i c e =
    get_elem?-append configs (new ∷ []) i (get_elem?-bound configs i e) ∙ e

record Grown (configs configs' : List Config) : Type 0 where
  numbered : Numbered configs'
  extends : Extends configs configs'

-- A Move is of one of the ten shards.
abbrev pub CallFits : Call → Type 0
CallFits (update change) = IsPossible change
CallFits (query num) = Unit

apply_op-Grown :
    (configs : List Config) (call : Call)
    → Numbered configs
    → CallFits call
    → Returns (Grown configs) (apply_op configs call)
unfolding apply_op
apply_op-Grown configs (query num) v h = record { numbered = v; extends = λ i c e. e }
apply_op-Grown configs (update change) v h =
    Returns-map _ (Grown configs) (apply_change configs change)
      (apply_change-IsHistory configs change (Numbered-IsHistory configs v) h)
      (λ configs' (p, (new, e)).
        let p' = rw (e, last-appended configs new) at p in
        subst (Grown configs) (sym e) (record {
          numbered =
              Numbered-append configs new v p'.0
                (let n = p'.1 in let l = length-append configs (new ∷ []) in omega arith);
          extends = Extends-append configs new;
        }))

-- The message can be handled: a command's Move is of one of the ten shards, and the configurations
-- of a snapshot are numbered by their places.
pub record MsgFits {B : Type 0} ⦃snapshots : SnapshotCodec Snapshot B⦄ (msg : ApplyMsg Op B)
    : Type 0 where
  pub command : msg.command_valid ≡ true → (op : Op) × (msg.command ≡ some op) × CallFits op.call
  pub snapshot : msg.snapshot_valid ≡ true → Numbered (snapshots.decode msg.snapshot).configs

-- All configurations are sound and numbered, and a command has only added to them.
pub record Advanced {B : Type 0} (sc : ShardCtrler B) (command : Bool) (sc' : ShardCtrler B)
    : Type 0 where
  pub numbered : Numbered sc'.configs
  pub extends : command ≡ true → Extends sc.configs sc'.configs

module _ {B : Type 0} ⦃codec : Codec Op B⦄ ⦃snapshots : SnapshotCodec Snapshot B⦄ where
  make_snapshot-configs :
      (sc : ShardCtrler B) (index : ℕ)
      → Returns (λ sc'. sc'.configs ≡ sc.configs) (make_snapshot sc index)
  unfolding make_snapshot
  make_snapshot-configs sc index = elim (Bool-cases (must_snapshot sc)) [
    | inl e ↦ rw e (
        Returns-bind _ (λ sc'. sc'.configs ≡ sc.configs)
          (take_snapshot sc.rf index (snapshots.encode (snapshot_of sc))) _
          (take_snapshot-Returns sc.rf index (snapshots.encode (snapshot_of sc))) (λ rf p. refl))
    | inr e ↦ rw e refl
  ]

  apply_command-Grown :
      (sc : ShardCtrler B) (op : Op) (index : ℕ)
      → Numbered sc.configs
      → CallFits op.call
      → Returns (λ sc'. Grown sc.configs sc'.configs) (apply_command sc op index)
  unfolding apply_command
  apply_command-Grown sc op index v h =
      elim (Bool-cases (is_stable (lookup op.ck_id sc.ck_sessions) op index)) [
        | inl e ↦ rw e (record { numbered = v; extends = λ i c e. e })
        | inr e ↦ rw e (
            Returns-bind (Grown sc.configs) _ (apply_op sc.configs op.call) _
              (apply_op-Grown sc.configs op.call v h)
              (λ configs g.
                Returns-map _ _
                  (make_snapshot (record (recorded sc op index) { configs = configs }) index)
                  (make_snapshot-configs (record (recorded sc op index) { configs = configs })
                    index)
                  (λ sc' same. subst (Grown sc.configs) (sym same) g)))
      ]

  -- Let a controller have a list of configurations of which each has ten shards, no gid twice, and
  -- the number of its place. It handles any message without a panic whose Move, if it is one, is of
  -- one of the ten shards and whose snapshot, if it is one, has such a list, and it has such a list
  -- again. A command leaves all configurations that were there as they were.
  pub handle_apply_msg-Advanced :
      (sc : ShardCtrler B) (msg : ApplyMsg Op B)
      → Numbered sc.configs
      → MsgFits msg
      → Returns (Advanced sc msg.command_valid) (handle_apply_msg sc msg)
  unfolding handle_apply_msg apply_snapshot
  handle_apply_msg-Advanced sc msg v h = elim (Bool-cases msg.command_valid) [
    | inl e ↦
        let (op, c, fits) = h.command e in
        rw (e, c)
          (Returns-map _ _ (apply_command sc op msg.command_index)
            (apply_command-Grown sc op msg.command_index v fits)
            (λ sc' g. record { numbered = g.numbered; extends = λ t. g.extends }))
    | inr e ↦ elim (Bool-cases msg.snapshot_valid) [
      | inl s ↦ rw (e, s) (record { numbered = h.snapshot s; extends = λ t. absurd (cc) })
      | inr s ↦ rw (e, s) (record { numbered = v; extends = λ t. absurd (cc) })
    ]
  ]

-- ===== src/KvRaft/Effects.antt =====
-- A run of a server on the commands of a log is the run of its map on the effective ones.
use mit_6_5840_2024_lab.Common.{
  ℕ, ◌+◌, ◌≡◌, refl, ap, ◌∙◌, true, Option, none, some, List, [], ◌∷◌, arith, length, ◌>>=◌,
  Returns, Returns-bind,
}
use mit_6_5840_2024_lab.Common.Maps.{lookup, lookup-insert, nat_eq}
use mit_6_5840_2024_lab.Raft.Types.{Codec}
use mit_6_5840_2024_lab.Raft.Apply.{command_msg}
use mit_6_5840_2024_lab.Common.{Returns-some, Option-cases, inl, inr, ◌&&◌, not, if◌then◌else◌}
use mit_6_5840_2024_lab.KvRaft.Once.{NeverFalls, times, occurs, effective-once, is_repeat}
use mit_6_5840_2024_lab.KvRaft.Types.{Op, Snapshot, SnapshotCodec, KvServer}
use mit_6_5840_2024_lab.KvRaft.Server.{handle_apply_msg, apply_command}
use mit_6_5840_2024_lab.KvRaft.Once.{
  History, seen, effective, execute_all, history, IsValid, Applied, apply_command-Applied,
}

module _ {B : Type 0} ⦃codec : Codec Op B⦄ ⦃snapshots : SnapshotCodec Snapshot B⦄ where
  -- The loop of `handleApplyMsg` on the commands that follow the last applied one.
  unfoldable pub feed : KvServer B → List Op → Option (KvServer B)
  feed kv [] = some kv
  feed kv (op ∷ ops) = do
    kv1 ← handle_apply_msg kv (command_msg (some op) (kv.last_applied + 1))
    feed kv1 ops

  pub record Fed (kv : KvServer B) (ops : List Op) (kv' : KvServer B) : Type 0 where
    pub valid : IsValid kv'
    pub index : kv'.last_applied ≡ kv.last_applied + length ops
    pub map : kv'.mp ≡ execute_all kv.mp (effective (history kv) ops)

  pub Applied-IsValid :
      (kv kv' : KvServer B) (op : Op) → IsValid kv → Applied kv op kv' → IsValid kv'
  Applied-IsValid kv kv' op v a c =
      rw
        (
          a.sessions,
          a.index,
          lookup-insert op.ck_id c
              (record { last_op = op; last_op_valid = true; last_op_index = kv.last_applied + 1 })
              kv.ck_sessions,
        )
        (ground (arith, v c))

  Applied-history :
      (kv kv' : KvServer B) (op : Op)
      → Applied kv op kv'
      → (c : ℕ) → history kv' c ≡ seen (history kv) op c
  Applied-history kv kv' op a c =
      let look =
        ap (lookup c) a.sessions
        ∙ lookup-insert op.ck_id c
            (record { last_op = op; last_op_valid = true; last_op_index = kv.last_applied + 1 })
            kv.ck_sessions in
      ground (arith, look)

effective_ext :
    (h k : History) (ops : List Op) → ((c : ℕ) → h c ≡ k c) → effective h ops ≡ effective k ops
unfolding effective
effective_ext h k [] e = refl
effective_ext h k (op ∷ ops) e =
    ground (arith, e op.ck_id, effective_ext (seen h op) (seen k op) ops (λ c. ground (arith, e c)))

module _ {B : Type 0} ⦃codec : Codec Op B⦄ ⦃snapshots : SnapshotCodec Snapshot B⦄ where
  Fed-cons :
      (kv kv1 : KvServer B) (op : Op) (ops : List Op)
      → Applied kv op kv1
      → (o : Option (KvServer B)) → Returns (Fed kv1 ops) o
      → Returns (Fed kv (op ∷ ops)) o
  unfolding effective
  Fed-cons kv kv1 op ops a none r = elim r [ ]
  Fed-cons kv kv1 op ops a (some kv') r =
      let same =
        effective_ext (history kv1) (seen (history kv) op) ops (Applied-history kv kv1 op a) in
      let m : kv'.mp ≡ execute_all kv1.mp (effective (seen (history kv) op) ops) =
        r.map ∙ ap (execute_all kv1.mp) same in
      record {
        valid = r.valid;
        index = omega (arith, r.index, a.index);
        map =
            m
            ∙ ap (λ mp. execute_all mp (effective (seen (history kv) op) ops)) a.map
            ∙ ground arith;
      }

  -- A server whose sessions are those of applied operations goes through any commands, numbered
  -- from its last applied index on, without a `log.Fatalf` or a panic, its own snapshots included.
  -- Then its map is that of the effective commands, carried out in their order, its index has grown
  -- by the number of commands, and its sessions are again those of applied operations.
  pub feed-Fed : (kv : KvServer B) (ops : List Op) → IsValid kv → Returns (Fed kv ops) (feed kv ops)
  unfolding feed handle_apply_msg effective
  feed-Fed kv [] v = record { valid = v; index = omega arith; map = refl }
  feed-Fed kv (op ∷ ops) v =
      Returns-bind (Applied kv op) (Fed kv (op ∷ ops)) (apply_command kv op (kv.last_applied + 1))
        (λ kv1. feed kv1 ops) (apply_command-Applied kv op v)
        (λ kv1 a.
          Fed-cons kv kv1 op ops a (feed kv1 ops)
            (feed-Fed kv1 ops (Applied-IsValid kv kv1 op v a)))

  -- For a server whose sessions are those of applied operations, if no client's request number
  -- falls along the commands, the map becomes that of operations in which each request that occurs
  -- among the commands and is newer than its client's session is there exactly once, however often
  -- it occurs, and no other request is.
  pub feed-once :
      (kv : KvServer B) (ops : List Op)
      → IsValid kv
      → NeverFalls (history kv) ops
      → Returns
          (λ kv'.
            (kv'.mp ≡ execute_all kv.mp (effective (history kv) ops))
            × ((c n : ℕ)
                → times c n (effective (history kv) ops)
                  ≡ (if occurs c n ops && not (is_repeat (history kv c) n) then 1 else 0)))
          (feed kv ops)
  feed-once kv ops v f = elim (Option-cases (feed kv ops)) [
    | inl e ↦ absurd (rw e at (feed-Fed kv ops v))
    | inr (kv', e) ↦
        let fed = Returns-some (Fed kv ops) (feed kv ops) (feed-Fed kv ops v) e in
        rw e (fed.map, λ c n. effective-once (history kv) ops c n f)
  ]

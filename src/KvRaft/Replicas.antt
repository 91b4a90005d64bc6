-- ===== src/KvRaft/Replicas.antt =====
-- Replicas of the service: the same log, or a snapshot and the rest of the log, gives the same map
-- and the same sessions.
use mit_6_5840_2024_lab.Common.{
  ℕ, ◌+◌, ◌≡◌, refl, ap, sym, ◌∙◌, List, [], ◌∷◌, arith, ◌>>=◌, Returns, Returns-some, Returns-bind,
  Option-cases, inl, inr,
}
use mit_6_5840_2024_lab.Raft.Types.{Codec}
use mit_6_5840_2024_lab.Raft.Persist.{snapshot_msg}
use mit_6_5840_2024_lab.KvRaft.Types.{Op, Snapshot, SnapshotCodec, KvServer}
use mit_6_5840_2024_lab.KvRaft.Server.{handle_apply_msg, apply_command, apply_snapshot, snapshot_of}
use mit_6_5840_2024_lab.KvRaft.Once.{IsValid, Applied, apply_command-Applied}
use mit_6_5840_2024_lab.KvRaft.Effects.{feed, Applied-IsValid}

pub record Agrees {B : Type 0} (kv kv' : KvServer B) : Type 0 where
  pub map : kv'.mp ≡ kv.mp
  pub sessions : kv'.ck_sessions ≡ kv.ck_sessions
  pub index : kv'.last_applied ≡ kv.last_applied

module _ {B : Type 0} ⦃codec : Codec Op B⦄ ⦃snapshots : SnapshotCodec Snapshot B⦄ where
  Agrees-IsValid : (a b : KvServer B) → IsValid a → Agrees a b → IsValid b
  Agrees-IsValid a b v s c = rw (s.sessions, s.index) (v c)

  Applied-Agrees :
      (a b a' b' : KvServer B) (op : Op)
      → Agrees a b
      → Applied a op a'
      → Applied b op b'
      → Agrees a' b'
  Applied-Agrees a b a' b' op s x y = record {
    map = y.map ∙ rw (s.map, s.sessions) (sym x.map);
    sessions = y.sessions ∙ rw (s.sessions, s.index) (sym x.sessions);
    index = omega (arith, y.index, x.index, s.index);
  }

  -- Two servers with the same map, sessions and index, the sessions being those of applied
  -- operations, go through the same commands without a panic and agree again, whatever their own
  -- Raft peers, snapshot bounds and records are.
  pub feed-Agrees :
      (a b : KvServer B) (ops : List Op)
      → IsValid a
      → Agrees a b
      → Returns (λ a'. Returns (Agrees a') (feed b ops)) (feed a ops)
  unfolding feed handle_apply_msg
  feed-Agrees a b [] v s = s
  feed-Agrees a b (op ∷ ops) v s = elim (Option-cases (apply_command b op (b.last_applied + 1))) [
    | inl e ↦ absurd (rw e at (apply_command-Applied b op (Agrees-IsValid a b v s)))
    | inr (b1, e) ↦
        let y =
          Returns-some (Applied b op) (apply_command b op (b.last_applied + 1))
            (apply_command-Applied b op (Agrees-IsValid a b v s)) e in
        rw e (
          Returns-bind (Applied a op) (λ a'. Returns (Agrees a') (feed b1 ops))
            (apply_command a op (a.last_applied + 1)) (λ a1. feed a1 ops)
            (apply_command-Applied a op v)
            (λ a1 x.
              feed-Agrees a1 b1 ops (Applied-IsValid a a1 op v x)
                (Applied-Agrees a b a1 b1 op s x y)))
  ]

  -- Let a server go through commands from a state in which its sessions are those of applied
  -- operations. A server in any other state that applies the snapshot of that state, and then the
  -- same commands, ends with the same map, sessions and index.
  pub catch_up :
      (kv late : KvServer B) (ops : List Op) (term : ℕ)
      → IsValid kv
      → Returns
          (λ kv'. Returns (Agrees kv') (
            handle_apply_msg late
              (snapshot_msg (snapshots.encode (snapshot_of kv)) kv.last_applied term)
            >>= λ l. feed l ops))
          (feed kv ops)
  unfolding handle_apply_msg apply_snapshot
  catch_up kv late ops term v =
      feed-Agrees kv
        (apply_snapshot late
          (snapshot_msg (snapshots.encode (snapshot_of kv)) kv.last_applied term))
        ops v
        (record {
          map = ap (λ s. s.mp) (snapshots.decode-encode (snapshot_of kv));
          sessions = ap (λ s. s.ck_sessions) (snapshots.decode-encode (snapshot_of kv));
          index = refl;
        })

-- ===== src/KvRaft/Replies.antt =====
-- What the replies of the service say.
use mit_6_5840_2024_lab.Common.{
  ℕ, ◌+◌, ◌≤◌, ◌≡◌, refl, sym, subst, Bool, true, none, some, List, [], ◌∷◌, arith, Returns,
  Option-cases, inl, inr, ◌⊎◌, ==_iff, if◌then◌else◌, ◌==◌,
}
use mit_6_5840_2024_lab.Common.Int.{ℤ, pos, negsuc}
use mit_6_5840_2024_lab.Common.Maps.{Map, lookup, lookup-insert, nat_eq}
use mit_6_5840_2024_lab.Raft.Types.{Codec}
use mit_6_5840_2024_lab.Raft.Apply.{command_msg}
use mit_6_5840_2024_lab.KvRaft.Types.{
  ok, failed_to_commit, Request, Reply, Op, Snapshot, SnapshotCodec, KvServer,
}
use mit_6_5840_2024_lab.KvRaft.Server.{
  poll, waitting_for_commit, finished, handle_apply_msg, apply_command, make_snapshot, forget,
  snapshot_of, remembered, recorded, execute,
}
use mit_6_5840_2024_lab.KvRaft.Snapshots.{take_snapshot-Returns}

-- The server has applied, at `index`, the operation itself, and this is the reply that it gives.
pub record Committed {B : Type 0} (op : Op) (index : ℤ) (req : Request) (reply : Reply)
    (kv : KvServer B) : Type 0 where
  pub at : ℕ
  pub spot : index ≡ pos at
  pub applied : at ≤ kv.last_applied
  pub done : Op
  pub entry : lookup at kv.log_record ≡ some done
  pub same : done.number ≡ op.number
  pub answer : reply ≡ finished kv req

abbrev pub Seen : {B : Type 0} → (KvServer B → Type 0) → List (KvServer B × Bool) → Type 0
Seen P [] = ⊥
Seen P ((kv, over) ∷ states) = P kv ⊎ Seen P states

poll-Committed :
    {B : Type 0} (kv : KvServer B) (op : Op) (index : ℤ) (req : Request) (reply : Reply)
    → poll kv op index req ≡ some reply
    → reply.err ≡ ok
    → Committed op index req reply kv
unfolding poll
poll-Committed kv op (negsuc n) req reply e o = absurd (cc)
poll-Committed kv op (pos i) req reply e o = elim (Option-cases (lookup i kv.log_record)) [
  | inl n ↦ absurd (ground arith)
  | inr (done, l) ↦ record {
    at = i;
    spot = refl;
    applied = ground arith;
    done = done;
    entry = l;
    same = ground (arith, ==_iff done.number op.number);
    answer = ground arith;
  }
]

module _ {B : Type 0} (me : ℕ) (kv : KvServer B) (over : Bool) (states : List (KvServer B × Bool))
    (op : Op) (index : ℤ) (req : Request) where
  waitting_for_commit-hit :
      (reply : Reply)
      → poll kv op index req ≡ some reply
      → waitting_for_commit me ((kv, over) ∷ states) op index req ≡ reply
  unfolding waitting_for_commit
  waitting_for_commit-hit reply e = ground arith

  waitting_for_commit-on :
      poll kv op index req ≡ none
      → (waitting_for_commit me ((kv, over) ∷ states) op index req).err ≡ ok
      → waitting_for_commit me ((kv, over) ∷ states) op index req
        ≡ waitting_for_commit me states op index req
  unfolding waitting_for_commit
  waitting_for_commit-on e o = ground arith

-- A wait that ends with ERR_OK has seen a state of the server in which an operation with the number
-- of the one waited for is recorded at the index waited for and applied, and replies with the value
-- of the key in that state.
pub waitting_for_commit-Committed :
    {B : Type 0} (me : ℕ) (states : List (KvServer B × Bool)) (op : Op) (index : ℤ) (req : Request)
    → (waitting_for_commit me states op index req).err ≡ ok
    → Seen (Committed op index req (waitting_for_commit me states op index req)) states
unfolding waitting_for_commit
waitting_for_commit-Committed me [] op index req o = absurd (cc)
waitting_for_commit-Committed me ((kv, over) ∷ states) op index req o =
    elim (Option-cases (poll kv op index req)) [
      | inl e ↦
          let w = waitting_for_commit-on me kv over states op index req e o in
          let o' = rw w at o in
          subst (λ r. Seen (Committed op index req r) ((kv, over) ∷ states)) (sym w)
            (inr (waitting_for_commit-Committed me states op index req o'))
      | inr (reply, e) ↦
          let w = waitting_for_commit-hit me kv over states op index req reply e in
          let o' = rw w at o in
          subst (λ r. Seen (Committed op index req r) ((kv, over) ∷ states)) (sym w)
            (inl (poll-Committed kv op index req reply e o'))
    ]

forget-nothing : (es records : Map ℕ Op) → forget es (records, []) ≡ (records, [])
unfolding forget lookup
forget-nothing [] records = refl
forget-nothing ((key, op) ∷ es) records = forget-nothing es records

module _ {B : Type 0} ⦃codec : Codec Op B⦄ ⦃snapshots : SnapshotCodec Snapshot B⦄ where
  make_snapshot-keeps :
      (kv : KvServer B) (index : ℕ)
      → kv.confirm_map ≡ []
      → Returns
          (λ kv'.
            (kv'.confirm_map ≡ [])
            × (kv'.log_record ≡ kv.log_record)
            × (kv'.last_applied ≡ kv.last_applied)
            × (kv'.me ≡ kv.me))
          (make_snapshot kv index)
  unfolding make_snapshot
  make_snapshot-keeps kv index c =
      rw (c, forget-nothing kv.log_record kv.log_record)
        (ground (arith, take_snapshot-Returns kv.rf index (snapshots.encode (snapshot_of kv))))

  -- As long as nothing is marked in `confirmMap`, which the code never does, a command that is
  -- applied is recorded: whoever waits at its index is answered at the next look, with ERR_OK if it
  -- is the operation waited for and ERR_FailedToCommit if it is another.
  pub handle_apply_msg-poll :
      (kv : KvServer B) (op waiting : Op) (req : Request)
      → kv.confirm_map ≡ []
      → Returns
          (λ kv'.
            (kv'.confirm_map ≡ [])
            × (poll kv' waiting (pos (kv.last_applied + 1)) req
                ≡ some (
                    if op.number == waiting.number
                    then finished kv' req
                    else record { err = failed_to_commit; value = []; server_name = kv.me })))
          (handle_apply_msg kv (command_msg (some op) (kv.last_applied + 1)))
  unfolding handle_apply_msg apply_command poll
  handle_apply_msg-poll kv op waiting req c =
      let i : ℕ = kv.last_applied + 1 in
      let same : (kv.last_applied + 1 == i) ≡ true = ground arith in
      let kept =
        make_snapshot-keeps
          (record (remembered (recorded kv op i) op i) { mp = execute kv.mp op.type op }) i c in
      let look = lookup-insert i i op kv.log_record in rw same (ground (arith, kept, look))

-- ===== src/KvRaft/Server.antt =====
-- src/kvraft/server.go: the RPC handlers and the loop over applyCh. `none` is `log.Fatalf` or a
-- panic.
use mit_6_5840_2024_lab.Common.{
  ℕ, ◌+◌, Bool, true, false, not, ◌&&◌, Option, none, some, List, [], ◌∷◌, ◌++◌, ltb, leb, ◌==◌,
  if◌then◌else◌, ◌>>=◌,
}
use mit_6_5840_2024_lab.Common.Int.{pos, negsuc, eq_ℤ, ltb_ℤ, ℤ}
use mit_6_5840_2024_lab.Common.Maps.{Map, lookup, insert, delete, lookup_or, nat_eq}
use mit_6_5840_2024_lab.Common.Strings.{Str, str_eq}
use mit_6_5840_2024_lab.Raft.Types.{ApplyMsg, Codec, Persister}
use mit_6_5840_2024_lab.Raft.Persist.{make, kill, take_snapshot}
use mit_6_5840_2024_lab.Raft.Leader.{start}
use mit_6_5840_2024_lab.KvRaft.Types.{
  ok, not_leader, failed_to_commit, commit_timeout, OpType, get, put, append, Request, GetArgs,
  PutAppendArgs, Reply, Op, Session, Snapshot, SnapshotCodec, KvServer,
}

abbrev pub get_request : GetArgs → Request
get_request args = record {
  type = get;
  key = args.key;
  value = [];
  id = args.id;
  req_num = args.req_num;
}

abbrev pub put_append_request : OpType → PutAppendArgs → Request
put_append_request type args = record {
  type = type;
  key = args.key;
  value = args.value;
  id = args.id;
  req_num = args.req_num;
}

-- What `handleNormalRPC` comes to: a reply, or an operation to wait for at an index.
pub data Handled : Type 0 where
  answered : Reply → Handled
  waits : Op → ℤ → Handled

abbrev pub op_of : Request → ℕ → Op
op_of req number = record {
  type = req.type;
  number = number;
  key = req.key;
  value = req.value;
  req_num = req.req_num;
  ck_id = req.id;
}

-- A reply with ERR_OK, which reads the key again for Get.
abbrev pub value_of : {B : Type 0} → KvServer B → Request → OpType → Str
value_of kv req get = lookup_or req.key kv.mp []
value_of kv req _ = []

abbrev pub finished : {B : Type 0} → KvServer B → Request → Reply
finished kv req = record { err = ok; value = value_of kv req req.type; server_name = kv.me }

abbrev pub failed : {B : Type 0} → KvServer B → Reply
failed kv = record { err = not_leader; value = []; server_name = kv.me }

-- `op, ok := kv.logRecord[index]; ok && op.Number == number`
abbrev pub is_recorded : {B : Type 0} → KvServer B → ℕ → ℕ → Bool
is_recorded kv index number = elim (lookup index kv.log_record) [
  | none ↦ false
  | some op ↦ op.number == number
]

-- The request was the client's last one, and its entry is still in `logRecord`.
abbrev pub is_done : {B : Type 0} → KvServer B → Request → Bool
is_done kv req = elim (lookup req.id kv.ck_sessions) [
  | none ↦ false
  | some s ↦
      s.last_op_valid
      && (s.last_op.req_num == req.req_num)
      && is_recorded kv s.last_op_index s.last_op.number
]

-- One look of `waittingForCommit` under the lock.
unfoldable pub poll : {B : Type 0} → KvServer B → Op → ℤ → Request → Option Reply
poll kv op (negsuc n) req = none
poll kv op (pos index) req =
    if leb index kv.last_applied
    then (elim (lookup index kv.log_record) [
      | none ↦ none
      | some done ↦
          if done.number == op.number
          then some (finished kv req)
          else some (record { err = failed_to_commit; value = []; server_name = kv.me })
    ])
    else none

abbrev pub timed_out : ℕ → Reply
timed_out me = record { err = commit_timeout; value = []; server_name = me }

-- `waittingForCommit`: the states that it sees, each with whether the time is over after it. The
-- list ends when the server is killed.
unfoldable pub waitting_for_commit :
    {B : Type 0} → ℕ → List (KvServer B × Bool) → Op → ℤ → Request → Reply
unfolding poll
waitting_for_commit me [] op index req = timed_out me
waitting_for_commit me ((kv, over) ∷ later) op index req =
    let rest = waitting_for_commit me later op index req in
    elim (poll kv op index req) [ some reply ↦ reply | none ↦ if over then timed_out me else rest ]

-- The client's session makes `op` a stable operation.
unfoldable pub is_stable : Option Session → Op → ℕ → Bool
is_stable none op index = false
is_stable (some s) op index =
    s.last_op_valid && ltb s.last_op_index index && leb op.req_num s.last_op.req_num

-- The `switch` on `op.Type`.
unfoldable pub execute : Map Str Str → OpType → Op → Map Str Str
execute mp get op = mp
execute mp put op = insert op.key op.value mp
execute mp append op = insert op.key (lookup_or op.key mp [] ++ op.value) mp

-- The loop that deletes what is confirmed from `logRecord` and `confirmMap`.
unfoldable pub forget : Map ℕ Op → Map ℕ Op × Map ℕ Bool → Map ℕ Op × Map ℕ Bool
forget [] (record_left, confirm_left) = (record_left, confirm_left)
forget ((key, op) ∷ rest) (record_left, confirm_left) =
    if lookup_or key confirm_left false
    then forget rest (delete key record_left, delete key confirm_left)
    else forget rest (record_left, confirm_left)

module _ {B : Type 0} where
  -- The entry is recorded, whatever comes of it.
  abbrev pub recorded : KvServer B → Op → ℕ → KvServer B
  recorded kv op index = record kv {
    log_record = insert index op kv.log_record;
    last_applied = index;
  }

  -- The session of the operation's client.
  abbrev pub remembered : KvServer B → Op → ℕ → KvServer B
  remembered kv op index = record kv {
    ck_sessions =
        insert op.ck_id (record { last_op = op; last_op_valid = true; last_op_index = index })
          kv.ck_sessions;
  }

  abbrev pub snapshot_of : KvServer B → Snapshot
  snapshot_of kv = record { mp = kv.mp; ck_sessions = kv.ck_sessions; maker = kv.me }

module _ {B : Type 0} ⦃codec : Codec Op B⦄ where
  -- `handleNormalRPC`; `number` is `nrand()`.
  unfoldable pub handle_normal_rpc : KvServer B → Request → ℕ → Option (KvServer B × Handled)
  handle_normal_rpc kv req number =
      if is_done kv req then some (kv, answered (finished kv req)) else (do
        (rf, started) ← start kv.rf (op_of req number)
        if not started.is_leader
            then some (kv, answered (failed kv))
            else some (record kv { rf = rf }, waits (op_of req number) started.index))

  abbrev pub must_snapshot : KvServer B → Bool
  must_snapshot kv =
      not (eq_ℤ kv.maxraftstate (negsuc 0))
      && not (ltb_ℤ (pos (codec.size kv.rf.persister.raftstate)) kv.maxraftstate)

module _ {B : Type 0} ⦃codec : Codec Op B⦄ ⦃snapshots : SnapshotCodec Snapshot B⦄ where
  unfoldable pub make_snapshot : KvServer B → ℕ → Option (KvServer B)
  unfolding forget
  make_snapshot kv index =
      if must_snapshot kv
      then (do
        let left = forget kv.log_record (kv.log_record, kv.confirm_map)
        rf ← take_snapshot kv.rf index (snapshots.encode (snapshot_of kv))
        some (record kv { rf = rf; log_record = left.0; confirm_map = left.1 }))
      else some kv

  unfoldable pub apply_command : KvServer B → Op → ℕ → Option (KvServer B)
  unfolding is_stable execute make_snapshot
  apply_command kv op index =
      if not (kv.last_applied + 1 == index)
      then none
      else if is_stable (lookup op.ck_id kv.ck_sessions) op index
      then some (remembered (recorded kv op index) op index)
      else make_snapshot
          (record (remembered (recorded kv op index) op index) { mp = execute kv.mp op.type op })
          index

  unfoldable pub apply_snapshot : KvServer B → ApplyMsg Op B → KvServer B
  apply_snapshot kv msg = record kv {
    mp = (snapshots.decode msg.snapshot).mp;
    ck_sessions = (snapshots.decode msg.snapshot).ck_sessions;
    last_applied = msg.snapshot_index;
  }

  -- One message of the loop of `handleApplyMsg`.
  unfoldable pub handle_apply_msg : KvServer B → ApplyMsg Op B → Option (KvServer B)
  unfolding apply_command apply_snapshot
  handle_apply_msg kv msg =
      if msg.command_valid
      then (elim msg.command [ none ↦ none | some op ↦ apply_command kv op msg.command_index ])
      else if msg.snapshot_valid
      then some (apply_snapshot kv msg)
      else some kv

  unfoldable pub kill_server : KvServer B → KvServer B
  kill_server kv = record kv { dead = true; rf = kill kv.rf }

  -- `StartKvServer`
  unfoldable pub start_kv_server : ℕ → ℕ → Persister B → ℤ → ℕ → Option (KvServer B)
  start_kv_server servers me persister maxraftstate now = do
    rf ← make servers me persister now
    some (record {
      me = me;
      rf = rf;
      dead = false;
      maxraftstate = maxraftstate;
      mp = [];
      ck_sessions = [];
      log_record = [];
      confirm_map = [];
      last_applied = 0;
    })

-- ===== src/ShardCtrler/Server.antt =====
-- src/shardctrler/server.go and common.go: the RPC handlers and the loop over applyCh. `none` is
-- `log.Fatal` or a panic.
pub mod Numbers
pub mod Query
mod Tests
use mit_6_5840_2024_lab.Common.{
  ℕ, ◌+◌, ◌-◌, Bool, true, false, not, ◌&&◌, Option, none, some, List, [], ◌∷◌, length, get_elem?,
  leb, ◌==◌, if◌then◌else◌, ◌>>=◌,
}
use mit_6_5840_2024_lab.Common.Int.{ℤ, pos, negsuc, eq_ℤ, ltb_ℤ}
use mit_6_5840_2024_lab.Common.Maps.{Map, lookup, insert, delete, lookup_or, nat_eq}
use mit_6_5840_2024_lab.Raft.Types.{Raft, ApplyMsg, Codec, Persister}
use mit_6_5840_2024_lab.Raft.Persist.{make, kill, take_snapshot}
use mit_6_5840_2024_lab.Raft.Leader.{start}
use mit_6_5840_2024_lab.KvRaft.Types.{SnapshotCodec}
use mit_6_5840_2024_lab.ShardCtrler.Configs.{Config, Change, apply_change, initial_configs}

-- ERR_OK is "", the string that a reply starts with.
pub data Err : Type 0 where
  ok failed_to_commit commit_timeout : Err

-- `Op.Type` with the arguments of the operation
pub data Call : Type 0 where
  update : Change → Call
  query : ℤ → Call

-- The arguments of an RPC with its operation.
pub record Request : Type 0 where
  pub call : Call
  pub id : ℕ
  pub req_num : ℕ

pub record Op : Type 0 where
  pub call : Call
  pub number : ℕ
  pub req_num : ℕ
  pub ck_id : ℕ

-- `config` is there in the reply of a Query that went well.
pub record Reply : Type 0 where
  pub wrong_leader : Bool
  pub err : Err
  pub config : Option Config

pub record Session : Type 0 where
  pub last_op : Op
  pub last_op_valid : Bool
  pub last_op_index : ℕ

pub record Snapshot : Type 0 where
  pub configs : List Config
  pub ck_sessions : Map ℕ Session
  pub maker : ℕ

-- `sc.persister` is the peer's persister. `snapshotIndex` is never used.
pub record ShardCtrler (B : Type 0) : Type 0 where
  pub me : ℕ
  pub rf : Raft Op B
  pub dead : Bool
  pub maxraftstate : ℤ
  pub configs : List Config
  pub ck_sessions : Map ℕ Session
  pub log_record : Map ℕ Op
  pub confirm_map : Map ℕ Bool
  pub last_applied : ℕ

-- What `handleNomalRPC` comes to before it waits: a reply, or an operation at an index.
pub data Handled : Type 0 where
  answered : Reply → Handled
  waits : Op → ℤ → Handled

abbrev pub op_of : Request → ℕ → Op
op_of req number = record {
  call = req.call;
  number = number;
  req_num = req.req_num;
  ck_id = req.id;
}

-- A reply as the RPC library makes it.
abbrev pub blank : Reply
blank = record { wrong_leader = false; err = ok; config = none }

-- `sc.configs[num]`, where the number of a Query is -1 or too large for the last one.
unfoldable pub config_at : List Config → ℤ → Option Config
config_at configs (pos num) =
    if leb (length configs) num
    then get_elem? configs (length configs - 1)
    else get_elem? configs num
config_at configs (negsuc n) = if n == 0 then get_elem? configs (length configs - 1) else none

-- `successCommit`
unfoldable pub success_commit : {B : Type 0} → ShardCtrler B → Call → Option Reply
unfolding config_at
success_commit sc (update change) = some blank
success_commit sc (query num) =
    config_at sc.configs num >>= λ c. some (record blank { config = some c })

-- `op, ok := sc.logRecord[index]; ok && op.Number == number`
abbrev pub is_recorded : {B : Type 0} → ShardCtrler B → ℕ → ℕ → Bool
is_recorded sc index number = elim (lookup index sc.log_record) [
  | none ↦ false
  | some op ↦ op.number == number
]

-- The request was the client's last one, and its entry is still in `logRecord`.
abbrev pub is_done : {B : Type 0} → ShardCtrler B → Request → Bool
is_done sc req = elim (lookup req.id sc.ck_sessions) [
  | none ↦ false
  | some s ↦
      s.last_op_valid
      && (s.last_op.req_num == req.req_num)
      && is_recorded sc s.last_op_index s.last_op.number
]

-- What one look of `waittingForCommit` under the lock comes to.
pub data Look : Type 0 where
  panics : Look
  replies : Reply → Look
  goes_on : Look

abbrev look_of : Option Reply → Look
look_of none = panics
look_of (some reply) = replies reply

unfoldable pub poll : {B : Type 0} → ShardCtrler B → Op → ℤ → Call → Look
unfolding success_commit
poll sc op (negsuc n) call = goes_on
poll sc op (pos index) call =
    if leb index sc.last_applied
    then (elim (lookup index sc.log_record) [
      | none ↦ goes_on
      | some done ↦
          if done.number == op.number
          then look_of (success_commit sc call)
          else replies (record blank { err = failed_to_commit })
    ])
    else goes_on

-- `waittingForCommit`: the states that it sees, each with whether the time is over after it. The
-- list ends when the server is killed, and the reply stays as the RPC library made it.
unfoldable pub waitting_for_commit :
    {B : Type 0} → List (ShardCtrler B × Bool) → Op → ℤ → Call → Option Reply
unfolding poll
waitting_for_commit [] op index call = some blank
waitting_for_commit ((sc, over) ∷ later) op index call =
    let rest = waitting_for_commit later op index call in
    elim (poll sc op index call) [
      | panics ↦ none
      | replies reply ↦ some reply
      | goes_on ↦ if over then some (record blank { err = commit_timeout }) else rest
    ]

-- The client's session makes `op` a stable operation.
unfoldable pub is_stable : Option Session → Op → ℕ → Bool
is_stable none op index = false
is_stable (some s) op index =
    s.last_op_valid && not (leb index s.last_op_index) && leb op.req_num s.last_op.req_num

-- `applyOp`: Query does nothing.
unfoldable pub apply_op : List Config → Call → Option (List Config)
unfolding apply_change
apply_op configs (update change) = apply_change configs change
apply_op configs (query num) = some configs

-- The loop that deletes what is confirmed from `logRecord` and `confirmMap`.
unfoldable pub forget : Map ℕ Op → Map ℕ Op × Map ℕ Bool → Map ℕ Op × Map ℕ Bool
forget [] left = left
forget ((key, op) ∷ rest) (record_left, confirm_left) = forget rest (
    if lookup_or key confirm_left false
    then (delete key record_left, delete key confirm_left)
    else (record_left, confirm_left))

module _ {B : Type 0} where
  abbrev pub recorded : ShardCtrler B → Op → ℕ → ShardCtrler B
  recorded sc op index = record sc {
    log_record = insert index op sc.log_record;
    last_applied = index;
    ck_sessions =
        insert op.ck_id (record { last_op = op; last_op_valid = true; last_op_index = index })
          sc.ck_sessions;
  }

  abbrev pub snapshot_of : ShardCtrler B → Snapshot
  snapshot_of sc = record { configs = sc.configs; ck_sessions = sc.ck_sessions; maker = sc.me }

module _ {B : Type 0} ⦃codec : Codec Op B⦄ where
  -- `handleNomalRPC` before it waits; `number` is `nrand()`.
  unfoldable pub handle_normal_rpc : ShardCtrler B → Request → ℕ → Option (ShardCtrler B × Handled)
  unfolding success_commit
  handle_normal_rpc sc req number =
      if is_done sc req
      then (success_commit sc req.call >>= λ reply. some (sc, answered reply))
      else (do
        (rf, started) ← start sc.rf (op_of req number)
        if not started.is_leader
            then some (sc, answered (record blank { wrong_leader = true }))
            else some (record sc { rf = rf }, waits (op_of req number) started.index))

  abbrev pub must_snapshot : ShardCtrler B → Bool
  must_snapshot sc =
      not (eq_ℤ sc.maxraftstate (negsuc 0))
      && not (ltb_ℤ (pos (codec.size sc.rf.persister.raftstate)) sc.maxraftstate)

module _ {B : Type 0} ⦃codec : Codec Op B⦄ ⦃snapshots : SnapshotCodec Snapshot B⦄ where
  unfoldable pub make_snapshot : ShardCtrler B → ℕ → Option (ShardCtrler B)
  unfolding forget
  make_snapshot sc index =
      if must_snapshot sc
      then (do
        let left = forget sc.log_record (sc.log_record, sc.confirm_map)
        rf ← take_snapshot sc.rf index (snapshots.encode (snapshot_of sc))
        some (record sc { rf = rf; log_record = left.0; confirm_map = left.1 }))
      else some sc

  -- An entry out of order is only logged.
  unfoldable pub apply_command : ShardCtrler B → Op → ℕ → Option (ShardCtrler B)
  unfolding is_stable apply_op make_snapshot
  apply_command sc op index =
      if is_stable (lookup op.ck_id sc.ck_sessions) op index
      then some (recorded sc op index)
      else (do
        configs ← apply_op sc.configs op.call
        make_snapshot (record (recorded sc op index) { configs = configs }) index)

  unfoldable pub apply_snapshot : ShardCtrler B → ApplyMsg Op B → ShardCtrler B
  apply_snapshot sc msg = record sc {
    configs = (snapshots.decode msg.snapshot).configs;
    ck_sessions = (snapshots.decode msg.snapshot).ck_sessions;
    last_applied = msg.snapshot_index;
  }

  -- One message of the loop of `handleApplyMsg`.
  unfoldable pub handle_apply_msg : ShardCtrler B → ApplyMsg Op B → Option (ShardCtrler B)
  unfolding apply_command apply_snapshot
  handle_apply_msg sc msg =
      if msg.command_valid
      then (elim msg.command [ none ↦ none | some op ↦ apply_command sc op msg.command_index ])
      else if msg.snapshot_valid
      then some (apply_snapshot sc msg)
      else some sc

  unfoldable pub kill_server : ShardCtrler B → ShardCtrler B
  kill_server sc = record sc { dead = true; rf = kill sc.rf }

  -- `StartServer`
  unfoldable pub start_server : ℕ → ℕ → Persister B → ℕ → Option (ShardCtrler B)
  start_server servers me persister now = do
    rf ← make servers me persister now
    some (record {
      me = me;
      rf = rf;
      dead = false;
      maxraftstate = pos 8192;
      configs = initial_configs;
      ck_sessions = [];
      log_record = [];
      confirm_map = [];
      last_applied = 0;
    })

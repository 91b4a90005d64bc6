-- ===== src/KvRaft/Types.antt =====
-- src/kvraft/common.go and server.go: the data of the key/value service. `B` is the type of byte
-- strings.
use mit_6_5840_2024_lab.Common.{ℕ, ◌≡◌, Bool}
use mit_6_5840_2024_lab.Common.Int.{ℤ}
use mit_6_5840_2024_lab.Common.Maps.{Map}
use mit_6_5840_2024_lab.Common.Strings.{Str}
use mit_6_5840_2024_lab.Raft.Types.{Raft}

pub data Err : Type 0 where
  ok not_leader failed_to_commit commit_timeout : Err

-- OT_GET, OT_PUT, OT_APPEND. No other string is ever a type: each handler passes one of these.
pub data OpType : Type 0 where
  get put append : OpType

-- The arguments of an RPC with its operation. `value` is "" for Get, which has none.
pub record Request : Type 0 where
  pub type : OpType
  pub key : Str
  pub value : Str
  pub id : ℕ
  pub req_num : ℕ

pub record GetArgs : Type 0 where
  pub key : Str
  pub id : ℕ
  pub req_num : ℕ

pub record PutAppendArgs : Type 0 where
  pub key : Str
  pub value : Str
  pub id : ℕ
  pub req_num : ℕ

-- `value` stays "" in the replies of Put and Append.
pub record Reply : Type 0 where
  pub err : Err
  pub value : Str
  pub server_name : ℕ

pub record Op : Type 0 where
  pub type : OpType
  pub number : ℕ
  pub key : Str
  pub value : Str
  pub req_num : ℕ
  pub ck_id : ℕ

pub record Session : Type 0 where
  pub last_op : Op
  pub last_op_valid : Bool
  pub last_op_index : ℕ

pub record Snapshot : Type 0 where
  pub mp : Map Str Str
  pub ck_sessions : Map ℕ Session
  pub maker : ℕ

-- labgob again: `decode` is what `Decode(&snapshot)` leaves in an empty `Snapshot`.
pub record SnapshotCodec (S B : Type 0) : Type 0 where
  pub encode : S → B
  pub decode : B → S
  pub decode-encode : (s : S) → decode (encode s) ≡ s

-- `kv.persister` is the peer's persister, `rf.persister`. `snapShotIndex` is never used.
pub record KvServer (B : Type 0) : Type 0 where
  pub me : ℕ
  pub rf : Raft Op B
  pub dead : Bool
  pub maxraftstate : ℤ
  pub mp : Map Str Str
  pub ck_sessions : Map ℕ Session
  pub log_record : Map ℕ Op
  pub confirm_map : Map ℕ Bool
  pub last_applied : ℕ

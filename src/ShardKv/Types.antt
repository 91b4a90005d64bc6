-- ===== src/ShardKv/Types.antt =====
-- src/shardkv/common.go and server.go: the data of the sharded key/value service. `B` is the type of
-- byte strings.
use mit_6_5840_2024_lab.Common.{ℕ, Bool, List}
use mit_6_5840_2024_lab.Common.Int.{ℤ}
use mit_6_5840_2024_lab.Common.Maps.{Map}
use mit_6_5840_2024_lab.Common.Strings.{Str}
use mit_6_5840_2024_lab.Raft.Types.{Raft}
use mit_6_5840_2024_lab.ShardCtrler.Configs.{Config}

-- `blank` is the string "" that a reply starts with.
pub data Err : Type 0 where
  ok no_key wrong_group wrong_leader commit_timeout failed_to_commit higher_config_num
        lower_config_num blank :
      Err

-- The field `Op` is left out: no code reads it.
pub record PutAppendArgs : Type 0 where
  pub key : Str
  pub value : Str
  pub id : ℤ
  pub req_num : ℕ

pub record GetArgs : Type 0 where
  pub key : Str
  pub id : ℤ
  pub req_num : ℕ

-- `last_op_index` is -1 in a session that came from another group.
pub record Session : Type 0 where
  pub last_op_valid : Bool
  pub last_op_index : ℤ
  pub last_op_number : ℤ
  pub last_op_req_num : ℕ
  pub last_op_shard_num : ℕ

pub record ApplyMovementArgs : Type 0 where
  pub id : ℤ
  pub req_num : ℕ
  pub mp : Map Str Str
  pub sessions : Map Str Session
  pub config : Config
  pub shards : Map ℕ Bool

pub record UpdateShardVecArgs : Type 0 where
  pub id : ℤ
  pub req_num : ℕ
  pub config_num : ℕ
  pub new_vec : List Bool

pub record ChangeConfigArgs : Type 0 where
  pub id : ℤ
  pub req_num : ℕ
  pub old_num : ℕ
  pub new_num : ℕ
  pub config : Config

pub record RequestMapAndSessionArgs : Type 0 where
  pub gid : ℕ
  pub me : ℕ
  pub shards : Map ℕ Bool
  pub config_num : ℕ

pub record RequestMapAndSessionReply : Type 0 where
  pub err : Err
  pub mp : Map Str Str
  pub sessions : Map Str Session

pub record DeleteShardsArgs : Type 0 where
  pub id : ℤ
  pub req_num : ℕ
  pub shards : Map ℕ Bool
  pub config_num : ℕ

-- `Op.Type` with `Op.Args`, and likewise the two arguments of a handler: no other pair is ever made.
pub data Call : Type 0 where
  get : GetArgs → Call
  put : PutAppendArgs → Call
  append : PutAppendArgs → Call
  change_config : ChangeConfigArgs → Call
  apply_movement : ApplyMovementArgs → Call
  delete_shards : DeleteShardsArgs → Call
  update_shard_vec : UpdateShardVecArgs → Call

-- `number` is -1 for an operation that could not be applied.
pub record Op : Type 0 where
  pub number : ℤ
  pub req_num : ℕ
  pub ck_id : ℤ
  pub shard_num : ℕ
  pub args : Call

-- The replies of all operations: `value` is that of Get, `num` that of ChangeConfig.
pub record Reply : Type 0 where
  pub err : Err
  pub value : Str
  pub num : ℕ

pub record Snapshot : Type 0 where
  pub mp : Map Str Str
  pub ck_sessions : Map Str Session
  pub config : Config
  pub shard_last_nums : List ℕ
  pub shard_vec : List Bool
  pub maker : ℕ

-- `kv.persister` is the peer's; the connections to other servers are not fields.
pub record ShardKv (B : Type 0) : Type 0 where
  pub me : ℕ
  pub rf : Raft Op B
  pub gid : ℕ
  pub config : Config
  pub dead : Bool
  pub maxraftstate : ℤ
  pub mp : Map Str Str
  pub ck_sessions : Map Str Session
  pub log_record : Map ℕ Op
  pub confirm_map : Map ℕ Bool
  pub last_applied : ℕ
  pub uid : ℤ
  pub local_req_num : ℕ
  pub shard_last_nums : List ℕ
  pub shard_vec : List Bool

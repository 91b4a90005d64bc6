-- ===== src/ShardKv/Tests.antt =====
-- The theorems about the sharded key/value service at concrete servers.
use mit_6_5840_2024_lab.Common.{
  ℕ, ◌≡◌, refl, Bool, true, false, Option, none, some, [], ◌∷◌, arith, Returns, replicate,
}
use mit_6_5840_2024_lab.Common.Int.{ℤ, pos, negsuc}
use mit_6_5840_2024_lab.Common.Maps.{Map, lookup, nat_eq}
use mit_6_5840_2024_lab.Common.Merges.{UniqueKeys}
use mit_6_5840_2024_lab.Common.Strings.{str_eq, str_beq}
use mit_6_5840_2024_lab.Raft.Types.{leader, noop, Saved, Codec, Raft}
use mit_6_5840_2024_lab.KvRaft.Types.{SnapshotCodec}
use mit_6_5840_2024_lab.ShardCtrler.Configs.{Config}
use mit_6_5840_2024_lab.ShardKv.Types.{
  ShardKv, Op, append, Snapshot, Session, DeleteShardsArgs, delete_shards,
}
use mit_6_5840_2024_lab.ShardKv.Keys.{key2shard, uni_key, digits, format_int, is_clients}
use mit_6_5840_2024_lab.ShardKv.Keys.Unique.{uni_key-inj}
use mit_6_5840_2024_lab.ShardKv.Apply.{apply_op, sessions_within}
use mit_6_5840_2024_lab.ShardKv.Apply.Effects.{Deleted, apply_delete-Deleted}
use mit_6_5840_2024_lab.ShardKv.Server.{
  op_of, apply_command, remembered, recorded, is_stable, op_key,
}
use mit_6_5840_2024_lab.ShardKv.Server.Sized.{Sized}
use mit_6_5840_2024_lab.ShardKv.Server.Failures.{Refused, IsUnserved, apply_command-Refused}
use mit_6_5840_2024_lab.ShardKv.Movement.{to_receive, is_asked_session}
use mit_6_5840_2024_lab.ShardKv.Movement.Disjoint.{Begins, way_to, way_to-disjoint}
use mit_6_5840_2024_lab.Common.{List, ◌&&◌, get_or}
use mit_6_5840_2024_lab.ShardKv.Types.{Call, apply_movement, change_config}
use mit_6_5840_2024_lab.ShardKv.Client.{
  Network, Answers, make_clerk, try_servers, call_until_ok, call_until_ok-Returns,
}
use mit_6_5840_2024_lab.ShardKv.Server.{failure}
use mit_6_5840_2024_lab.ShardKv.Types.{get, ok}
use mit_6_5840_2024_lab.Common.{if◌then◌else◌}
use mit_6_5840_2024_lab.ShardKv.Movement.Receive.{needs, needs-to_receive}
use mit_6_5840_2024_lab.ShardKv.Movement.Transfer.{
  Transferred, movement, apply_movement-Transferred, moved-once,
}

data Bytes : Type 0 where
  nothing : Bytes
  state : Saved Op → Bytes
  image : Snapshot → Bytes

abbrev first_config : Config
first_config = record { num = 0; shards = replicate 10 0; groups = [] }

abbrev read_state : Bytes → Option (Saved Op)
read_state (state s) = some s
read_state _ = none

abbrev read_image : Bytes → Snapshot
read_image (image s) = s
read_image _ = record {
  mp = [];
  ck_sessions = [];
  config = first_config;
  shard_last_nums = replicate 10 0;
  shard_vec = replicate 10 false;
  maker = 0;
}

abbrev byte_count : Bytes → ℕ
byte_count nothing = 0
byte_count _ = 1

instance abbrev plain : Codec Op Bytes
plain = record {
  encode = λ s. state s;
  decode = read_state;
  size = byte_count;
  empty = nothing;
  decode-encode = λ s. refl;
  size-encode = λ s. omega arith;
  size-empty = refl;
}

instance abbrev images : SnapshotCodec Snapshot Bytes
images = record { encode = λ s. image s; decode = read_image; decode-encode = λ s. refl }

abbrev peer : Raft Op Bytes
peer = record {
  me = 0;
  peers = 3;
  persister = record { raftstate = nothing; snapshot = nothing };
  dead = false;
  state = leader;
  current_term = 2;
  log = record {
    first = record { term = 1; type = noop; index = 0; command = none };
    rest = record { term = 2; type = noop; index = 1; command = none } ∷ [];
  };
  voted_for = some 0;
  snapshot = nothing;
  snapshot_index = 0;
  snapshot_term = 0;
  commit_index = 1;
  last_applied = 1;
  next_index = 2 ∷ 2 ∷ 2 ∷ [];
  match_index = 1 ∷ 1 ∷ 0 ∷ [];
  last_heart_beat = 0;
  apply_queue = [];
  apply_ch = [];
}

-- Group 100 has all shards, and then gives shards 0 to 4 to group 101.
abbrev old_config : Config
old_config = record { num = 1; shards = replicate 10 100; groups = (100, (1 ∷ []) ∷ []) ∷ [] }

abbrev new_config : Config
new_config = record {
  num = 2;
  shards = 101 ∷ 101 ∷ 101 ∷ 101 ∷ 101 ∷ 100 ∷ 100 ∷ 100 ∷ 100 ∷ 100 ∷ [];
  groups = (100, (1 ∷ []) ∷ []) ∷ (101, (2 ∷ []) ∷ []) ∷ [];
}

abbrev moved_shards : Map ℕ Bool
moved_shards = (2, true) ∷ (4, true) ∷ []

-- A server of group 101 on its way to the new configuration.
abbrev dst : ShardKv Bytes
dst = record {
  me = 0;
  rf = peer;
  gid = 101;
  config = old_config;
  dead = false;
  maxraftstate = pos 0;
  mp = [];
  ck_sessions = [];
  log_record = [];
  confirm_map = [];
  last_applied = 0;
  uid = negsuc 6;
  local_req_num = 1;
  shard_last_nums = replicate 10 0;
  shard_vec = replicate 10 false;
}

abbrev client_op : Op
client_op =
    op_of (append (record { key = 2 ∷ []; value = 9 ∷ []; id = pos 5; req_num = 3 })) (pos 77)

abbrev client_session : Session
client_session = record {
  last_op_valid = true;
  last_op_index = pos 4;
  last_op_number = pos 76;
  last_op_req_num = 3;
  last_op_shard_num = 2;
}

-- A server of group 100 that has made the change.
abbrev src : ShardKv Bytes
src = record dst {
  gid = 100;
  config = new_config;
  mp = (2 ∷ [], 9 ∷ []) ∷ (7 ∷ [], 8 ∷ []) ∷ [];
  ck_sessions = (uni_key (pos 5) 2, client_session) ∷ [];
  shard_last_nums = replicate 10 1;
  shard_vec = replicate 10 false;
}

dst-Sized : Sized dst
dst-Sized = record { vec = refl; nums = refl; sessions = refl }

uni_key-inj_example : (◌≡◌ {A = ℤ} (pos 5) (pos 5)) × (◌≡◌ {A = ℕ} 2 2)
uni_key-inj_example = uni_key-inj (pos 5) (pos 5) 2 2 (omega arith) (omega arith) refl

dst_serves_nothing : IsUnserved dst client_op.args
unfolding key2shard
dst_serves_nothing = refl

client_op_is_new : is_stable (lookup (op_key client_op) dst.ck_sessions) client_op 1 ≡ false
unfolding is_stable lookup
client_op_is_new = refl

apply_command-Refused_example : Returns (Refused dst client_op 1) (apply_command dst client_op 1)
apply_command-Refused_example =
    apply_command-Refused dst client_op 1 77 dst_serves_nothing client_op_is_new refl refl

src_keys : UniqueKeys src.mp
unfolding lookup str_beq
src_keys = (refl, (refl, tt))

src_sessions : UniqueKeys src.ck_sessions
unfolding lookup
src_sessions = (refl, tt)

src_session : lookup (op_key client_op) src.ck_sessions ≡ some client_session
unfolding lookup str_beq uni_key format_int digits key2shard
src_session = refl

src_session_is_asked : is_asked_session moved_shards (op_key client_op) client_session ≡ true
unfolding lookup is_clients uni_key format_int digits key2shard
src_session_is_asked = refl

src_sessions_within : sessions_within 10 src.ck_sessions ≡ true
unfolding is_clients uni_key format_int digits
src_sessions_within = refl

apply_movement-Transferred_example :
    Returns
      (λ r. Transferred src dst moved_shards 2 r.0 × (r.1 ≡ true))
      (apply_op dst (movement src dst dst new_config moved_shards))
apply_movement-Transferred_example =
    apply_movement-Transferred src dst dst new_config moved_shards
      (refl, omega arith, src_keys, src_sessions) src_sessions_within refl dst-Sized

moved-once_example :
    Returns
      (λ r.
        apply_command r.0 client_op 2 ≡ some (remembered (recorded r.0 client_op 2) client_op 2))
      (apply_op dst (movement src dst dst new_config moved_shards))
moved-once_example =
    moved-once src dst dst new_config moved_shards client_op 2 client_session
      (refl, omega arith, src_keys, src_sessions) src_sessions_within refl dst-Sized src_session
      src_session_is_asked refl refl (omega arith)

abbrev deletion : DeleteShardsArgs
deletion = record { id = negsuc 6; req_num = 2; shards = moved_shards; config_num = 2 }

moved_shards_unique : UniqueKeys moved_shards
unfolding lookup
moved_shards_unique = (refl, (refl, tt))

apply_delete-Deleted_example :
    Returns (λ r. Deleted src deletion r.0) (apply_op src (delete_shards deletion))
apply_delete-Deleted_example =
    apply_delete-Deleted src deletion src_keys src_sessions moved_shards_unique refl

needs-to_receive_example : needs (to_receive dst new_config) 100 2 ≡ true
needs-to_receive_example =
    needs-to_receive dst new_config 100 2 (λ e. absurd (cc)) (λ e. absurd (cc)) refl refl

-- Group 101 takes shards 2 and 4, and group 100, which has all, changes with a client's call.
abbrev giver : ShardKv Bytes
giver = record dst { gid = 100; shard_vec = replicate 10 true }

abbrev taker_calls : List Call
taker_calls =
    apply_movement (record {
      id = negsuc 6;
      req_num = 2;
      mp = (2 ∷ [], 9 ∷ []) ∷ [];
      sessions = [];
      config = new_config;
      shards = moved_shards;
    })
    ∷ change_config
        (record { id = negsuc 6; req_num = 3; old_num = 1; new_num = 2; config = new_config })
    ∷ []

abbrev giver_calls : List Call
giver_calls = client_op.args ∷ []

dst-Begins : Begins dst new_config
dst-Begins = record { sized = dst-Sized; old_shards = refl; new_shards = refl; later = omega arith }

giver-Begins : Begins giver new_config
giver-Begins = record {
  sized = record { vec = refl; nums = refl; sessions = refl };
  old_shards = refl;
  new_shards = refl;
  later = omega arith;
}

way_to-disjoint_example :
    Returns
      (λ a'.
        Returns
          (λ b'. (get_or a'.shard_vec 2 false && get_or b'.shard_vec 2 false) ≡ false)
          (way_to giver new_config giver_calls))
      (way_to dst new_config taker_calls)
way_to-disjoint_example =
    way_to-disjoint dst giver new_config taker_calls giver_calls 2 dst-Begins giver-Begins
      (λ e. absurd (omega arith)) ((refl, (refl, tt)), (refl, refl), (refl, refl, tt)) (tt, tt, tt)

-- The server of group 101 answers.
abbrev answers : Network
answers round server args = if str_beq server (2 ∷ []) then some (failure ok) else none

abbrev client_call : Call
client_call = get (record { key = 2 ∷ []; id = pos 5; req_num = 1 })

clerk_is_answered : Answers answers client_call 1 new_config (failure ok)
unfolding lookup key2shard try_servers str_beq
clerk_is_answered = refl

call_until_ok-Returns_example :
    Returns
      (λ r. (n : ℕ) × Answers answers client_call n r.0.config r.1 × (r.0.id ≡ 5))
      (call_until_ok answers (λ round. new_config) client_call 2 (make_clerk 5) 0)
call_until_ok-Returns_example =
    call_until_ok-Returns answers (λ round. new_config) client_call 0 0 0 (make_clerk 5)
      (failure ok) (omega arith) clerk_is_answered

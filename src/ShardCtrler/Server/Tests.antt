-- ===== src/ShardCtrler/Server/Tests.antt =====
-- The theorems about the controller's server at a concrete one.
use mit_6_5840_2024_lab.Common.{
  ℕ, ◌≡◌, refl, true, false, Option, none, some, [], ◌∷◌, arith, Returns,
}
use mit_6_5840_2024_lab.Common.Int.{pos, negsuc}
use mit_6_5840_2024_lab.Raft.Types.{leader, noop, Saved, Codec}
use mit_6_5840_2024_lab.Raft.Apply.{command_msg}
use mit_6_5840_2024_lab.KvRaft.Types.{SnapshotCodec}
use mit_6_5840_2024_lab.ShardCtrler.Configs.{Config, initial_configs, join}
use mit_6_5840_2024_lab.ShardCtrler.History.{IsSound}
use mit_6_5840_2024_lab.ShardCtrler.Server.{
  ShardCtrler, Op, update, query, Snapshot, success_commit, handle_apply_msg,
}
use mit_6_5840_2024_lab.ShardCtrler.Server.Numbers.{
  MsgFits, Advanced, initial_configs-Numbered, handle_apply_msg-Advanced,
}
use mit_6_5840_2024_lab.ShardCtrler.Server.Query.{success_commit-query}

data Bytes : Type 0 where
  nothing : Bytes
  state : Saved Op → Bytes
  image : Snapshot → Bytes

abbrev read_state : Bytes → Option (Saved Op)
read_state (state s) = some s
read_state _ = none

abbrev read_image : Bytes → Snapshot
read_image (image s) = s
read_image _ = record { configs = initial_configs; ck_sessions = []; maker = 0 }

abbrev byte_count : Bytes → ℕ
byte_count nothing = 0
byte_count _ = 1

instance abbrev plain : Codec Op Bytes
plain = record {
  encode = λ s. state s;
  decode = read_state;
  size = byte_count;
  empty = nothing;
  decode-encode = λ s. refl;
  size-encode = λ s. omega arith;
  size-empty = refl;
}

instance abbrev images : SnapshotCodec Snapshot Bytes
images = record { encode = λ s. image s; decode = read_image; decode-encode = λ s. refl }

abbrev server : ShardCtrler Bytes
server = record {
  me = 0;
  rf = record {
    me = 0;
    peers = 3;
    persister = record { raftstate = nothing; snapshot = nothing };
    dead = false;
    state = leader;
    current_term = 2;
    log = record {
      first = record { term = 1; type = noop; index = 0; command = none };
      rest = record { term = 2; type = noop; index = 1; command = none } ∷ [];
    };
    voted_for = some 0;
    snapshot = nothing;
    snapshot_index = 0;
    snapshot_term = 0;
    commit_index = 1;
    last_applied = 1;
    next_index = 2 ∷ 2 ∷ 2 ∷ [];
    match_index = 1 ∷ 1 ∷ 0 ∷ [];
    last_heart_beat = 0;
    apply_queue = [];
    apply_ch = [];
  };
  dead = false;
  maxraftstate = pos 8192;
  configs = initial_configs;
  ck_sessions = [];
  log_record = [];
  confirm_map = [];
  last_applied = 0;
}

abbrev join_op : Op
join_op = record {
  call = update (join ((1, (7 ∷ []) ∷ []) ∷ []));
  number = 9;
  req_num = 1;
  ck_id = 3;
}

join-MsgFits : MsgFits {B = Bytes} (command_msg (some join_op) 1)
join-MsgFits = record { command = λ e. (join_op, refl, tt); snapshot = λ e. absurd (cc) }

handle_apply_msg-Advanced_example :
    Returns (Advanced server true) (handle_apply_msg server (command_msg (some join_op) 1))
handle_apply_msg-Advanced_example =
    handle_apply_msg-Advanced server (command_msg (some join_op) 1) initial_configs-Numbered
      join-MsgFits

success_commit-query_example :
    Returns
      (λ reply. (c : Config) × (reply.config ≡ some c) × IsSound c × (c.num ≡ 0))
      (success_commit server (query (negsuc 0)))
success_commit-query_example = success_commit-query server (negsuc 0) initial_configs-Numbered refl

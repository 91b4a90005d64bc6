-- ===== src/KvRaft/Tests.antt =====
-- The theorems about the key/value service at concrete servers.
use mit_6_5840_2024_lab.Common.{
  ℕ, zero, suc, ◌≡◌, refl, Bool, false, Option, none, some, List, [], ◌∷◌, arith, Returns, ◌>>=◌,
}
use mit_6_5840_2024_lab.Common.Int.{pos, negsuc}
use mit_6_5840_2024_lab.Common.Maps.{lookup, nat_eq}
use mit_6_5840_2024_lab.Common.Strings.{str_eq, str_beq}
use mit_6_5840_2024_lab.Raft.Types.{leader, noop, Saved, Codec, Raft}
use mit_6_5840_2024_lab.Raft.Index.{external_index}
use mit_6_5840_2024_lab.Raft.Persist.{snapshot_msg}
use mit_6_5840_2024_lab.Raft.Apply.{command_msg}
use mit_6_5840_2024_lab.Raft.Shape.{IsValid as RaftIsValid}
use mit_6_5840_2024_lab.KvRaft.Types.{
  ok, get, append, Request, Op, Snapshot, SnapshotCodec, KvServer,
}
use mit_6_5840_2024_lab.KvRaft.Server.{
  op_of, handle_apply_msg, waitting_for_commit, snapshot_of, poll, finished,
}
use mit_6_5840_2024_lab.Common.{◌&&◌, not, if◌then◌else◌}
use mit_6_5840_2024_lab.KvRaft.Client.{Network, clerk_get, make_clerk}
use mit_6_5840_2024_lab.KvRaft.Retries.{GetDone, clerk_get-Returns}
use mit_6_5840_2024_lab.KvRaft.Once.{
  effective, times, History, IsValid, execute_all, history, occurs, is_repeat,
}
use mit_6_5840_2024_lab.KvRaft.Effects.{feed, Fed, feed-Fed, feed-once}
use mit_6_5840_2024_lab.KvRaft.Replicas.{Agrees, feed-Agrees, catch_up}
use mit_6_5840_2024_lab.KvRaft.Replies.{
  Committed, Seen, waitting_for_commit-Committed, handle_apply_msg-poll,
}

-- Bytes are what was encoded: a peer's state, a server's snapshot, or nothing.
data Bytes : Type 0 where
  nothing : Bytes
  state : Saved Op → Bytes
  image : Snapshot → Bytes

abbrev read_state : Bytes → Option (Saved Op)
read_state (state s) = some s
read_state _ = none

abbrev read_image : Bytes → Snapshot
read_image (image s) = s
read_image _ = record { mp = []; ck_sessions = []; maker = 0 }

abbrev byte_count : Bytes → ℕ
byte_count nothing = 0
byte_count _ = 1

instance abbrev plain : Codec Op Bytes
plain = record {
  encode = λ s. state s;
  decode = read_state;
  size = byte_count;
  empty = nothing;
  decode-encode = λ s. refl;
  size-encode = λ s. omega arith;
  size-empty = refl;
}

instance abbrev images : SnapshotCodec Snapshot Bytes
images = record { encode = λ s. image s; decode = read_image; decode-encode = λ s. refl }

abbrev peer : Raft Op Bytes
peer = record {
  me = 0;
  peers = 3;
  persister = record { raftstate = nothing; snapshot = nothing };
  dead = false;
  state = leader;
  current_term = 2;
  log = record {
    first = record { term = 1; type = noop; index = 0; command = none };
    rest = record { term = 2; type = noop; index = 1; command = none } ∷ [];
  };
  voted_for = some 0;
  snapshot = nothing;
  snapshot_index = 0;
  snapshot_term = 0;
  commit_index = 1;
  last_applied = 1;
  next_index = 2 ∷ 2 ∷ 2 ∷ [];
  match_index = 1 ∷ 1 ∷ 0 ∷ [];
  last_heart_beat = 0;
  apply_queue = [];
  apply_ch = [];
}

peer-IsValid : RaftIsValid peer
peer-IsValid = record {
  starts = refl;
  consecutive = (refl, tt);
  applied = omega arith;
  follows = refl;
  matches = refl;
  own = omega arith;
}

peer_last : external_index peer 1 ≡ some 0
unfolding external_index
peer_last = refl

-- A server that makes a snapshot after each command.
abbrev server : KvServer Bytes
server = record {
  me = 0;
  rf = peer;
  dead = false;
  maxraftstate = pos 0;
  mp = [];
  ck_sessions = [];
  log_record = [];
  confirm_map = [];
  last_applied = 0;
}

server-IsValid : IsValid server
unfolding lookup
server-IsValid c = tt

abbrev other : KvServer Bytes
other = record server { me = 1; maxraftstate = negsuc 0 }

abbrev append_op : ℕ → ℕ → Op
append_op number n = record {
  type = append;
  number = number;
  key = 1 ∷ [];
  value = 7 ∷ [];
  req_num = n;
  ck_id = 5;
}

-- The second request is in the log twice.
abbrev commands : List Op
commands = append_op 50 1 ∷ append_op 51 2 ∷ append_op 52 2 ∷ []

abbrev no_history : History
no_history c = none

feed-once_example :
    Returns
      (λ kv'.
        (kv'.mp ≡ execute_all [] (effective (history server) commands))
        × ((c n : ℕ)
            → times c n (effective (history server) commands)
              ≡ (if occurs c n commands && not (is_repeat (history server c) n) then 1 else 0)))
      (feed server commands)
unfolding lookup
feed-once_example = feed-once server commands server-IsValid (refl, (refl, (refl, tt)))

feed-Fed_example : Returns (Fed server commands) (feed server commands)
feed-Fed_example = feed-Fed server commands server-IsValid

feed-Agrees_example : Returns (λ a. Returns (Agrees a) (feed other commands)) (feed server commands)
feed-Agrees_example =
    feed-Agrees server other commands server-IsValid
      (record { map = refl; sessions = refl; index = refl })

catch_up_example :
    Returns
      (λ kv'. Returns (Agrees kv') (
        handle_apply_msg other (snapshot_msg (image (snapshot_of server)) 0 2) >>= λ l.
        feed l commands))
      (feed server commands)
catch_up_example = catch_up server other commands 2 server-IsValid

abbrev reading : Request
reading = record { type = get; key = 1 ∷ []; value = []; id = 5; req_num = 3 }

handle_apply_msg-poll_example :
    Returns
      (λ kv'.
        (kv'.confirm_map ≡ [])
        × (poll kv' (append_op 50 1) (pos 1) reading ≡ some (finished kv' reading)))
      (handle_apply_msg server (command_msg (some (append_op 50 1)) 1))
handle_apply_msg-poll_example =
    handle_apply_msg-poll server (append_op 50 1) (append_op 50 1) reading refl

abbrev reached : KvServer Bytes
reached = record server {
  log_record = (1, op_of reading 60) ∷ [];
  last_applied = 1;
  mp = (1 ∷ [], 7 ∷ []) ∷ [];
}

abbrev looks : List (KvServer Bytes × Bool)
looks = (server, false) ∷ (reached, false) ∷ []

looks_ok : (waitting_for_commit 0 looks (op_of reading 60) (pos 1) reading).err ≡ ok
unfolding waitting_for_commit lookup str_beq
looks_ok = refl

waitting_for_commit-Committed_example :
    Seen
      (Committed
        (op_of reading 60)
        (pos 1)
        reading
        (waitting_for_commit 0 looks (op_of reading 60) (pos 1) reading))
      looks
waitting_for_commit-Committed_example =
    waitting_for_commit-Committed 0 looks (op_of reading 60) (pos 1) reading looks_ok

-- Server 0 cannot be reached, and server 1 answers.
abbrev net : Network
net attempt zero req = none
net attempt (suc s) req = some (record { err = ok; value = 7 ∷ []; server_name = suc s })

clerk_get-Returns_example :
    Returns (GetDone net (make_clerk 2 5) (1 ∷ [])) (clerk_get net 2 (make_clerk 2 5) (1 ∷ []))
clerk_get-Returns_example =
    clerk_get-Returns net (make_clerk 2 5) (1 ∷ []) 1 (omega arith) (omega arith) (λ a req. refl)

-- An old request of the client between two copies of the newer one: the newer one takes effect
-- twice, since the session forgets its number.
repeated_after_old :
    times 5 2 (effective no_history (append_op 50 2 ∷ append_op 51 1 ∷ append_op 52 2 ∷ [])) ≡ 2
unfolding effective
repeated_after_old = refl

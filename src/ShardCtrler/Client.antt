-- ===== src/ShardCtrler/Client.antt =====
-- src/shardctrler/client.go: the clerk. The servers and the network are a function from the numbers
-- of a round and of a server to the outcome of `Call`, `none` if it fails.
use mit_6_5840_2024_lab.Common.{
  ℕ, zero, suc, ◌+◌, Bool, true, false, not, ◌&&◌, Option, none, some, if◌then◌else◌, ◌>>=◌,
}
use mit_6_5840_2024_lab.Common.Int.{ℤ}
use mit_6_5840_2024_lab.ShardCtrler.Configs.{Config, Change}
use mit_6_5840_2024_lab.ShardCtrler.Server.{Err, ok, Call, update, query, Request, Reply}

-- `servers` is the number of servers.
pub record Clerk : Type 0 where
  pub servers : ℕ
  pub id : ℕ
  pub req_num : ℕ

abbrev pub Network : Type 0
Network = ℕ → ℕ → Request → Option Reply

abbrev pub make_clerk : ℕ → ℕ → Clerk
make_clerk servers id = record { servers = servers; id = id; req_num = 1 }

abbrev is_ok : Err → Bool
is_ok ok = true
is_ok _ = false

-- `ok && !reply.WrongLeader && reply.Err == ERR_OK`
abbrev pub is_success : Option Reply → Bool
is_success none = false
is_success (some reply) = not reply.wrong_leader && is_ok reply.err

-- The inner loop over the servers: `left` of them, from server `server` on.
unfoldable pub try_servers : (ℕ → Request → Option Reply) → Request → ℕ → ℕ → Option Reply
try_servers net req zero server = none
try_servers net req (suc left) server =
    let later = try_servers net req left (server + 1) in
    if is_success (net server req) then net server req else later

-- The outer loop. `none` is a loop that goes on after `fuel` rounds.
unfoldable pub call_until_ok : Network → Request → ℕ → ℕ → ℕ → Option Reply
unfolding try_servers
call_until_ok net req servers zero round = none
call_until_ok net req servers (suc fuel) round =
    let later = call_until_ok net req servers fuel (round + 1) in
    elim (try_servers (net round) req servers 0) [ some reply ↦ some reply | none ↦ later ]

abbrev advance : Clerk → Clerk
advance ck = record ck { req_num = ck.req_num + 1 }

abbrev request_of : Clerk → Call → Request
request_of ck call = record { call = call; id = ck.id; req_num = ck.req_num }

unfoldable pub clerk_query : Network → ℕ → Clerk → ℤ → Option (Clerk × Option Config)
unfolding call_until_ok
clerk_query net fuel ck num = do
  reply ← call_until_ok net (request_of ck (query num)) ck.servers fuel 0
  some (advance ck, reply.config)

-- `Join`, `Leave` and `Move`
unfoldable pub clerk_update : Network → ℕ → Clerk → Change → Option Clerk
unfolding call_until_ok
clerk_update net fuel ck change = do
  reply ← call_until_ok net (request_of ck (update change)) ck.servers fuel 0
  some (advance ck)

-- ===== src/KvRaft/Client.antt =====
-- src/kvraft/client.go: the clerk. The network and the servers are a function from the number of
-- an attempt and of the server to the outcome of `Call`: `none` if it fails.
use mit_6_5840_2024_lab.Common.{
  ℕ, zero, suc, ◌+◌, ◌%◌, Bool, true, false, Option, none, some, [], if◌then◌else◌, ◌>>=◌,
}
use mit_6_5840_2024_lab.Common.Strings.{Str}
use mit_6_5840_2024_lab.KvRaft.Types.{Err, ok, OpType, Request, Reply}
use mit_6_5840_2024_lab.KvRaft.Server.{get_request, put_append_request}

-- `servers` is the number of servers.
pub record Clerk : Type 0 where
  pub servers : ℕ
  pub id : ℕ
  pub leader : ℕ
  pub req_num : ℕ

abbrev pub Network : Type 0
Network = ℕ → ℕ → Request → Option Reply

abbrev pub make_clerk : ℕ → ℕ → Clerk
make_clerk servers id = record { servers = servers; id = id; leader = 0; req_num = 1 }

abbrev is_ok : Err → Bool
is_ok ok = true
is_ok _ = false

-- `ok && reply.Err == ERR_OK`
abbrev pub is_success : Option Reply → Bool
is_success none = false
is_success (some reply) = is_ok reply.err

-- The loop of `Get` and `PutAppend`: from server `server` on, with attempts numbered from `attempt`.
-- `none` is a loop that goes on after `fuel` attempts.
unfoldable pub call_until_ok : Network → Request → ℕ → Clerk → ℕ → ℕ → Option (Clerk × Option Reply)
call_until_ok net req zero ck server attempt = none
call_until_ok net req (suc fuel) ck server attempt =
    let later = call_until_ok net req fuel ck ((server + 1) % ck.servers) (attempt + 1) in
    if is_success (net attempt server req)
    then some (record ck { leader = server }, net attempt server req)
    else later

abbrev pub value_in : Option Reply → Str
value_in none = []
value_in (some reply) = reply.value

abbrev advance : Clerk → Clerk
advance ck = record ck { req_num = ck.req_num + 1 }

unfoldable pub clerk_get : Network → ℕ → Clerk → Str → Option (Clerk × Str)
unfolding call_until_ok
clerk_get net fuel ck key = do
  (ck1, reply) ←
      call_until_ok net (get_request (record { key = key; id = ck.id; req_num = ck.req_num })) fuel
        (advance ck) ck.leader 0
  some (ck1, value_in reply)

unfoldable pub clerk_put_append : Network → ℕ → Clerk → Str → Str → OpType → Option Clerk
unfolding call_until_ok
clerk_put_append net fuel ck key value op = do
  (ck1, reply) ←
      call_until_ok net
        (put_append_request op
          (record { key = key; value = value; id = ck.id; req_num = ck.req_num }))
        fuel (advance ck) ck.leader 0
  some ck1

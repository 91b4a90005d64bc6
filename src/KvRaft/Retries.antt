-- ===== src/KvRaft/Retries.antt =====
-- The clerk's loop finds a server that answers.
use native.Mathlib.Decide.{dec_lt}
use mit_6_5840_2024_lab.Common.Rings.{mod_small, mod_self}
use mit_6_5840_2024_lab.Common.{
  ℕ, zero, suc, ◌+◌, ◌-◌, ◌<◌, ◌%◌, ◌≡◌, ◌≢◌, refl, ap, sym, Returns-bind, true, Option, none, some,
  arith, if◌then◌else◌, Returns, Bool-cases, inl, inr, leb,
}
use mit_6_5840_2024_lab.Common.Strings.{Str}
use mit_6_5840_2024_lab.KvRaft.Types.{Request, Reply}
use mit_6_5840_2024_lab.KvRaft.Server.{get_request}
use mit_6_5840_2024_lab.KvRaft.Client.{
  Clerk, Network, value_in, is_success, call_until_ok, clerk_get,
}

-- How many servers come before `s`, from `server` on.
abbrev distance : ℕ → ℕ → ℕ → ℕ
distance n server s = if leb server s then s - server else s + n - server

-- The next server is one nearer, unless this is the one.
distance-next :
    (n server s : ℕ)
    → server < n
    → s < n
    → server ≢ s
    → ((server + 1) % n < n) × (distance n ((server + 1) % n) s + 1 ≡ distance n server s)
distance-next zero server s h hs ne = absurd (omega arith)
distance-next (suc m) server s h hs ne = elim (dec_lt (server + 1) (suc m)) [
  | yes lt ↦ rw (mod_small (server + 1) (suc m) lt) (ground arith)
  | no ge ↦
      let last : server + 1 ≡ suc m = omega arith in
      rw (mod_self (server + 1) m last) (ground arith)
]

-- The result of a loop that ends.
pub record Found (net : Network) (req : Request) (ck : Clerk) (r : Clerk × Option Reply)
    : Type 0 where
  pub success : is_success r.1 ≡ true
  pub clerk : r.0 ≡ record ck { leader = r.0.leader }
  pub sent : (attempt : ℕ) × (r.1 ≡ net attempt r.0.leader req)
  pub known : r.0.leader < ck.servers

call_until_ok-Found :
    (net : Network) (req : Request) (s fuel : ℕ) (ck : Clerk) (server attempt : ℕ)
    → s < ck.servers
    → server < ck.servers
    → ((a : ℕ) → is_success (net a s req) ≡ true)
    → distance ck.servers server s < fuel
    → Returns (Found net req ck) (call_until_ok net req fuel ck server attempt)
unfolding call_until_ok
call_until_ok-Found net req s zero ck server attempt hs h up enough = absurd (omega arith)
call_until_ok-Found net req s (suc fuel) ck server attempt hs h up enough =
    elim (Bool-cases (is_success (net attempt server req))) [
      | inl e ↦ rw e (record { success = e; clerk = refl; sent = (attempt, refl); known = h })
      | inr e ↦
          let other : server ≢ s =
            λ same. (let here = rw (← same) at (up attempt) in absurd (cc)) in
          let (lt, nearer) = distance-next ck.servers server s h hs other in
          rw e (
            call_until_ok-Found net req s fuel ck ((server + 1) % ck.servers) (attempt + 1) hs lt up
              (omega arith))
    ]

-- What `Get` makes of the loop's result.
abbrev pub GetDone : Network → Clerk → Str → Clerk × Str → Type 0
GetDone net ck key r =
    (r.0.leader < ck.servers)
    × (r.0.req_num ≡ ck.req_num + 1)
    × ((attempt : ℕ) × (reply : Reply) × (net attempt r.0.leader
            (get_request (record { key = key; id = ck.id; req_num = ck.req_num }))
          ≡ some reply)
        × (is_success (some reply) ≡ true)
        × (r.1 ≡ reply.value))

Found-GetDone :
    (net : Network) (ck : Clerk) (key : Str) (r : Clerk × Option Reply)
    → Found net
        (get_request (record { key = key; id = ck.id; req_num = ck.req_num }))
        (record ck { req_num = ck.req_num + 1 })
        r
    → GetDone net ck key (r.0, value_in r.1)
Found-GetDone net ck key (ck1, none) f = absurd (let h = f.success in cc)
Found-GetDone net ck key (ck1, some reply) f =
    (f.known, ap (λ c. c.req_num) f.clerk, (f.sent.0, reply, sym f.sent.1, f.success, refl))

-- If one of the servers answers every attempt with ERR_OK, and the clerk's leader is one of the
-- servers, Get ends after at most as many attempts as there are servers, whatever the other servers
-- and the network do. It returns the value of a reply with ERR_OK by a server that it takes for the
-- leader from then on, and has used one request number.
pub clerk_get-Returns :
    (net : Network) (ck : Clerk) (key : Str) (s : ℕ)
    → ck.leader < ck.servers
    → s < ck.servers
    → ((a : ℕ) (req : Request) → is_success (net a s req) ≡ true)
    → Returns (GetDone net ck key) (clerk_get net ck.servers ck key)
unfolding clerk_get
clerk_get-Returns net ck key s h hs up =
    let req = get_request (record { key = key; id = ck.id; req_num = ck.req_num }) in
    Returns-bind (Found net req (record ck { req_num = ck.req_num + 1 })) (GetDone net ck key) _
      (λ r. some (r.0, value_in r.1))
      (call_until_ok-Found net req s ck.servers (record ck { req_num = ck.req_num + 1 }) ck.leader 0
        hs h (λ a. up a req) (ground arith))
      (λ r f. Found-GetDone net ck key r f)

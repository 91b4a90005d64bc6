-- ===== src/KvSrv/Client.antt =====
-- src/kvsrv/client.go: the clerk, whose calls are retried until one succeeds. What the server
-- receives during a call is a list of requests: those of other clerks, and every copy of the call's
-- own request that arrives, whether its reply does or not.
use mit_6_5840_2024_lab.Common.{
  ℕ, zero, suc, ◌+◌, ◌≡◌, Bool, false, not, Option, none, some, List, [], ◌∷◌, ◌>>=◌, arith,
  Returns, Option-cases, inl, inr,
}
use mit_6_5840_2024_lab.Common.Strings.{Str}
use mit_6_5840_2024_lab.KvSrv.Server.{PutAppendArgs, GetArgs, KvServer, get, put, append}

pub record Clerk : Type 0 where
  pub id : ℕ
  pub opstate : Bool

pub data Request : Type 0 where
  gets : GetArgs → Request
  puts : PutAppendArgs → Request
  appends : PutAppendArgs → Request

unfoldable pub serve : KvServer → Request → KvServer
unfolding get put append
serve kv (gets args) = (get kv args).0
serve kv (puts args) = (put kv args).0
serve kv (appends args) = (append kv args).0

unfoldable pub serve_all : KvServer → List Request → KvServer
unfolding serve
serve_all kv [] = kv
serve_all kv (req ∷ reqs) = serve_all (serve kv req) reqs

abbrev pub make_clerk : ℕ → Clerk
make_clerk id = record { id = id; opstate = false }

-- `PutAppend` before its loop: the arguments of all attempts, and the clerk after them.
unfoldable pub append_args : Clerk → Str → Str → PutAppendArgs × Clerk
append_args ck key value = (
  record { key = key; value = value; id = ck.id; opstate = ck.opstate },
  record ck { opstate = not ck.opstate },
)

unfoldable pub put_args : Clerk → Str → Str → PutAppendArgs × Clerk
put_args ck key value = (record { key = key; value = value; id = ck.id; opstate = ck.opstate }, ck)

abbrev pub get_args : Clerk → Str → GetArgs
get_args ck key = record { key = key; id = ck.id }

-- The loop of `Get` and `PutAppend`, with attempts numbered from `attempt`: `net` tells the reply's
-- value, `none` if the call fails. `none` is a loop that goes on after `fuel` attempts.
unfoldable pub call_until_ok : (ℕ → Option Str) → ℕ → ℕ → Option Str
call_until_ok net zero attempt = none
call_until_ok net (suc fuel) attempt =
    let later = call_until_ok net fuel (attempt + 1) in
    elim (net attempt) [ some value ↦ some value | none ↦ later ]

unfoldable pub clerk_get : (GetArgs → ℕ → Option Str) → ℕ → Clerk → Str → Option Str
unfolding call_until_ok
clerk_get net fuel ck key = call_until_ok (net (get_args ck key)) fuel 0

unfoldable pub clerk_append :
    (PutAppendArgs → ℕ → Option Str) → ℕ → Clerk → Str → Str → Option (Clerk × Str)
unfolding append_args call_until_ok
clerk_append net fuel ck key value =
    let r = append_args ck key value in
    call_until_ok (net r.0) fuel 0 >>= λ reply. some (r.1, reply)

-- `PutAppend` for Put, whose reply is not used.
unfoldable pub clerk_put : (PutAppendArgs → ℕ → Option Str) → ℕ → Clerk → Str → Str → Option Clerk
unfolding put_args call_until_ok
clerk_put net fuel ck key value =
    let r = put_args ck key value in call_until_ok (net r.0) fuel 0 >>= λ reply. some r.1

-- If one of the attempts succeeds, fuel for the attempts up to it is enough, and the value is that
-- of an attempt that succeeded.
pub call_until_ok-Returns :
    (net : ℕ → Option Str) (fuel attempt : ℕ) {value : Str}
    → net (attempt + fuel) ≡ some value
    → Returns (λ v. (n : ℕ) × (net n ≡ some v)) (call_until_ok net (suc fuel) attempt)
unfolding call_until_ok
call_until_ok-Returns net zero attempt e =
    let s : attempt + 0 ≡ attempt = omega arith in
    let e' = rw s at e in rw (e', call_until_ok) (attempt, e')
call_until_ok-Returns net (suc fuel) attempt e = elim (Option-cases (net attempt)) [
  | inl n ↦
      let s : attempt + suc fuel ≡ attempt + 1 + fuel = omega arith in
      rw (n, call_until_ok) (call_until_ok-Returns net fuel (attempt + 1) (rw s at e))
  | inr (v, s) ↦ rw (s, call_until_ok) (attempt, s)
]

-- ===== src/ShardKv/Client.antt =====
-- src/shardkv/client.go: the clerk. The servers and the network are a function from the number of a
-- round and the name of a server to the outcome of `Call`, `none` if it fails, and the shard
-- controller is a function from the number of a round to its latest configuration.
use mit_6_5840_2024_lab.Common.{
  ℕ, zero, suc, ◌+◌, ◌≡◌, refl, Bool, true, false, Option, none, some, List, [], ◌∷◌, get_or,
  replicate, if◌then◌else◌, ◌>>=◌, arith, Option-cases, inl, inr, Returns,
}
use mit_6_5840_2024_lab.Common.Int.{pos}
use mit_6_5840_2024_lab.Common.Maps.{lookup, nat_eq}
use mit_6_5840_2024_lab.Common.Strings.{Str}
use mit_6_5840_2024_lab.ShardCtrler.Configs.{Config}
use mit_6_5840_2024_lab.ShardCtrler.Rebalance.{n_shards}
use mit_6_5840_2024_lab.ShardKv.Types.{Err, ok, no_key, wrong_group, Call, get, put, append, Reply}
use mit_6_5840_2024_lab.ShardKv.Keys.{key2shard, key_of}

pub record Clerk : Type 0 where
  pub config : Config
  pub id : ℕ
  pub req_num : ℕ

abbrev pub Network : Type 0
Network = ℕ → Str → Call → Option Reply

abbrev pub make_clerk : ℕ → Clerk
make_clerk id = record {
  config = record { num = 0; shards = replicate n_shards 0; groups = [] };
  id = id;
  req_num = 1;
}

abbrev is_ok : Err → Bool
is_ok ok = true
is_ok _ = false

-- The errors with which `Get`, and those with which `PutAppend` ends.
abbrev ends : Call → Err → Bool
ends (get args) no_key = true
ends _ err = is_ok err

abbrev is_wrong_group : Err → Bool
is_wrong_group wrong_group = true
is_wrong_group _ = false

-- The loop over the servers of a group: `none` when it leads to another round.
unfoldable pub try_servers : (Str → Call → Option Reply) → Call → List Str → Option Reply
try_servers net args [] = none
try_servers net args (server ∷ servers) =
    let later = try_servers net args servers in
    elim (net server args) [
      | none ↦ later
      | some reply ↦
          if ends args reply.err
          then some reply
          else if is_wrong_group reply.err
          then none
          else later
    ]

-- The servers of the group that has the key's shard
abbrev pub group_of : Config → Call → Option (List Str)
group_of config args = lookup (get_or config.shards (key2shard (key_of args)) 0) config.groups

abbrev pub try_group : (Str → Call → Option Reply) → Call → Option (List Str) → Option Reply
try_group net args none = none
try_group net args (some servers) = try_servers net args servers

-- The outer loop of `Get` and `PutAppend`, from a round on. `none` is a loop that goes on after
-- `fuel` rounds.
unfoldable pub call_until_ok :
    Network → (ℕ → Config) → Call → ℕ → Clerk → ℕ → Option (Clerk × Reply)
unfolding try_servers
call_until_ok net ctrler args zero ck round = none
call_until_ok net ctrler args (suc fuel) ck round =
    let later =
      call_until_ok net ctrler args fuel (record ck { config = ctrler round }) (round + 1) in
    elim (try_group (net round) args (group_of ck.config args)) [
      | some reply ↦ some (ck, reply)
      | none ↦ later
    ]

abbrev advance : Clerk → Clerk
advance ck = record ck { req_num = ck.req_num + 1 }

unfoldable pub clerk_get : Network → (ℕ → Config) → ℕ → Clerk → Str → Option (Clerk × Str)
unfolding call_until_ok
clerk_get net ctrler fuel ck key = do
  (ck1, reply) ←
      call_until_ok net ctrler (get (record { key = key; id = pos ck.id; req_num = ck.req_num }))
        fuel (advance ck) 0
  some (ck1, reply.value)

-- `PutAppend`; `call` is `put` or `append`.
unfoldable pub clerk_put : Network → (ℕ → Config) → ℕ → Clerk → Str → Str → Option Clerk
unfolding call_until_ok
clerk_put net ctrler fuel ck key value = do
  (ck1, reply) ←
      call_until_ok net ctrler
        (put (record { key = key; value = value; id = pos ck.id; req_num = ck.req_num })) fuel
        (advance ck) 0
  some ck1

unfoldable pub clerk_append : Network → (ℕ → Config) → ℕ → Clerk → Str → Str → Option Clerk
unfolding call_until_ok
clerk_append net ctrler fuel ck key value = do
  (ck1, reply) ←
      call_until_ok net ctrler
        (append (record { key = key; value = value; id = pos ck.id; req_num = ck.req_num })) fuel
        (advance ck) 0
  some ck1

-- A round that begins with the configuration `config` gets an answer.
abbrev pub Answers : Network → Call → ℕ → Config → Reply → Type 0
Answers net args round config reply = try_group (net round) args (group_of config args) ≡ some reply

module _ (net : Network) (ctrler : ℕ → Config) (args : Call) where
  call_until_ok-hit :
      (fuel round : ℕ) (ck : Clerk) {reply : Reply}
      → Answers net args round ck.config reply
      → call_until_ok net ctrler args (suc fuel) ck round ≡ some (ck, reply)
  unfolding call_until_ok
  call_until_ok-hit fuel round ck a = ground arith

  call_until_ok-miss :
      (fuel round : ℕ) (ck : Clerk)
      → try_group (net round) args (group_of ck.config args) ≡ none
      → call_until_ok net ctrler args (suc fuel) ck round
        ≡ call_until_ok net ctrler args fuel (record ck { config = ctrler round }) (round + 1)
  unfolding call_until_ok
  call_until_ok-miss fuel round ck n = ground arith

  -- Let the configuration that the controller gives after the round `last` be such that a call of
  -- the next round ends Get, Put or Append. With fuel for the rounds up to that one the loop of the
  -- clerk ends, and the reply is one that ends the call in some round, from the group that has the
  -- key's shard in the configuration that the clerk has then.
  pub call_until_ok-Returns :
      (rounds round last : ℕ) (ck : Clerk) (reply : Reply)
      → last ≡ round + rounds
      → Answers net args (last + 1) (ctrler last) reply
      → Returns
          (λ r. (n : ℕ) × Answers net args n r.0.config r.1 × (r.0.id ≡ ck.id))
          (call_until_ok net ctrler args (suc (suc rounds)) ck round)
  call_until_ok-Returns zero round last ck reply e a =
      let same : last ≡ round = omega arith in
      let a' = rw same at a in
      let next = record ck { config = ctrler round } in
      elim (Option-cases (try_group (net round) args (group_of ck.config args))) [
        | inl n ↦
            rw (call_until_ok-miss 1 round ck n)
              (rw (call_until_ok-hit 0 (round + 1) next a') (round + 1, a', refl))
        | inr (r, y) ↦ rw (call_until_ok-hit 1 round ck y) (round, y, refl)
      ]
  call_until_ok-Returns (suc rounds) round last ck reply e a =
      elim (Option-cases (try_group (net round) args (group_of ck.config args))) [
        | inl n ↦ rw (call_until_ok-miss (suc (suc rounds)) round ck n) (
            call_until_ok-Returns rounds (round + 1) last (record ck { config = ctrler round })
              reply (omega arith) a)
        | inr (r, y) ↦ rw (call_until_ok-hit (suc (suc rounds)) round ck y) (round, y, refl)
      ]

-- ===== src/ShardKv/Keys.antt =====
-- src/shardkv: `key2shard`, and the keys of the sessions, decimal numbers written one after the
-- other.
pub mod Unique
use mit_6_5840_2024_lab.Common.{
  ℕ, zero, suc, ◌+◌, ◌/◌, ◌%◌, Bool, true, false, not, List, [], ◌∷◌, ◌++◌, ltb, ◌==◌,
  if◌then◌else◌,
}
use mit_6_5840_2024_lab.Common.Int.{ℤ, pos, negsuc}
use mit_6_5840_2024_lab.Common.Strings.{Str}
use mit_6_5840_2024_lab.ShardKv.Types.{
  Call, get, put, append, change_config, apply_movement, delete_shards, update_shard_vec,
}
use mit_6_5840_2024_lab.ShardCtrler.Rebalance.{n_shards}

-- client.go
unfoldable pub key2shard : Str → ℕ
key2shard [] = 0
key2shard (c ∷ key) = c % n_shards

-- `strconv.FormatInt(n, 10)`: the digits of `n`, of which there are no more than `fuel`.
unfoldable pub digits : ℕ → ℕ → Str
digits zero n = []
digits (suc fuel) n =
    let front = digits fuel (n / 10) in (if ltb n 10 then [] else front) ++ (b'0' + n % 10) ∷ []

unfoldable pub format_int : ℤ → Str
unfolding digits
format_int (pos n) = digits (suc n) n
format_int (negsuc n) = b'-' ∷ digits (suc (suc n)) (suc n)

-- `uniKey` of a client and a shard
unfoldable pub uni_key : ℤ → ℕ → Str
unfolding format_int
uni_key id shard = format_int id ++ format_int (pos shard)

-- `uniKey[0] != '-'`; no key of a session is empty.
unfoldable pub is_clients : Str → Bool
is_clients [] = true
is_clients (c ∷ key) = not (c == b'-')

-- `getKey`, `getId`, `getReqNum`
abbrev pub key_of : Call → Str
key_of (get args) = args.key
key_of (put args) = args.key
key_of (append args) = args.key
key_of _ = []

abbrev pub id_of : Call → ℤ
id_of (get args) = args.id
id_of (put args) = args.id
id_of (append args) = args.id
id_of (change_config args) = args.id
id_of (apply_movement args) = args.id
id_of (delete_shards args) = args.id
id_of (update_shard_vec args) = args.id

abbrev pub req_num_of : Call → ℕ
req_num_of (get args) = args.req_num
req_num_of (put args) = args.req_num
req_num_of (append args) = args.req_num
req_num_of (change_config args) = args.req_num
req_num_of (apply_movement args) = args.req_num
req_num_of (delete_shards args) = args.req_num
req_num_of (update_shard_vec args) = args.req_num

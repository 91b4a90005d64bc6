-- ===== src/KvSrv/Server.antt =====
-- src/kvsrv/server.go and common.go: one server, which takes a repeated Append for what it is.
use mit_6_5840_2024_lab.Common.{ℕ, Bool, true, false, not, [], ◌++◌, if◌then◌else◌}
use mit_6_5840_2024_lab.Common.Maps.{Map, insert, lookup_or, nat_eq}
use mit_6_5840_2024_lab.Common.Strings.{Str, str_eq}

pub record PutAppendArgs : Type 0 where
  pub key : Str
  pub value : Str
  pub id : ℕ
  pub opstate : Bool

pub record GetArgs : Type 0 where
  pub key : Str
  pub id : ℕ

pub record KvServer : Type 0 where
  pub mp : Map Str Str
  pub cli_map : Map ℕ Bool
  pub dup_map : Map ℕ Str

-- `kv.cliMap[id]`: false for a client that is not known
abbrev pub cli_state : KvServer → ℕ → Bool
cli_state kv id = lookup_or id kv.cli_map false

abbrev pub is_same : Bool → Bool → Bool
is_same true b = b
is_same false b = not b

-- The replies are the values of `reply.Value`.
unfoldable pub get : KvServer → GetArgs → KvServer × Str
get kv args = (kv, lookup_or args.key kv.mp [])

unfoldable pub put : KvServer → PutAppendArgs → KvServer × Str
put kv args = (record kv { mp = insert args.key args.value kv.mp }, [])

abbrev pub appended : KvServer → PutAppendArgs → KvServer
appended kv args = record kv {
  cli_map = insert args.id (not (cli_state kv args.id)) kv.cli_map;
  mp = insert args.key (lookup_or args.key kv.mp [] ++ args.value) kv.mp;
  dup_map = insert args.id (lookup_or args.key kv.mp []) kv.dup_map;
}

unfoldable pub append : KvServer → PutAppendArgs → KvServer × Str
append kv args =
    if not (is_same (cli_state kv args.id) args.opstate)
    then (kv, lookup_or args.id kv.dup_map [])
    else (appended kv args, lookup_or args.key kv.mp [])

abbrev pub start_kv_server : KvServer
start_kv_server = record { mp = []; cli_map = []; dup_map = [] }

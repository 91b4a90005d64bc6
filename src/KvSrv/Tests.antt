-- ===== src/KvSrv/Tests.antt =====
-- The theorem about repeated calls at a concrete server.
use mit_6_5840_2024_lab.Common.{ℕ, ◌≡◌, refl, true, false, List, [], ◌∷◌, ◌++◌}
use mit_6_5840_2024_lab.Common.Maps.{lookup, nat_eq}
use mit_6_5840_2024_lab.Common.Strings.{Str, str_eq, str_beq}
use mit_6_5840_2024_lab.KvSrv.Server.{PutAppendArgs, KvServer, append, appended}
use mit_6_5840_2024_lab.KvSrv.Client.{Clerk, Request, puts, appends, serve_all, append_args}
use mit_6_5840_2024_lab.KvSrv.Retries.{InStep, copies, joined, append-once}

abbrev server : KvServer
server = record { mp = (1 ∷ [], 8 ∷ []) ∷ []; cli_map = (4, true) ∷ []; dup_map = [] }

abbrev clerk : Clerk
clerk = record { id = 5; opstate = false }

abbrev args_of : ℕ → Str → PutAppendArgs
args_of id value = record { key = 1 ∷ []; value = value; id = id; opstate = false }

abbrev others : List Request
others = puts (args_of 6 (9 ∷ [])) ∷ []

abbrev later : List (List Request)
later = (appends (args_of 7 (3 ∷ [])) ∷ []) ∷ [] ∷ []

abbrev final : KvServer
final =
    serve_all server (appends (args_of 5 (2 ∷ [])) ∷ (others ++ copies (args_of 5 (2 ∷ [])) later))

append-once_example :
    (final ≡ serve_all (appended server (args_of 5 (2 ∷ []))) (others ++ joined later))
    × (append final (args_of 5 (2 ∷ [])) ≡ (final, 8 ∷ []))
    × InStep final (record { id = 5; opstate = true })
unfolding append_args lookup str_beq
append-once_example =
    append-once server clerk (1 ∷ []) (2 ∷ []) others later refl (tt, tt) ((refl, tt), (tt, tt))

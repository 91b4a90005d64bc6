-- ===== src/KvSrv/Retries.antt =====
-- A call of Append takes effect once, however often its request arrives.
use mit_6_5840_2024_lab.Common.{
  ℕ, ◌≡◌, refl, ap, sym, subst, ◌∙◌, false, not, List, [], ◌∷◌, ◌++◌, arith, ◌==◌,
}
use mit_6_5840_2024_lab.Common.Maps.{lookup_or, lookup-insert, nat_eq}
use mit_6_5840_2024_lab.Common.Strings.{Str, str_eq}
use mit_6_5840_2024_lab.KvSrv.Server.{PutAppendArgs, KvServer, cli_state, append, appended}
use mit_6_5840_2024_lab.KvSrv.Client.{
  Clerk, Request, gets, puts, appends, serve, serve_all, append_args,
}

-- The server waits for the clerk's next Append.
abbrev pub InStep : KvServer → Clerk → Type 0
InStep kv ck = cli_state kv ck.id ≡ ck.opstate

-- A request that is no Append of client `id`.
abbrev pub IsForeign : ℕ → Request → Type 0
IsForeign id (appends args) = (args.id == id) ≡ false
IsForeign id _ = Unit

abbrev pub AllForeign : ℕ → List Request → Type 0
AllForeign id [] = Unit
AllForeign id (req ∷ reqs) = IsForeign id req × AllForeign id reqs

-- Copies of the request `args` between requests of others.
abbrev pub copies : PutAppendArgs → List (List Request) → List Request
copies args [] = []
copies args (others ∷ rest) = appends args ∷ (others ++ copies args rest)

abbrev pub joined : List (List Request) → List Request
joined [] = []
joined (others ∷ rest) = others ++ joined rest

abbrev pub EachForeign : ℕ → List (List Request) → Type 0
EachForeign id [] = Unit
EachForeign id (others ∷ rest) = AllForeign id others × EachForeign id rest

-- What the server knows of a client.
pub record Same (id : ℕ) (kv kv' : KvServer) : Type 0 where
  pub state : cli_state kv' id ≡ cli_state kv id
  pub reply : lookup_or id kv'.dup_map [] ≡ lookup_or id kv.dup_map []

serve-Same : (id : ℕ) (kv : KvServer) (req : Request) → IsForeign id req → Same id kv (serve kv req)
unfolding serve append
serve-Same id kv (gets args) f = record { state = refl; reply = refl }
serve-Same id kv (puts args) f = record { state = refl; reply = refl }
serve-Same id kv (appends args) f =
    let look = lookup-insert args.id id (not (cli_state kv args.id)) kv.cli_map in
    let look' = lookup-insert args.id id (lookup_or args.key kv.mp []) kv.dup_map in
    ground (arith, look, look')

serve_all-Same :
    (id : ℕ) (kv : KvServer) (reqs : List Request)
    → AllForeign id reqs
    → Same id kv (serve_all kv reqs)
unfolding serve_all
serve_all-Same id kv [] f = record { state = refl; reply = refl }
serve_all-Same id kv (req ∷ reqs) (f, fs) =
    let one = serve-Same id kv req f in
    let all = serve_all-Same id (serve kv req) reqs fs in
    record { state = all.state ∙ one.state; reply = all.reply ∙ one.reply }

serve_all-append :
    (kv : KvServer) (xs ys : List Request)
    → serve_all kv (xs ++ ys) ≡ serve_all (serve_all kv xs) ys
unfolding serve_all
serve_all-append kv [] ys = refl
serve_all-append kv (x ∷ xs) ys = serve_all-append (serve kv x) xs ys

append-first :
    (kv : KvServer) (args : PutAppendArgs)
    → cli_state kv args.id ≡ args.opstate
    → append kv args ≡ (appended kv args, lookup_or args.key kv.mp [])
unfolding append
append-first kv args e = ground arith

append-first_state :
    (kv : KvServer) (args : PutAppendArgs)
    → cli_state kv args.id ≡ args.opstate
    → cli_state (appended kv args) args.id ≡ not args.opstate
append-first_state kv args e =
    let look = lookup-insert args.id args.id (not (cli_state kv args.id)) kv.cli_map in
    ground (arith, look)

-- A copy that comes late changes nothing and gets the first reply again.
append-late :
    (kv : KvServer) (args : PutAppendArgs)
    → cli_state kv args.id ≡ not args.opstate
    → append kv args ≡ (kv, lookup_or args.id kv.dup_map [])
unfolding append
append-late kv args e = ground arith

late-copies :
    (kv : KvServer) (args : PutAppendArgs) (rest : List (List Request))
    → cli_state kv args.id ≡ not args.opstate
    → EachForeign args.id rest
    → serve_all kv (copies args rest) ≡ serve_all kv (joined rest)
unfolding serve_all serve
late-copies kv args [] e f = refl
late-copies kv args (others ∷ rest) e (f, fs) =
    let same = serve_all-Same args.id kv others f in
    ap (λ r. serve_all r.0 (others ++ copies args rest)) (append-late kv args e)
    ∙ serve_all-append kv others (copies args rest)
    ∙ late-copies (serve_all kv others) args rest (same.state ∙ e) fs
    ∙ sym (serve_all-append kv others (joined rest))

AllForeign-append :
    (id : ℕ) (xs ys : List Request) → AllForeign id xs → AllForeign id ys → AllForeign id (xs ++ ys)
AllForeign-append id [] ys f g = g
AllForeign-append id (x ∷ xs) ys (f, fs) g = (f, AllForeign-append id xs ys fs g)

AllForeign-joined :
    (id : ℕ) (rest : List (List Request)) → EachForeign id rest → AllForeign id (joined rest)
AllForeign-joined id [] f = tt
AllForeign-joined id (others ∷ rest) (f, fs) =
    AllForeign-append id others (joined rest) f (AllForeign-joined id rest fs)

once-run :
    (kv : KvServer) (args : PutAppendArgs) (others : List Request) (rest : List (List Request))
    → cli_state kv args.id ≡ args.opstate
    → AllForeign args.id others
    → EachForeign args.id rest
    → serve_all kv (appends args ∷ (others ++ copies args rest))
      ≡ serve_all (appended kv args) (others ++ joined rest)
unfolding serve_all serve
once-run kv args others rest s f fs =
    let kv1 = appended kv args in
    let same = serve_all-Same args.id kv1 others f in
    ap (λ r. serve_all r.0 (others ++ copies args rest)) (append-first kv args s)
    ∙ serve_all-append kv1 others (copies args rest)
    ∙ late-copies (serve_all kv1 others) args rest (same.state ∙ append-first_state kv args s) fs
    ∙ sym (serve_all-append kv1 others (joined rest))

-- A clerk that is in step calls Append; its request arrives, and arrives again any number of times
-- between requests of others. The server ends as if only the first copy had come, each later copy
-- would be answered with the first one's reply, which is the old value, and the clerk is in step
-- again.
pub append-once :
    (kv : KvServer) (ck : Clerk) (key value : Str) (others : List Request)
    (rest : List (List Request))
    → InStep kv ck
    → AllForeign ck.id others
    → EachForeign ck.id rest
    → let (args, ck') = append_args ck key value in
      let end = serve_all kv (appends args ∷ (others ++ copies args rest)) in
      (end ≡ serve_all (appended kv args) (others ++ joined rest))
      × (append end args ≡ (end, lookup_or key kv.mp []))
      × InStep end ck'
unfolding append_args
append-once kv ck key value others rest s f fs =
    let args = (append_args ck key value).0 in
    let kv1 = appended kv args in
    let late = append-first_state kv args s in
    let run = once-run kv args others rest s f fs in
    let all =
      serve_all-Same ck.id kv1 (others ++ joined rest)
        (AllForeign-append ck.id others (joined rest) f (AllForeign-joined ck.id rest fs)) in
    let end = serve_all kv1 (others ++ joined rest) in
    let old = lookup-insert ck.id ck.id (lookup_or key kv.mp []) kv.dup_map in
    let value_kept : lookup_or ck.id end.dup_map [] ≡ lookup_or key kv.mp [] =
      ground (arith, all.reply, old) in
    let answer = append-late end args (all.state ∙ late) ∙ ap (λ v. (end, v)) value_kept in
    let after =
      subst
        (λ e. (append e args ≡ (e, lookup_or key kv.mp [])) × InStep e (append_args ck key value).1)
        (sym run) (answer, all.state ∙ late) in
    (run, after.0, after.1)

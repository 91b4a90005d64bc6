-- ===== src/Raft/Shape/Leading.antt =====
-- The leader's and the candidate's steps keep the shape of the log.
use mit_6_5840_2024_lab.Common.{
  ℕ, suc, ◌+◌, ◌-◌, ◌≡◌, refl, ap, ◌∙◌, none, some, List, [], ◌∷◌, ◌++◌, arith, length, Returns,
  length-append, length-set, true, get_elem?, get_elem?-append_right,
}
use mit_6_5840_2024_lab.Common.Int.{pos}
use mit_6_5840_2024_lab.Raft.Types.{LogEntry, noop, Codec, Raft, entries, is_leader}
use mit_6_5840_2024_lab.Raft.Index.{base, global_log_len, external_index, count_external}
use mit_6_5840_2024_lab.Raft.Index.Numbering.{
  external_index-count, external_index-suc, count_external-some, count_external-append,
}
use mit_6_5840_2024_lab.Raft.Vote.{win_election, fill_others}
use mit_6_5840_2024_lab.Raft.Leader.{start, new_entry, append_command}
use mit_6_5840_2024_lab.Raft.Shape.Lists.{Contiguous, Contiguous-append, IsValid}

length-fill_others : (xs : List ℕ) (i me v : ℕ) → length (fill_others xs i me v) ≡ length xs
unfolding fill_others
length-fill_others [] i me v = refl
length-fill_others (x ∷ xs) i me v = ap suc (length-fill_others xs (i + 1) me v)

module _ {C B : Type 0} ⦃codec : Codec C B⦄ where
  -- One entry more, with the next index.
  Contiguous-push :
      (rf : Raft C B) (e : LogEntry C)
      → IsValid rf
      → e.index ≡ global_log_len rf
      → Contiguous (suc (base rf)) (rf.log.rest ++ e ∷ [])
  Contiguous-push rf e v at =
      Contiguous-append (suc (base rf)) (global_log_len rf) rf.log.rest (e ∷ []) (omega arith)
        v.consecutive (at, tt)

  -- A win of a well-formed peer, which adds a no-op to its log, leaves it well-formed.
  pub win_election-IsValid :
      (rf rf' : Raft C B) (ballots : ℕ)
      → IsValid rf
      → win_election rf ballots ≡ some rf'
      → IsValid rf'
  unfolding win_election
  win_election-IsValid rf rf' ballots v e =
      let next : ℕ = global_log_len rf in
      let push =
        Contiguous-push rf
          (record { term = rf.current_term; type = noop; index = next; command = none }) v refl in
      ground (
        arith,
        push,
        length-set (fill_others rf.next_index 0 rf.me next) rf.me (next + 1),
        length-set (fill_others rf.match_index 0 rf.me 0) rf.me next,
        length-fill_others rf.next_index 0 rf.me next,
        length-fill_others rf.match_index 0 rf.me 0,
      )

  append_command-IsValid :
      (rf : Raft C B) (command : C) → IsValid rf → IsValid (append_command rf command)
  unfolding append_command
  append_command-IsValid rf command v = record {
    starts = v.starts;
    consecutive = Contiguous-push rf (new_entry rf command) v refl;
    applied = v.applied;
    follows = length-set rf.next_index rf.me _ ∙ v.follows;
    matches = length-set rf.match_index rf.me _ ∙ v.matches;
    own = v.own;
  }

  append_command-entries :
      (rf : Raft C B) (command : C)
      → entries (append_command rf command).log ≡ entries rf.log ++ new_entry rf command ∷ []
  unfolding append_command
  append_command-entries rf command = refl

  numbered :
      (rf : Raft C B) (command : C) (k c : ℕ)
      → IsValid rf
      → IsValid (append_command rf command)
      → count_external rf.log.rest (global_log_len rf - 1 - base rf) ≡ some c
      → c + rf.snapshot_index ≡ k
      → external_index (append_command rf command) (global_log_len (append_command rf command) - 1)
        ≡ some (suc k)
  unfolding append_command
  numbered rf command k c v v1 q ck =
      let last : ℕ = global_log_len rf - 1 in
      let e = new_entry rf command in
      let at : last - base rf ≡ length rf.log.rest = omega arith in
      let more : length (rf.log.rest ++ e ∷ []) ≡ suc (length rf.log.rest) =
        omega (arith, length-append rf.log.rest (e ∷ [])) in
      let old =
        external_index-count (append_command rf command) v1 last c (omega arith)
          (count_external-append rf.log.rest (e ∷ []) (last - base rf) (omega arith) ∙ q) in
      let spot : last + 1 - base rf ≡ suc (length rf.log.rest) = omega arith in
      let end : suc (length (rf.log.rest ++ e ∷ [])) + base rf - 1 ≡ last + 1 = omega arith in
      let here : get_elem? (rf.log.first ∷ (rf.log.rest ++ e ∷ [])) (last + 1 - base rf) ≡ some e =
        ap (get_elem? (rf.log.first ∷ (rf.log.rest ++ e ∷ []))) spot
        ∙ get_elem?-append_right rf.log.rest (e ∷ []) 0 (length rf.log.rest) (omega arith) in
      ap (external_index (append_command rf command)) end
      ∙ external_index-suc (append_command rf command) v1 last (omega arith) (omega arith) old here
      ∙ ap (λ n. some (suc n)) ck

  append_command-external_index :
      (rf : Raft C B) (command : C) (k : ℕ)
      → IsValid rf
      → external_index rf (global_log_len rf - 1) ≡ some k
      → external_index (append_command rf command) (global_log_len (append_command rf command) - 1)
        ≡ some (suc k)
  append_command-external_index rf command k v x =
      let last : ℕ = global_log_len rf - 1 in
      let rf1 = append_command rf command in
      let v1 = append_command-IsValid rf command v in
      let (c, q) = count_external-some rf.log.rest (last - base rf) (omega arith) in
      let old = external_index-count rf v last c (omega arith) q in
      let ck : c + rf.snapshot_index ≡ k = ground arith in numbered rf command k c v v1 q ck

  -- `Start` at a well-formed leader whose last entry has the external index `k` returns `k + 1` and
  -- the leader's term, appends the command with that term at the end of the log, and keeps the peer
  -- well-formed.
  pub start-appends :
      (rf : Raft C B) (command : C) (k : ℕ)
      → IsValid rf
      → is_leader rf.state ≡ true
      → external_index rf (global_log_len rf - 1) ≡ some k
      → Returns
          (λ r.
            IsValid r.0
            × (r.1 ≡ record { index = pos (suc k); term = pos rf.current_term; is_leader = true })
            × (entries r.0.log ≡ entries rf.log ++ new_entry rf command ∷ []))
          (start rf command)
  unfolding start
  start-appends rf command k v leads x =
      rw (leads, append_command-external_index rf command k v x)
        (append_command-IsValid rf command v, refl, append_command-entries rf command)

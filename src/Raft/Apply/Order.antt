-- ===== src/Raft/Apply/Order.antt =====
-- What `applyEntries` hands to the service, and in which order.
use mathlib.Core.List.{append_assoc, append-nil}
use Prim.Native.Nat.{min}
use mathlib.Core.Path.{ap₂}
use mit_6_5840_2024_lab.Common.{
  ℕ, zero, suc, ◌+◌, ◌-◌, ◌≤◌, ◌<◌, ◌≡◌, refl, sym, ap, ◌∙◌, true, false, Option, none, some, List,
  [], ◌∷◌, ◌++◌, arith, get_elem?, take, drop, drop-get_elem?, get_elem?-in_range, if◌then◌else◌,
  ◌⊎◌,
}
use mit_6_5840_2024_lab.Raft.Types.{LogEntry, ApplyMsg, Codec, Raft, is_noop, entries}
use mit_6_5840_2024_lab.Raft.Index.{base, global_log_len, external_index}
use mit_6_5840_2024_lab.Raft.Index.Local.{local_index-pos}
use mit_6_5840_2024_lab.Raft.Index.Numbering.{external_index-suc}
use mit_6_5840_2024_lab.Raft.Shape.{IsValid}
use mit_6_5840_2024_lab.Raft.Apply.{command_msg, ready, enqueue_entry, enqueue_entries}

module _ {C B : Type 0} ⦃codec : Codec C B⦄ where
  -- The messages for the entries that follow external index `k`: one for each that is no no-op,
  -- numbered from `k + 1` without a gap.
  abbrev pub messages : List (LogEntry C) → ℕ → List (ApplyMsg C B)
  messages [] k = []
  messages (e ∷ es) k = elim (is_noop e.type) [
    | true ↦ messages es k
    | false ↦ command_msg e.command (suc k) ∷ messages es (suc k)
  ]

  abbrev one : LogEntry C → ℕ → List (ApplyMsg C B)
  one e k = if is_noop e.type then [] else command_msg e.command (suc k) ∷ []

  messages-cons :
      (e : LogEntry C) (es : List (LogEntry C)) (k : ℕ)
      → messages (e ∷ es) k ≡ one e k ++ messages es (if is_noop e.type then k else suc k)
  messages-cons e es k = ground arith

  ready-none :
      (rf : Raft C B) (i : ℕ) → (rf.commit_index < i) ⊎ (global_log_len rf ≤ i) → ready rf i ≡ none
  unfolding ready
  ready-none rf i h = ground arith

  ready-some :
      (rf : Raft C B) (i : ℕ) {e : LogEntry C}
      → base rf < i
      → i ≤ rf.commit_index
      → i < global_log_len rf
      → get_elem? (entries rf.log) (i - base rf) ≡ some e
      → ready rf i ≡ some e
  unfolding ready
  ready-some rf i low committed inside g = rw (local_index-pos rf i (omega arith)) (ground arith)

  abbrev advanced : Raft C B → ℕ → List (ApplyMsg C B) → Raft C B
  advanced rf i msgs = record rf { last_applied = i; apply_queue = rf.apply_queue ++ msgs }

  enqueue_entry-one :
      (rf : Raft C B) (i : ℕ) (e : LogEntry C) (k : ℕ)
      → external_index rf i ≡ some (if is_noop e.type then k else suc k)
      → enqueue_entry rf i e ≡ some (advanced rf i (one e k))
  unfolding enqueue_entry
  enqueue_entry-one rf i e k x = ground (arith, append-nil rf.apply_queue)

  enqueue_entries-stop :
      (fuel : ℕ) (rf : Raft C B)
      → ready rf (rf.last_applied + 1) ≡ none
      → enqueue_entries (suc fuel) rf ≡ some rf
  unfolding enqueue_entries
  enqueue_entries-stop fuel rf e = rw (e, enqueue_entries) refl

  enqueue_entries-next :
      (fuel : ℕ) (rf rf1 : Raft C B) {e : LogEntry C}
      → ready rf (rf.last_applied + 1) ≡ some e
      → enqueue_entry rf (rf.last_applied + 1) e ≡ some rf1
      → enqueue_entries (suc fuel) rf ≡ enqueue_entries fuel rf1
  unfolding enqueue_entries
  enqueue_entries-next fuel rf rf1 r e = rw (r, enqueue_entries) (rw e refl)

  abbrev pending : Raft C B → ℕ → List (LogEntry C)
  pending rf n = take n (drop (suc rf.last_applied - base rf) (entries rf.log))

  pending-suc :
      (n : ℕ) (rf : Raft C B) {e : LogEntry C}
      → base rf ≤ rf.last_applied
      → get_elem? (entries rf.log) (rf.last_applied + 1 - base rf) ≡ some e
      → pending rf (suc n)
        ≡ e ∷ take n (drop (suc (rf.last_applied + 1) - base rf) (entries rf.log))
  pending-suc n rf {e} low g =
      let at : rf.last_applied + 1 - base rf ≡ suc rf.last_applied - base rf = omega arith in
      let g' : get_elem? (entries rf.log) (suc rf.last_applied - base rf) ≡ some e = rw at at g in
      let after : suc (suc rf.last_applied - base rf) ≡ suc (rf.last_applied + 1) - base rf =
        omega arith in
      rw (drop-get_elem? (entries rf.log) (suc rf.last_applied - base rf) g')
        (ap (λ d. e ∷ take n (drop d (entries rf.log))) after)

  external_index-advanced :
      (rf : Raft C B) (j : ℕ) (msgs : List (ApplyMsg C B)) (i : ℕ)
      → external_index (advanced rf j msgs) i ≡ external_index rf i
  unfolding external_index
  external_index-advanced rf j msgs i = refl

  joined :
      (n : ℕ) (rf : Raft C B) (e : LogEntry C) (k : ℕ)
      → base rf ≤ rf.last_applied
      → get_elem? (entries rf.log) (rf.last_applied + 1 - base rf) ≡ some e
      → ◌≡◌ {A = Option (Raft C B)}
          (some (
            advanced (advanced rf (rf.last_applied + 1) (one e k)) (rf.last_applied + 1 + n) (
              messages
                (take n (drop (suc (rf.last_applied + 1) - base rf) (entries rf.log)))
                (if is_noop e.type then k else suc k))))
          (some (advanced rf (rf.last_applied + suc n) (messages (pending rf (suc n)) k)))
  joined n rf e k low g =
      let p = pending-suc n rf low g in
      let rest : List (LogEntry C) =
        take n (drop (suc (rf.last_applied + 1) - base rf) (entries rf.log)) in
      let q : messages (pending rf (suc n)) k
          ≡ one e k ++ messages rest (if is_noop e.type then k else suc k) =
        ap (λ es. messages es k) p ∙ messages-cons e rest k in
      let sum : rf.last_applied + 1 + n ≡ rf.last_applied + suc n = omega arith in
      ap₂
        (λ (i : ℕ) (queue : List (ApplyMsg C B)).
          some (record rf { last_applied = i; apply_queue = queue }))
        sum
        (append_assoc rf.apply_queue (one e k) (messages rest (if is_noop e.type then k else suc k))
          ∙ ap (◌++◌ rf.apply_queue) (sym q))

  enqueue_entries-run :
      (n fuel : ℕ) (rf : Raft C B) (k : ℕ)
      → IsValid rf
      → rf.last_applied < global_log_len rf
      → external_index rf rf.last_applied ≡ some k
      → n < fuel
      → min rf.commit_index (global_log_len rf - 1) - rf.last_applied ≡ n
      → enqueue_entries fuel rf
        ≡ some (advanced rf (rf.last_applied + n) (messages (pending rf n) k))
  enqueue_entries-run n zero rf k v inside x lt e = absurd (omega arith)
  enqueue_entries-run zero (suc fuel) rf k v inside x lt e =
      enqueue_entries-stop fuel rf (ready-none rf (rf.last_applied + 1) (omega arith))
      ∙ ground (arith, append-nil rf.apply_queue)
  enqueue_entries-run (suc n) (suc fuel) rf k v inside x lt e =
      let i : ℕ = rf.last_applied + 1 in
      let (entry, g) =
        get_elem?-in_range (entries rf.log) (i - base rf) (omega (arith, v.applied)) in
      let x1 = external_index-suc rf v rf.last_applied v.applied inside x g in
      let k1 : ℕ = if is_noop entry.type then k else suc k in
      let rf1 : Raft C B = advanced rf i (one entry k) in
      let v1 : IsValid rf1 = record {
        starts = v.starts;
        consecutive = v.consecutive;
        applied = omega (arith, v.applied);
        follows = v.follows;
        matches = v.matches;
        own = v.own;
      } in
      enqueue_entries-next fuel rf rf1
        (ready-some rf i (omega (arith, v.applied)) (omega arith) (omega arith) g)
        (enqueue_entry-one rf i entry k x1)
      ∙ enqueue_entries-run n fuel rf1 k1 v1 (omega arith)
          (external_index-advanced rf i (one entry k) i ∙ x1) (omega arith) (omega arith)
      ∙ joined n rf entry k v.applied g

  -- For a well-formed peer whose log holds its last applied entry, of external index `k`, and with
  -- fuel for the entries of the log, the loop ends. It has applied exactly the committed entries of
  -- the log that were left, in order: the queue has grown by one message for each that is no no-op,
  -- numbered without a gap from `k + 1` on.
  pub enqueue_entries-messages :
      (fuel : ℕ) (rf : Raft C B) (k : ℕ)
      → IsValid rf
      → rf.last_applied < global_log_len rf
      → external_index rf rf.last_applied ≡ some k
      → global_log_len rf ≤ fuel
      → let n = min rf.commit_index (global_log_len rf - 1) - rf.last_applied in
        enqueue_entries fuel rf
        ≡ some (record rf {
          last_applied = rf.last_applied + n;
          apply_queue =
              rf.apply_queue
              ++ messages (take n (drop (suc rf.last_applied - base rf) (entries rf.log))) k;
        })
  enqueue_entries-messages fuel rf k v inside x enough =
      enqueue_entries-run _ fuel rf k v inside x (omega arith) refl

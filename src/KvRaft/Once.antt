-- ===== src/KvRaft/Once.antt =====
-- The effect of the log on the map: which operations are carried out, and how often.
use mit_6_5840_2024_lab.Common.{
  ℕ, ◌+◌, ◌≤◌, ◌≡◌, refl, ap, Bool, true, false, ◌&&◌, not, Option, none, some, List, [], ◌∷◌,
  arith, leb, ◌==◌, if◌then◌else◌, Returns, Bool-cases, inl, inr, ==_iff,
}
use mit_6_5840_2024_lab.Common.Maps.{Map, lookup, nat_eq}
use mit_6_5840_2024_lab.Common.Strings.{Str}
use mit_6_5840_2024_lab.Raft.Types.{Codec}
use mit_6_5840_2024_lab.KvRaft.Types.{Op, Session, Snapshot, SnapshotCodec, KvServer}
use mit_6_5840_2024_lab.KvRaft.Server.{
  apply_command, make_snapshot, is_stable, execute, remembered, recorded,
}
use mit_6_5840_2024_lab.KvRaft.Snapshots.{take_snapshot-Returns}

-- The number of each client's last request in the log so far.
abbrev pub History : Type 0
History = ℕ → Option ℕ

abbrev pub is_repeat : Option ℕ → ℕ → Bool
is_repeat none n = false
is_repeat (some last) n = leb n last

abbrev pub seen : History → Op → History
seen h op c = if op.ck_id == c then some op.req_num else h c

-- The operations that are carried out: those whose number is higher than that of the same client's
-- last operation in the log.
unfoldable pub effective : History → List Op → List Op
effective h [] = []
effective h (op ∷ ops) =
    let rest = effective (seen h op) ops in
    if is_repeat (h op.ck_id) op.req_num then rest else op ∷ rest

abbrev pub execute_all : Map Str Str → List Op → Map Str Str
execute_all mp [] = mp
execute_all mp (op ∷ ops) = execute_all (execute mp op.type op) ops

abbrev is_newer : Option ℕ → ℕ → Bool
is_newer none n = true
is_newer (some last) n = leb last n

-- No client's number falls along the log.
abbrev pub NeverFalls : History → List Op → Type 0
NeverFalls h [] = Unit
NeverFalls h (op ∷ ops) = (is_newer (h op.ck_id) op.req_num ≡ true) × NeverFalls (seen h op) ops

abbrev is_request : ℕ → ℕ → Op → Bool
is_request c n op = (op.ck_id == c) && (op.req_num == n)

abbrev pub occurs : ℕ → ℕ → List Op → Bool
occurs c n [] = false
occurs c n (op ∷ ops) = if is_request c n op then true else occurs c n ops

abbrev pub times : ℕ → ℕ → List Op → ℕ
times c n [] = 0
times c n (op ∷ ops) = (if is_request c n op then 1 else 0) + times c n ops

occurs_newer :
    (h : History) (ops : List Op) (c n : ℕ)
    → NeverFalls h ops
    → occurs c n ops ≡ true
    → is_newer (h c) n ≡ true
occurs_newer h [] c n f o = ground arith
occurs_newer h (op ∷ ops) c n (f, fs) o = elim (Bool-cases (op.ck_id == c)) [
  | inl same ↦
      let e : op.ck_id ≡ c = (==_iff op.ck_id c).0 same in
      let he : h op.ck_id ≡ h c = ap h e in
      ground (arith, ==_iff op.req_num n, occurs_newer (seen h op) ops c n fs)
  | inr other ↦ ground (arith, occurs_newer (seen h op) ops c n fs)
]

-- If no client's request number falls along the log, each request that occurs in it and is newer
-- than all that came before it is carried out exactly once, however often it occurs, and no other
-- request of the client is.
pub effective-once :
    (h : History) (ops : List Op) (c n : ℕ)
    → NeverFalls h ops
    → times c n (effective h ops) ≡ (if occurs c n ops && not (is_repeat (h c) n) then 1 else 0)
unfolding effective
effective-once h [] c n f = ground arith
effective-once h (op ∷ ops) c n (f, fs) = elim (Bool-cases (op.ck_id == c)) [
  | inl same ↦
      let e : op.ck_id ≡ c = (==_iff op.ck_id c).0 same in
      let he : h op.ck_id ≡ h c = ap h e in
      ground (
        arith,
        ==_iff op.req_num n,
        effective-once (seen h op) ops c n fs,
        occurs_newer (seen h op) ops c n fs,
      )
  | inr other ↦ ground (arith, effective-once (seen h op) ops c n fs)
]

-- What the sessions know of the log.
abbrev pub history : {B : Type 0} → KvServer B → History
history kv c = elim (lookup c kv.ck_sessions) [ none ↦ none | some s ↦ some s.last_op.req_num ]

-- A session is that of an operation which was applied.
abbrev pub IsApplied : Option Session → ℕ → Type 0
IsApplied none n = Unit
IsApplied (some s) n = (s.last_op_valid ≡ true) × (s.last_op_index ≤ n)

abbrev pub IsValid : {B : Type 0} → KvServer B → Type 0
IsValid kv = (c : ℕ) → IsApplied (lookup c kv.ck_sessions) kv.last_applied

is_stable-is_repeat :
    (s : Option Session) (op : Op) (n : ℕ)
    → IsApplied s n
    → is_stable s op (n + 1)
      ≡ is_repeat (elim s [ none ↦ none | some s ↦ some s.last_op.req_num ]) op.req_num
unfolding is_stable
is_stable-is_repeat none op n v = refl
is_stable-is_repeat (some s) op n v = ground arith

module _ {B : Type 0} ⦃codec : Codec Op B⦄ ⦃snapshots : SnapshotCodec Snapshot B⦄ where
  -- What one command does to the server's own state, snapshots aside.
  pub record Applied (kv : KvServer B) (op : Op) (kv' : KvServer B) : Type 0 where
    pub index : kv'.last_applied ≡ kv.last_applied + 1
    pub map :
        kv'.mp
        ≡ (if is_repeat (history kv op.ck_id) op.req_num then kv.mp else execute kv.mp op.type op)
    pub sessions : kv'.ck_sessions ≡ (remembered kv op (kv.last_applied + 1)).ck_sessions

  make_snapshot-Returns :
      (kv : KvServer B) (index : ℕ)
      → Returns
          (λ kv'.
            (kv'.mp ≡ kv.mp)
            × (kv'.ck_sessions ≡ kv.ck_sessions)
            × (kv'.last_applied ≡ kv.last_applied))
          (make_snapshot kv index)
  unfolding make_snapshot
  make_snapshot-Returns kv index = ground (
    arith,
    take_snapshot-Returns kv.rf index
        (snapshots.encode (record { mp = kv.mp; ck_sessions = kv.ck_sessions; maker = kv.me })),
  )

  pub apply_command-Applied :
      (kv : KvServer B) (op : Op)
      → IsValid kv
      → Returns (Applied kv op) (apply_command kv op (kv.last_applied + 1))
  unfolding apply_command
  apply_command-Applied kv op v =
      let n : ℕ = kv.last_applied + 1 in
      let same : (kv.last_applied + 1 == n) ≡ true = ground arith in
      rw
        (same, is_stable-is_repeat (lookup op.ck_id kv.ck_sessions) op kv.last_applied (v op.ck_id))
        (ground (
          arith,
          make_snapshot-Returns
              (record (remembered (recorded kv op n) op n) { mp = execute kv.mp op.type op }) n,
        ))

-- ===== src/ShardKv/Keys/Unique.antt =====
-- src/shardkv/server.go: the keys of `ckSessions`. A number is read back from its digits, and the
-- last digit is the shard's.
use mit_6_5840_2024_lab.Common.{
  ℕ, zero, suc, ◌+◌, ◌-◌, ◌*◌, ◌/◌, ◌%◌, ◌<◌, ◌≡◌, refl, sym, ap, ◌∙◌, true, false, not, [], ◌∷◌,
  ◌++◌, ltb, arith, Bool-cases, inl, inr, lt→ltb, length, length-append,
}
use mit_6_5840_2024_lab.Common.Rings.{mod_small}
use mit_6_5840_2024_lab.Common.Int.{ℤ, pos, negsuc, is_neg}
use mit_6_5840_2024_lab.Common.Strings.{Str}
use mit_6_5840_2024_lab.ShardCtrler.Rebalance.{n_shards}
use mit_6_5840_2024_lab.ShardKv.Keys.{digits, format_int, uni_key, is_clients}

-- `strconv.ParseInt`, from a number read so far
unfoldable read : ℕ → Str → ℕ
read n [] = n
read n (c ∷ s) = read (n * 10 + (c - b'0')) s

read-append : (n : ℕ) (s : Str) (c : ℕ) → read n (s ++ c ∷ []) ≡ read n s * 10 + (c - b'0')
unfolding read
read-append n [] c = refl
read-append n (d ∷ s) c = read-append (n * 10 + (d - b'0')) s c

read-digits : (fuel n : ℕ) → n < fuel → read 0 (digits fuel n) ≡ n
unfolding read digits
read-digits zero n h = absurd (omega arith)
read-digits (suc fuel) n h = elim (Bool-cases (ltb n 10)) [
  | inl e ↦ rw e (let small = mod_small n 10 (ground arith) in omega (arith, small))
  | inr e ↦ rw e (
      let front : read 0 (digits fuel (n / 10)) ≡ n / 10 =
        read-digits fuel (n / 10) (ground arith) in
      read-append 0 (digits fuel (n / 10)) (b'0' + n % 10) ∙ omega (arith, front))
]

append-inj : (s t : Str) {c d : ℕ} → s ++ c ∷ [] ≡ t ++ d ∷ [] → (s ≡ t) × (c ≡ d)
append-inj [] [] e = (refl, cc)
append-inj [] (b ∷ t) {c} {d} e =
    absurd (let n = length-append t (d ∷ []) in let l = ap length e in omega (arith, n, l))
append-inj (a ∷ s) [] {c} {d} e =
    absurd (let n = length-append s (c ∷ []) in let l = ap length e in omega (arith, n, l))
append-inj (a ∷ s) (b ∷ t) e = let rest = append-inj s t (cc) in ((let e' = rest.0 in cc), rest.1)

is_clients-append :
    (s t : Str) → is_clients s ≡ true → is_clients t ≡ true → is_clients (s ++ t) ≡ true
unfolding is_clients
is_clients-append [] t h h' = h'
is_clients-append (c ∷ s) t h h' = h

is_clients-digit : (n : ℕ) → is_clients ((b'0' + n) ∷ []) ≡ true
unfolding is_clients
is_clients-digit n = ground arith

is_clients-nil : is_clients [] ≡ true
unfolding is_clients
is_clients-nil = refl

is_clients-digits : (fuel n : ℕ) → is_clients (digits fuel n) ≡ true
unfolding digits
is_clients-digits zero n = is_clients-nil
is_clients-digits (suc fuel) n = elim (Bool-cases (ltb n 10)) [
  | inl e ↦ rw e (is_clients-digit (n % 10))
  | inr e ↦ rw e (
      is_clients-append (digits fuel (n / 10)) ((b'0' + n % 10) ∷ [])
        (is_clients-digits fuel (n / 10)) (is_clients-digit (n % 10)))
]

dash : (s : Str) → is_clients (b'-' ∷ s) ≡ false
unfolding is_clients
dash s = refl

format_int-inj : (a b : ℤ) → format_int a ≡ format_int b → a ≡ b
unfolding format_int is_clients
format_int-inj (pos a) (pos b) e = ap pos (
    sym (read-digits (suc a) a (omega arith)) ∙ ap (read 0) e ∙ read-digits (suc b) b (omega arith))
format_int-inj (pos a) (negsuc b) e = absurd (
    let t = is_clients-digits (suc a) a in
    let f : is_clients (format_int (pos a)) ≡ false = ap is_clients e in cc)
format_int-inj (negsuc a) (pos b) e = absurd (
    let t = is_clients-digits (suc b) b in
    let f : false ≡ is_clients (format_int (pos b)) = ap is_clients e in cc)
format_int-inj (negsuc a) (negsuc b) e =
    let same : digits (suc (suc a)) (suc a) ≡ digits (suc (suc b)) (suc b) = cc in
    let n : suc a ≡ suc b =
      sym (read-digits (suc (suc a)) (suc a) (omega arith))
      ∙ ap (read 0) same
      ∙ read-digits (suc (suc b)) (suc b) (omega arith) in
    cc

format_int-digit : (n : ℕ) → n < n_shards → format_int (pos n) ≡ (b'0' + n) ∷ []
unfolding format_int digits
format_int-digit n h = rw (lt→ltb n 10 h, mod_small n 10 h) refl

-- For shards below 10, the keys under which two operations have their sessions are equal only if
-- both the clients' ids and the shards are: no two clients, and no two shards of a client, share a
-- session.
pub uni_key-inj :
    (id1 id2 : ℤ) (shard1 shard2 : ℕ)
    → shard1 < n_shards
    → shard2 < n_shards
    → uni_key id1 shard1 ≡ uni_key id2 shard2
    → (id1 ≡ id2) × (shard1 ≡ shard2)
unfolding uni_key
uni_key-inj id1 id2 shard1 shard2 h1 h2 e =
    let e' : format_int id1 ++ (b'0' + shard1) ∷ [] ≡ format_int id2 ++ (b'0' + shard2) ∷ [] =
      (let a = format_int-digit shard1 h1 in let b = format_int-digit shard2 h2 in cc) in
    let parts = append-inj (format_int id1) (format_int id2) e' in
    (format_int-inj id1 id2 parts.0, let c = parts.1 in omega (arith, c))

-- The test for '-' tells the sessions of clients, whose ids are not negative, from those of the
-- servers' own operations.
pub is_clients-uni_key : (id : ℤ) (shard : ℕ) → is_clients (uni_key id shard) ≡ not (is_neg id)
unfolding uni_key format_int
is_clients-uni_key (pos n) shard =
    is_clients-append (digits (suc n) n) (digits (suc shard) shard) (is_clients-digits (suc n) n)
      (is_clients-digits (suc shard) shard)
is_clients-uni_key (negsuc n) shard =
    dash (digits (suc (suc n)) (suc n) ++ digits (suc shard) shard)

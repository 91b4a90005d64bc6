-- ===== src/MapReduce/Worker/Groups.antt =====
-- src/mr/worker.go: the output of a reduce task.
use mathlib.Core.List.{Permᴰ}
use mathlib.Core.List.Permᴰ
use mit_6_5840_2024_lab.Common.{
  ℕ, zero, suc, ◌≤◌, ◌≡◌, ◌≢◌, refl, sym, ap, ◌∙◌, true, Option, none, some, List, [], ◌∷◌, arith,
  length, if◌then◌else◌, Bool-cases, inl, inr,
}
use mit_6_5840_2024_lab.Common.Maps.{lookup}
use mit_6_5840_2024_lab.Common.Strings.{Str, str_beq, str_beq_iff, str_eq}
use mit_6_5840_2024_lab.MapReduce.Worker.{
  KeyValue, str_le, values_of_run, reduce_runs, do_reducef, read_all,
}

str_le-antisym : (a b : Str) → str_le a b ≡ true → str_le b a ≡ true → a ≡ b
unfolding str_le
str_le-antisym [] [] h h' = refl
str_le-antisym [] (y ∷ b) h h' = absurd (cc)
str_le-antisym (x ∷ a) [] h h' = absurd (cc)
str_le-antisym (x ∷ a) (y ∷ b) h h' = ground (arith, str_le-antisym a b)

-- No pair comes before one with a smaller key.
abbrev pub IsBelow : Str → List KeyValue → Type 0
IsBelow key [] = Unit
IsBelow key (kv ∷ kvs) = (str_le key kv.key ≡ true) × IsBelow key kvs

abbrev pub IsSorted : List KeyValue → Type 0
IsSorted [] = Unit
IsSorted (kv ∷ kvs) = IsBelow kv.key kvs × IsSorted kvs

-- The values of all pairs with a key.
unfoldable pub values_of : Str → List KeyValue → List Str
values_of key [] = []
values_of key (kv ∷ kvs) =
    let rest = values_of key kvs in if str_beq kv.key key then kv.value ∷ rest else rest

-- What the output says of a key: nothing, if it has no values.
abbrev pub output_of : (Str → List Str → Str) → Str → List Str → Option Str
output_of reducef key [] = none
output_of reducef key (v ∷ vs) = some (reducef key (v ∷ vs))

values_of-nil : (key : Str) → values_of key [] ≡ []
unfolding values_of
values_of-nil key = refl

module _ (key : Str) (kv : KeyValue) (kvs : List KeyValue) where
  values_of-hit : kv.key ≡ key → values_of key (kv ∷ kvs) ≡ kv.value ∷ values_of key kvs
  unfolding values_of
  values_of-hit e = rw ((str_beq_iff kv.key key).1 e) refl

  values_of-miss : kv.key ≢ key → values_of key (kv ∷ kvs) ≡ values_of key kvs
  unfolding values_of
  values_of-miss n = elim (Bool-cases (str_beq kv.key key)) [
    | inl e ↦ absurd (n ((str_beq_iff kv.key key).0 e))
    | inr e ↦ rw e refl
  ]

-- Above a smaller key, `key` does not occur.
values_of-above :
    (key low : Str) (kvs : List KeyValue)
    → str_le key low ≡ true
    → low ≢ key
    → IsBelow low kvs
    → values_of key kvs ≡ []
unfolding values_of
values_of-above key low [] h n b = refl
values_of-above key low (kv ∷ kvs) h n (l, b) = elim (Bool-cases (str_beq kv.key key)) [
  | inl e ↦
      let same : kv.key ≡ key = (str_beq_iff kv.key key).0 e in
      absurd (n (str_le-antisym low key (let l' = l in rw same at l') h))
  | inr e ↦ rw e (values_of-above key low kvs h n b)
]

record Split (key : Str) (kvs : List KeyValue) (run : List Str × List KeyValue) : Type 0 where
  values : run.0 ≡ values_of key kvs
  gone : values_of key run.1 ≡ []
  others : (k : Str) → k ≢ key → values_of k run.1 ≡ values_of k kvs
  sorted : IsSorted run.1
  shorter : length run.1 ≤ length kvs

values_of_run-Split :
    (key : Str) (kvs : List KeyValue)
    → IsBelow key kvs
    → IsSorted kvs
    → Split key kvs (values_of_run key kvs)
unfolding values_of_run
values_of_run-Split key [] b s = record {
  values = sym (values_of-nil key);
  gone = values_of-nil key;
  others = λ k n. refl;
  sorted = tt;
  shorter = omega arith;
}
values_of_run-Split key (kv ∷ kvs) (l, b) (b', s) = elim (Bool-cases (str_beq kv.key key)) [
  | inl e ↦
      let r = values_of_run-Split key kvs b s in
      let same : kv.key ≡ key = (str_beq_iff kv.key key).0 e in
      rw e (record {
        values = ap (λ vs. kv.value ∷ vs) r.values ∙ sym (values_of-hit key kv kvs same);
        gone = r.gone;
        others = λ k n. r.others k n ∙ sym (values_of-miss k kv kvs (λ t. n (sym t ∙ same)));
        sorted = r.sorted;
        shorter = let h = r.shorter in omega arith;
      })
  | inr e ↦
      let differs : kv.key ≢ key = λ s. let t = (str_beq_iff kv.key key).1 s in absurd (cc) in
      let none_left : values_of key (kv ∷ kvs) ≡ [] =
        values_of-miss key kv kvs differs ∙ values_of-above key kv.key kvs l differs b' in
      rw e (record {
        values = sym none_left;
        gone = none_left;
        others = λ k n. refl;
        sorted = (b', s);
        shorter = omega arith;
      })
]

-- With as many rounds as pairs, or more, the output of sorted pairs has each key once, with what
-- Reduce makes of all its values in their order.
reduce_runs-lookup :
    (reducef : Str → List Str → Str) (fuel : ℕ) (kva : List KeyValue) (key : Str)
    → length kva ≤ fuel
    → IsSorted kva
    → lookup key (reduce_runs reducef fuel kva) ≡ output_of reducef key (values_of key kva)
unfolding reduce_runs lookup
reduce_runs-lookup reducef zero [] key h s = rw (values_of-nil key) refl
reduce_runs-lookup reducef zero (kv ∷ kva) key h s = absurd (omega arith)
reduce_runs-lookup reducef (suc fuel) [] key h s = rw (values_of-nil key) refl
reduce_runs-lookup reducef (suc fuel) (kv ∷ kva) key h (b, s) =
    let r = values_of_run-Split kv.key kva b s in
    let rest =
      reduce_runs-lookup reducef fuel (values_of_run kv.key kva).1 key
        (let l = r.shorter in omega arith) r.sorted in
    elim (Bool-cases (str_beq kv.key key)) [
      | inl e ↦
          let same : kv.key ≡ key = (str_beq_iff kv.key key).0 e in
          rw e (
            ap (λ vs. some (reducef kv.key (kv.value ∷ vs))) r.values
            ∙ ap (λ k. some (reducef k (kv.value ∷ values_of k kva))) same
            ∙ sym (ap (output_of reducef key) (values_of-hit key kv kva same)))
      | inr e ↦
          let differs : kv.key ≢ key = λ s. let t = (str_beq_iff kv.key key).1 s in absurd (cc) in
          rw e (
            rest
            ∙ ap (output_of reducef key)
                (r.others key (λ t. differs (sym t)) ∙ sym (values_of-miss key kv kva differs)))
    ]

values_of-Permᴰ :
    (key : Str) (xs ys : List KeyValue) → Permᴰ xs ys → Permᴰ (values_of key xs) (values_of key ys)
unfolding values_of
values_of-Permᴰ key xs ys Permᴰ.nil = Permᴰ.nil
values_of-Permᴰ key (a ∷ xs) (b ∷ ys) (Permᴰ.cons e p) =
    rw (sym e) (elim (Bool-cases (str_beq a.key key)) [
      | inl k ↦ rw k (Permᴰ.cons refl (values_of-Permᴰ key xs ys p))
      | inr k ↦ rw k (values_of-Permᴰ key xs ys p)
    ])
values_of-Permᴰ key (a ∷ b ∷ xs) (a' ∷ b' ∷ ys) (Permᴰ.swap e f) =
    rw (sym e, sym f)
      (elim (Bool-cases (str_beq a.key key)) [
        | inl k ↦ elim (Bool-cases (str_beq b.key key)) [
          | inl k' ↦ rw (k, k') (Permᴰ.swap refl refl)
          | inr k' ↦ rw (k, k') (Permᴰ.refl _)
        ]
        | inr k ↦ rw k (Permᴰ.refl _)
      ])
values_of-Permᴰ key xs ys (Permᴰ.trans p q) =
    Permᴰ.trans (values_of-Permᴰ key xs _ p) (values_of-Permᴰ key _ ys q)

-- Let `sort` put the pairs that a reduce task reads in some order in which no pair comes before one
-- with a smaller key. Then the output of the task has a key exactly if some map task wrote a pair
-- with it, and has with it what Reduce makes of the values of all these pairs, in some order.
pub do_reducef-lookup :
    (sort : List KeyValue → List KeyValue) (reducef : Str → List Str → Str)
    (files : List (List KeyValue)) (key : Str)
    → IsSorted (sort (read_all files))
    → Permᴰ (read_all files) (sort (read_all files))
    → (values : List Str) × Permᴰ (values_of key (read_all files)) values
      × (lookup key (do_reducef sort reducef files) ≡ output_of reducef key values)
unfolding do_reducef
do_reducef-lookup sort reducef files key s p =
    let kva = sort (read_all files) in
    (
      values_of key kva,
      values_of-Permᴰ key (read_all files) kva p,
      reduce_runs-lookup reducef (length kva) kva key (omega arith) s,
    )

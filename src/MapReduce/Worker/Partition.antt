-- ===== src/MapReduce/Worker/Partition.antt =====
-- src/mr/worker.go: the pairs of all map tasks, parted into files and put together again by the
-- reduce tasks.
use mathlib.Core.List.{Permᴰ}
use mathlib.Core.List.Permᴰ
use mit_6_5840_2024_lab.Common.{
  ℕ, ◌%◌, ◌≡◌, refl, ap, ◌∙◌, none, List, [], ◌∷◌, ◌++◌, arith, ◌==◌, if◌then◌else◌, Bool-cases,
  inl, inr,
}
use mit_6_5840_2024_lab.Common.Maps.{lookup}
use mit_6_5840_2024_lab.Common.Strings.{Str, str_beq, str_beq_iff, str_eq}
use mit_6_5840_2024_lab.MapReduce.Worker.{KeyValue, ihash, bucket, read_all, do_reducef}
use mit_6_5840_2024_lab.MapReduce.Worker.Groups.{IsSorted, values_of, output_of, do_reducef-lookup}

-- The files for the reduce task `i`, one of each map task.
unfoldable pub files_for : (Str → ℕ) → ℕ → ℕ → List (List KeyValue) → List (List KeyValue)
unfolding bucket
files_for sum32 n_reduce i [] = []
files_for sum32 n_reduce i (kvs ∷ maps) =
    bucket sum32 n_reduce i kvs ∷ files_for sum32 n_reduce i maps

values_of-append :
    (key : Str) (xs ys : List KeyValue)
    → values_of key (xs ++ ys) ≡ values_of key xs ++ values_of key ys
unfolding values_of
values_of-append key [] ys = refl
values_of-append key (kv ∷ xs) ys = elim (Bool-cases (str_beq kv.key key)) [
  | inl e ↦ rw e (ap (λ vs. kv.value ∷ vs) (values_of-append key xs ys))
  | inr e ↦ rw e (values_of-append key xs ys)
]

Permᴰ-nil : {xs ys : List Str} → Permᴰ xs ys → xs ≡ [] → ys ≡ []
Permᴰ-nil Permᴰ.nil e = refl
Permᴰ-nil (Permᴰ.cons _ p) e = absurd (cc)
Permᴰ-nil (Permᴰ.swap _ _) e = absurd (cc)
Permᴰ-nil (Permᴰ.trans p q) e = Permᴰ-nil q (Permᴰ-nil p e)

module _ (sum32 : Str → ℕ) (n_reduce i : ℕ) (key : Str) where
  values_of-bucket :
      (kvs : List KeyValue)
      → values_of key (bucket sum32 n_reduce i kvs)
        ≡ (if ihash sum32 key % n_reduce == i then values_of key kvs else [])
  unfolding bucket values_of
  values_of-bucket [] = ground arith
  values_of-bucket (kv ∷ kvs) =
      let rest = values_of-bucket kvs in
      elim (Bool-cases (str_beq kv.key key)) [
        | inl e ↦
            let g : (ihash sum32 kv.key % n_reduce == i) ≡ (ihash sum32 key % n_reduce == i) =
              ap (λ k. ihash sum32 k % n_reduce == i) ((str_beq_iff kv.key key).0 e) in
            elim (Bool-cases (ihash sum32 key % n_reduce == i)) [
              | inl t ↦ rw (g, t) (rw e (ap (λ vs. kv.value ∷ vs) (rw t at rest)))
              | inr t ↦ rw (g, t) (rw t at rest)
            ]
        | inr e ↦ elim (Bool-cases (ihash sum32 kv.key % n_reduce == i)) [
          | inl t ↦ rw t (rw e rest)
          | inr t ↦ rw t (rw e rest)
        ]
      ]

  values_of-files_for :
      (maps : List (List KeyValue))
      → values_of key (read_all (files_for sum32 n_reduce i maps))
        ≡ (if ihash sum32 key % n_reduce == i then values_of key (read_all maps) else [])
  unfolding files_for read_all values_of
  values_of-files_for [] = ground arith
  values_of-files_for (kvs ∷ maps) =
      let b = values_of-bucket kvs in
      let f = values_of-files_for maps in
      let l = values_of-append key kvs (read_all maps) in
      values_of-append key (bucket sum32 n_reduce i kvs)
        (read_all (files_for sum32 n_reduce i maps))
      ∙ rw (b, f, l)
          (elim (Bool-cases (ihash sum32 key % n_reduce == i)) [
            | inl e ↦ rw e refl
            | inr e ↦ rw e refl
          ])

  -- Let map tasks emit pairs, and part them into files for the reduce tasks, and let `sort` put the
  -- pairs that the reduce task `i` reads in an order in which no pair comes before one with a smaller
  -- key. If the hash of a key is `i` modulo the number of reduce tasks, the output of the task has
  -- for the key what Reduce makes of the values of all pairs with the key that any map task emitted,
  -- in some order, and nothing if there are none. It has nothing for any other key. So the outputs
  -- of the reduce tasks are together what Reduce makes of the pairs of each key.
  pub do_reducef-partition :
      (sort : List KeyValue → List KeyValue) (reducef : Str → List Str → Str)
      (maps : List (List KeyValue))
      → IsSorted (sort (read_all (files_for sum32 n_reduce i maps)))
      → Permᴰ
          (read_all (files_for sum32 n_reduce i maps))
          (sort (read_all (files_for sum32 n_reduce i maps)))
      → (values : List Str) × Permᴰ (values_of key (read_all maps)) values
        × (lookup key (do_reducef sort reducef (files_for sum32 n_reduce i maps))
            ≡ (if ihash sum32 key % n_reduce == i then output_of reducef key values else none))
  do_reducef-partition sort reducef maps s p =
      let (values, q, l) =
        do_reducef-lookup sort reducef (files_for sum32 n_reduce i maps) key s p in
      let f = values_of-files_for maps in
      elim (Bool-cases (ihash sum32 key % n_reduce == i)) [
        | inl t ↦ (values, (let f' = rw t at f in rw f' at q), rw t l)
        | inr t ↦ (
          values_of key (read_all maps),
          Permᴰ.refl _,
          rw t (l ∙ ap (output_of reducef key) (Permᴰ-nil q (rw t at f))),
        )
      ]

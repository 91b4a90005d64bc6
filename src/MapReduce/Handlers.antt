-- ===== src/MapReduce/Handlers.antt =====
-- src/mr/coordinator.go: what the handlers, and the assignment of a task, do to the tasks of the
-- workers.
use mit_6_5840_2024_lab.Common.{
  ℕ, ◌≡◌, ◌≢◌, refl, sym, ap, ◌∙◌, true, false, some, List, arith, length-set, set, Bool-cases, inl,
  inr, ◌==◌, ==_iff, get_elem?-set_self, get_elem?-set_ne, get_elem?-bound,
}
use mit_6_5840_2024_lab.Common.Int.{ℤ, pos, negsuc, eq_ℤ, eq_ℤ_iff, int_eq}
use mit_6_5840_2024_lab.Common.Maps.{Map, lookup, insert, lookup-insert}
use mit_6_5840_2024_lab.Common.Strings.{Str}
use mit_6_5840_2024_lab.MapReduce.Coordinator.{
  free, ready, WorkType, empty, job, WorkerEntry, WorkInfo, Place, recovering, finding, choosing,
  assigning, telling, ended, signalling, quitting, halted, is_assigned,
}
use mit_6_5840_2024_lab.MapReduce.Assignment.{
  is_ready, Holds, IsOpen, IsIdle, AllDone, PlaceHolds, AllIds-insert, Consistent,
}

module _ (m : Map ℤ WorkerEntry) (id : ℤ) (w : WorkerEntry) where
  pub lookup-insert_self : lookup id (insert id w m) ≡ some w
  lookup-insert_self =
      let l = lookup-insert id id w m in let e = (eq_ℤ_iff id id).1 refl in ground arith

  pub lookup-insert_ne : (j : ℤ) → id ≢ j → lookup j (insert id w m) ≡ lookup j m
  lookup-insert_ne j n =
      let l = lookup-insert id j w m in
      elim (Bool-cases (eq_ℤ id j)) [
        | inl e ↦ absurd (n ((eq_ℤ_iff id j).0 e))
        | inr e ↦ ground arith
      ]

  -- A ready worker of the new map is the new entry, or was ready before.
  pub ready-insert :
      (j : ℤ) (v : WorkerEntry)
      → is_ready w.state ≡ false
      → lookup j (insert id w m) ≡ some v
      → is_ready v.state ≡ true
      → (lookup j m ≡ some v) × (id ≢ j)
  ready-insert j v idle e r =
      let l = lookup-insert id j w m in
      elim (Bool-cases (eq_ℤ id j)) [
        | inl same ↦
            absurd
              (let d : w ≡ v = (let e' = rw (l, same) at e in cc) in let r' = rw (sym d) at r in cc)
        | inr other ↦ (rw (l, other) at e, λ s. let t = (eq_ℤ_iff id j).1 s in absurd (cc))
      ]

  IsIdle-insert : (j : ℤ) → is_ready w.state ≡ false → IsIdle m j → IsIdle (insert id w m) j
  IsIdle-insert j idle (v, e, r) = elim (Bool-cases (eq_ℤ id j)) [
    | inl same ↦ let k : id ≡ j = (eq_ℤ_iff id j).0 same in (w, rw (sym k) lookup-insert_self, idle)
    | inr other ↦ (v, (let l = lookup-insert id j w m in rw (l, other) e), r)
  ]

  pub PlaceHolds-insert :
      (infos : List WorkInfo) (p : Place)
      → is_ready w.state ≡ false
      → PlaceHolds infos m p
      → PlaceHolds infos (insert id w m) p
  PlaceHolds-insert infos recovering idle h = tt
  PlaceHolds-insert infos finding idle h = tt
  PlaceHolds-insert infos (choosing i) idle h = h
  PlaceHolds-insert infos (assigning i j) idle h = (h.0, IsIdle-insert j idle h.1)
  PlaceHolds-insert infos (telling i j) idle h = (h.0, IsIdle-insert j idle h.1)
  PlaceHolds-insert infos ended idle h = h
  PlaceHolds-insert infos signalling idle h = tt
  PlaceHolds-insert infos quitting idle h = tt
  PlaceHolds-insert infos halted idle h = tt

  -- A worker without a job is entered.
  pub Consistent-insert :
      (type : WorkType) (infos : List WorkInfo)
      → is_ready w.state ≡ false
      → is_assigned id ≡ true
      → Consistent type infos m
      → Consistent type infos (insert id w m)
  Consistent-insert type infos idle a c = record {
    ids = AllIds-insert m id w c.ids a;
    jobs = λ j v e r. c.jobs j v (ready-insert j v idle e r).0 r;
  }

-- The state of task `i` is written.
module _ (infos : List WorkInfo) (i : ℕ) (new : WorkInfo) where
  IsOpen-set : (k : ℕ) (state : ℤ) → i ≢ k → IsOpen infos k state → IsOpen (set infos i new) k state
  IsOpen-set k state n (info, e, s) = (info, get_elem?-set_ne infos i k new n ∙ e, s)

  IsOpen-differ : (k : ℕ) (a b : ℤ) → a ≢ b → IsOpen infos i a → IsOpen infos k b → i ≢ k
  IsOpen-differ k a b n (x, e, s) (y, e', s') same =
      n (let e'' = rw (sym same) at e' in let d : x ≡ y = cc in sym s ∙ ap (λ x. x.state) d ∙ s')

  Holds-set :
      (type : WorkType) (id j : ℤ) (v : WorkerEntry)
      → id ≢ j
      → IsOpen infos i id
      → Holds type infos j v
      → Holds type (set infos i new) j v
  Holds-set type id j v n o h = record {
    task = h.task;
    arg = h.arg;
    work = h.work;
    info = h.info;
    entry =
        get_elem?-set_ne infos i h.task new (IsOpen-differ h.task id j n o (h.info, h.entry, h.own))
        ∙ h.entry;
    own = h.own;
  }

assigned-pos : (id : ℤ) → is_assigned id ≡ true → id ≢ pos 0
assigned-pos id a e = absurd (let a' = rw e at a in cc)

-- The report of worker `id`, which is ready with task `i`.
module _ (type : WorkType) (infos : List WorkInfo) (m : Map ℤ WorkerEntry) (i : ℕ) (id : ℤ)
    (info : WorkInfo) (w : WorkerEntry) where
  abbrev pub finished : List WorkInfo
  finished = set infos i (record info { state = negsuc 0 })

  abbrev pub freed : Map ℤ WorkerEntry
  freed = insert id (record { state = free; work = empty }) m

  pub report-Consistent :
      Consistent type infos m
      → is_assigned id ≡ true
      → IsOpen infos i id
      → Consistent type finished freed
  report-Consistent c a o = record {
    ids = AllIds-insert m id _ c.ids a;
    jobs = λ j v e r.
        let was = ready-insert m id (record { state = free; work = empty }) j v refl e r in
        Holds-set infos i _ type id j v was.1 o (c.jobs j v was.0 r);
  }

  report-IsOpen :
      (k : ℕ) (state : ℤ)
      → id ≢ state
      → IsOpen infos i id
      → IsOpen infos k state
      → IsOpen finished k state
  report-IsOpen k state n o h =
      IsOpen-set infos i _ k state (IsOpen-differ infos i info k id state n o h) h

  report-AllDone : AllDone infos → AllDone finished
  report-AllDone h k x e = elim (Bool-cases (i == k)) [
    | inl same ↦
        let s : i ≡ k = (==_iff i k).0 same in
        let e' = rw (sym s) at e in
        let new : WorkInfo = record info { state = negsuc 0 } in
        let b = get_elem?-bound finished i e' in
        let l = length-set infos i new in
        let g = get_elem?-set_self infos i new (omega arith) in
        let d : new ≡ x = cc in sym (ap (λ x. x.state) d)
    | inr other ↦
        h k x
          (sym (get_elem?-set_ne infos i k _ (λ s. let t = (==_iff i k).1 s in absurd (cc))) ∙ e)
  ]

  IsIdle-differs : (j : ℤ) → lookup id m ≡ some w → is_ready w.state ≡ true → IsIdle m j → id ≢ j
  IsIdle-differs j l r (v, e, idle) same =
      absurd (let e' = rw (sym same) at e in let d : w ≡ v = cc in let r' = rw d at r in cc)

  pub report-PlaceHolds :
      (p : Place)
      → is_assigned id ≡ true
      → lookup id m ≡ some w
      → is_ready w.state ≡ true
      → IsOpen infos i id
      → PlaceHolds infos m p
      → PlaceHolds finished freed p
  report-PlaceHolds p a l r o h = PlaceHolds-insert m id _ finished p refl (on p h)
    where
      on : (p : Place) → PlaceHolds infos m p → PlaceHolds finished m p
      on (choosing k) h = report-IsOpen k (pos 0) (assigned-pos id a) o h
      on (assigning k j) h = (report-IsOpen k (pos 0) (assigned-pos id a) o h.0, h.1)
      on (telling k j) h = (report-IsOpen k j (IsIdle-differs j l r h.1) o h.0, h.1)
      on ended h = report-AllDone h
      on recovering h = tt
      on finding h = tt
      on signalling h = tt
      on quitting h = tt
      on halted h = tt

-- The two halves of an assignment of task `i` to worker `id`.
module _ (type : WorkType) (infos : List WorkInfo) (m : Map ℤ WorkerEntry) (i : ℕ) (id : ℤ) where
  pub assign-Consistent :
      (info : WorkInfo)
      → Consistent type infos m
      → IsOpen infos i (pos 0)
      → Consistent type (set infos i info) m
  assign-Consistent info c o = record {
    ids = c.ids;
    jobs = λ j v e r.
        Holds-set infos i info type (pos 0) j v (λ s. assigned-pos j (c.ids j v e) (sym s)) o
          (c.jobs j v e r);
  }

  pub tell-Consistent :
      (arg : Str)
      → Consistent type infos m
      → IsOpen infos i id
      → is_assigned id ≡ true
      → Consistent type infos (insert id (record { state = ready; work = job type i arg }) m)
  tell-Consistent arg c (info, e, s) a = record {
    ids = AllIds-insert m id _ c.ids a;
    jobs = λ j v f r.
        let given : WorkerEntry = record { state = ready; work = job type i arg } in
        let l = lookup-insert id j given m in
        elim (Bool-cases (eq_ℤ id j)) [
          | inl same ↦
              let d : given ≡ v = (let f' = rw (l, same) at f in cc) in
              let k : id ≡ j = (eq_ℤ_iff id j).0 same in
              record {
                task = i;
                arg = arg;
                work = sym (ap (λ v. v.work) d);
                info = info;
                entry = e;
                own = s ∙ k;
              }
          | inr other ↦ c.jobs j v (rw (l, other) at f) r
        ];
  }

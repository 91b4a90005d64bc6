-- ===== src/ShardCtrler/Extremes.antt =====
-- What the inner loop of `rebalance` finds: groups with the fewest and the most shards.
use mit_6_5840_2024_lab.Common.{
  ℕ, zero, suc, ◌≤◌, ◌≡◌, refl, true, false, some, List, [], ◌∷◌, arith, length, get_elem?, leb,
  ==_iff, if◌then◌else◌, Bool-cases, inl, inr, ◌⊎◌,
}
use mit_6_5840_2024_lab.ShardCtrler.Rebalance.{Gs, Extremes, scan, extremes, gids, index_of, is_in}

-- A group at some index, with its gid and its size.
pub record Group (gss : List Gs) (gid size : ℕ) : Type 0 where
  pub index : ℕ
  pub group : Gs
  pub at : get_elem? gss index ≡ some group
  pub name : group.gid ≡ gid
  pub count : length group.shards ≡ size

Group-later :
    {gs : Gs} {gss : List Gs} {gid size : ℕ} → Group gss gid size → Group (gs ∷ gss) gid size
Group-later g = record {
  index = suc g.index;
  group = g.group;
  at = g.at;
  name = g.name;
  count = g.count;
}

abbrev step : Extremes → Gs → Extremes
step x gs = record {
  min_num = if leb (length gs.shards) x.min_num then length gs.shards else x.min_num;
  min_gid = if leb (length gs.shards) x.min_num then gs.gid else x.min_gid;
  max_num = if leb x.max_num (length gs.shards) then length gs.shards else x.max_num;
  max_gid = if leb x.max_num (length gs.shards) then gs.gid else x.max_gid;
}

scan-bounds :
    (gss : List Gs) (x : Extremes)
    → ((scan x gss).min_num ≤ x.min_num) × (x.max_num ≤ (scan x gss).max_num)
unfolding scan
scan-bounds [] x = (omega arith, omega arith)
scan-bounds (gs ∷ gss) x = ground (arith, scan-bounds gss (step x gs))

scan-between :
    (gss : List Gs) (x : Extremes) (j : ℕ) {gs : Gs}
    → get_elem? gss j ≡ some gs
    → ((scan x gss).min_num ≤ length gs.shards) × (length gs.shards ≤ (scan x gss).max_num)
unfolding scan
scan-between [] x j g = absurd (cc)
scan-between (e ∷ gss) x zero {gs} g =
    let same : e ≡ gs = cc in rw (← same) (ground (arith, scan-bounds gss (step x e)))
scan-between (e ∷ gss) x (suc j) g = scan-between gss (step x e) j g

scan-min :
    (gss : List Gs) (x : Extremes)
    → (((scan x gss).min_num ≡ x.min_num) × ((scan x gss).min_gid ≡ x.min_gid))
      ⊎ Group gss (scan x gss).min_gid (scan x gss).min_num
unfolding scan
scan-min [] x = inl (refl, refl)
scan-min (gs ∷ gss) x = elim (scan-min gss (step x gs)) [
  | inl (e, f) ↦ elim (Bool-cases (leb (length gs.shards) x.min_num)) [
    | inl small ↦
        inr (record { index = 0; group = gs; at = refl; name = ground arith; count = ground arith })
    | inr large ↦ inl (ground arith, ground arith)
  ]
  | inr g ↦ inr (Group-later g)
]

scan-max :
    (gss : List Gs) (x : Extremes)
    → (((scan x gss).max_num ≡ x.max_num) × ((scan x gss).max_gid ≡ x.max_gid))
      ⊎ Group gss (scan x gss).max_gid (scan x gss).max_num
unfolding scan
scan-max [] x = inl (refl, refl)
scan-max (gs ∷ gss) x = elim (scan-max gss (step x gs)) [
  | inl (e, f) ↦ elim (Bool-cases (leb x.max_num (length gs.shards))) [
    | inl large ↦
        inr (record { index = 0; group = gs; at = refl; name = ground arith; count = ground arith })
    | inr small ↦ inl (ground arith, ground arith)
  ]
  | inr g ↦ inr (Group-later g)
]

-- For at least one group, none of which is larger than the bound that the loop starts from, the loop
-- finds a smallest and a largest group.
pub extremes-min :
    (gs : Gs) (gss : List Gs)
    → length gs.shards ≤ 10000000000
    → Group (gs ∷ gss) (extremes (gs ∷ gss)).min_gid (extremes (gs ∷ gss)).min_num
unfolding scan
extremes-min gs gss h =
    let start : Extremes = record {
      min_num = 10000000000;
      min_gid = 0;
      max_num = 0;
      max_gid = 0;
    } in
    elim (scan-min gss (step start gs)) [
      | inl (e, f) ↦ record {
        index = 0;
        group = gs;
        at = refl;
        name = ground arith;
        count = ground arith;
      }
      | inr g ↦ Group-later g
    ]

pub extremes-max :
    (gs : Gs) (gss : List Gs)
    → Group (gs ∷ gss) (extremes (gs ∷ gss)).max_gid (extremes (gs ∷ gss)).max_num
unfolding scan
extremes-max gs gss =
    let start : Extremes = record {
      min_num = 10000000000;
      min_gid = 0;
      max_num = 0;
      max_gid = 0;
    } in
    elim (scan-max gss (step start gs)) [
      | inl (e, f) ↦ record {
        index = 0;
        group = gs;
        at = refl;
        name = ground arith;
        count = ground arith;
      }
      | inr g ↦ Group-later g
    ]

pub extremes-between :
    (gss : List Gs) (j : ℕ) {gs : Gs}
    → get_elem? gss j ≡ some gs
    → ((extremes gss).min_num ≤ length gs.shards) × (length gs.shards ≤ (extremes gss).max_num)
extremes-between gss j g = scan-between gss _ j g

-- No gid occurs twice.
abbrev pub Distinct : List ℕ → Type 0
Distinct [] = Unit
Distinct (g ∷ gs) = (is_in g gs ≡ false) × Distinct gs

pub is_in-gids :
    (gss : List Gs) (j : ℕ) {gs : Gs} → get_elem? gss j ≡ some gs → is_in gs.gid (gids gss) ≡ true
is_in-gids [] j g = absurd (cc)
is_in-gids (e ∷ gss) zero {gs} g =
    let same : e ≡ gs = cc in rw (← same) (ground (arith, ==_iff e.gid e.gid))
is_in-gids (e ∷ gss) (suc j) {gs} g = ground (arith, is_in-gids gss j g)

-- `gid2Index` has the index of each group.
pub index_of-at :
    (gss : List Gs) (j : ℕ) {gs : Gs}
    → Distinct (gids gss)
    → get_elem? gss j ≡ some gs
    → index_of gs.gid (gids gss) ≡ j
unfolding index_of
index_of-at [] j d g = absurd (cc)
index_of-at (e ∷ gss) zero {gs} d g =
    let same : e ≡ gs = cc in rw (← same) (ground (arith, ==_iff e.gid e.gid))
index_of-at (e ∷ gss) (suc j) {gs} (n, d) g =
    ground (arith, is_in-gids gss j g, index_of-at gss j d g, ==_iff e.gid gs.gid)

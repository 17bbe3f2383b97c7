-- ===== src/Production/Inversion.antt =====
-- dsprod/tasks.py: `_runprod_index` inverts `runprod_branches`, so a merge finds each of its seeds.
use dsprod.Common.{
  ℕ, zero, suc, ◌+◌, ◌≡◌, ◌≤◌, ◌<◌, refl, sym, ◌∙◌, ap, Bool, true, false, ◌||◌, List, [], ◌∷◌, map,
  none, some, String, arith, ◌==◌, ==-refl, eq_of_==, elem, nat_eq, string_eq, get_elem?,
  Bool-cases, impossible, elem-append_left, elem-append_right, or_else, inl, inr,
}
use dsprod.Common.Dict.{Dict, get, put, get-put}
use dsprod.Production.Setup.{Point, n_jobs}
use dsprod.Production.Numbering.{
  Branch, branch, branch_eq, branch_beq, range_from, seeds_of, point_branches, runprod_branches,
  index_from, runprod_index,
}

left_of : (a b : Bool) → (a || b) ≡ true → b ≡ false → a ≡ true
left_of a b h other = ground arith

past : (m n : ℕ) → m ≤ n → (m == n) ≡ false → m + 1 ≤ n
past m n h other = ground arith

index_absent :
    (d : Dict Branch ℕ) (i : ℕ) (bs : List Branch) (b : Branch)
    → elem b bs ≡ false
    → get (index_from d i bs) b ≡ get d b
unfolding index_from
index_absent d i [] b h = refl
index_absent d i (x ∷ bs) b h = elim (Bool-cases (x == b)) [
  | inl same ↦ absurd (impossible (sym (rw same at h)))
  | inr other ↦
      index_absent (put d x i) (i + 1) bs b (rw other at h) ∙ get-put d x b i ∙ rw other refl
]

-- What an index holds of a branch: a place in the list where the branch stands.
abbrev Finds : Dict Branch ℕ → ℕ → List Branch → Branch → Type 0
Finds d i bs b = (j : ℕ) × (get d b ≡ some (i + j)) × (get_elem? bs j ≡ some b)

index-Finds :
    (d : Dict Branch ℕ) (i : ℕ) (bs : List Branch) (b : Branch)
    → elem b bs ≡ true
    → Finds (index_from d i bs) i bs b
unfolding index_from
index-Finds d i [] b h = absurd (impossible h)
index-Finds d i (x ∷ bs) b h = elim (Bool-cases (elem b bs)) [
  | inl later ↦
      let (j, found, stands) = index-Finds (put d x i) (i + 1) bs b later in
      (suc j, found ∙ ap some (omega arith), stands)
  | inr gone ↦
      let same : (x == b) ≡ true = left_of (x == b) (elem b bs) h gone in
      (
        zero,
        index_absent (put d x i) (i + 1) bs b gone
            ∙ get-put d x b i
            ∙ rw same (ap some (omega arith)),
        ap some (eq_of_== x b same),
      )
]

elem-range :
    (era : String) (pi start n seed : ℕ)
    → start ≤ seed
    → seed < start + n
    → elem (branch era pi seed) (map (branch era pi) (range_from start n)) ≡ true
elem-range era pi start zero seed low high = absurd (omega arith)
elem-range era pi start (suc n) seed low high = elim (Bool-cases (start == seed)) [
  | inl same ↦
      let here : branch_beq (branch era pi start) (branch era pi seed) ≡ true =
        rw (==-refl era, ==-refl pi, same) refl in
      rw here refl
  | inr other ↦
      rw (elem-range era pi (start + 1) n seed (past start seed low other) (omega arith))
        (ground arith)
]

no_entry : {p : Point} → none ≡ some p → ⊥
no_entry h = cc

elem-point_branches :
    (era : String) (first pi : ℕ) (points : List Point) (i : ℕ) (point : Point) (seed : ℕ)
    → get_elem? points i ≡ some point
    → pi ≡ first + i
    → 1 ≤ seed
    → seed ≤ n_jobs point era
    → elem (branch era pi seed) (point_branches era first points) ≡ true
unfolding point_branches
elem-point_branches era first pi [] i point seed at e low high = absurd (no_entry at)
elem-point_branches era first pi (p ∷ points) zero point seed at e low high =
    let same : p ≡ point = ap (λ o. or_else o p) at in
    let here : pi ≡ first = omega (arith, e) in
    rw (same, here)
      (elem-append_left _ (map (branch era first) (seeds_of point era)) _
        (elem-range era first 1 (n_jobs point era) seed low (omega arith)))
elem-point_branches era first pi (p ∷ points) (suc i) point seed at e low high =
    elem-append_right _ (map (branch era first) (seeds_of p era)) _
      (elem-point_branches era (first + 1) pi points i point seed at (omega (arith, e)) low high)

elem-runprod_branches :
    (era : String) (eras : List String) (points : List Point) (b : Branch)
    → elem era eras ≡ true
    → elem b (point_branches era 0 points) ≡ true
    → elem b (runprod_branches eras points) ≡ true
unfolding runprod_branches
elem-runprod_branches era [] points b known h = absurd (impossible known)
elem-runprod_branches era (e ∷ eras) points b known h = elim (Bool-cases (elem era eras)) [
  | inl later ↦
      elem-append_right b (point_branches e 0 points) _
        (elem-runprod_branches era eras points b later h)
  | inr gone ↦
      let same : e ≡ era = eq_of_== e era (left_of (e == era) (elem era eras) known gone) in
      elem-append_left b (point_branches e 0 points) _ (rw same h)
]

-- The index inverts the numbering: for every era and point of the production and each of the
-- point's seeds, it holds a branch number, and the branch of `RunProd` with that number is of this
-- era, point and seed.
pub runprod_index-inverts :
    (eras : List String) (points : List Point) (era : String) (pi : ℕ) (point : Point) (seed : ℕ)
    → elem era eras ≡ true
    → get_elem? points pi ≡ some point
    → 1 ≤ seed
    → seed ≤ n_jobs point era
    → (i : ℕ) × (get (runprod_index eras points) (branch era pi seed) ≡ some i)
      × (get_elem? (runprod_branches eras points) i ≡ some (branch era pi seed))
unfolding runprod_index
runprod_index-inverts eras points era pi point seed known at low high =
    let (i, found, stands) = index-Finds [] 0 (runprod_branches eras points) (branch era pi seed) (
      elem-runprod_branches era eras points (branch era pi seed) known
        (elem-point_branches era 0 pi points pi point seed at (omega arith) low high)) in
    (i, found ∙ ap some (omega arith), stands)

-- ===== src/Repairs/Listings.antt =====
-- dsprod/tasks.py: `_names` of `BackfillProducedRecords` and of `PruneProducedRecords`, and `_parent_of`.
--
-- law's directory targets are a parameter. A listing that raises is `none`, and so is a parent that
-- law refuses to build.
use dsprod.Common.{
  ℕ, zero, suc, ◌≡◌, refl, sym, false, List, [], Option, none, some, String, inl, inr, Bool-cases,
  Option-cases, or_else, if◌then◌else◌, elem, string_eq,
}

not_found : {names : List String} → none ≡ some names → ⊥
not_found h = cc

found_of : {a b : List String} → some a ≡ some b → a ≡ b
found_of h = cc

pub record Directories : Type 1 where
  pub Target : Type 0
  pub parent : Target → Option Target
  pub basename : Target → String

abbrev pub absence_climb_limit : ℕ
absence_climb_limit = 5

module _ (d : Directories) where
  open d use {Target, parent, basename}

  -- `_names` of the backfill: what cannot be listed is taken for empty.
  unfoldable pub names_or_empty : (Target → Option (List String)) → Target → List String
  names_or_empty listdir t = or_else (listdir t) []

  -- `_parent_of`
  abbrev pub parent_of : Target → Option Target
  parent_of = parent

  -- The climb to the first ancestor that answers, `left` of them at most.
  unfoldable pub climb :
      (Target → Option (List String)) → ℕ → Target → Option Target → Option (List String)
  climb listdir zero child above = none
  climb listdir (suc left) child none = none
  climb listdir (suc left) child (some above) = elim (listdir above) [
    | none ↦ climb listdir left above (parent_of above)
    | some names ↦ if elem (basename child) names then none else some []
  ]

  -- `_names` of the pruning.
  unfoldable pub names : (Target → Option (List String)) → Target → Option (List String)
  unfolding climb
  names listdir t = elim (listdir t) [
    | none ↦ climb listdir absence_climb_limit t (parent_of t)
    | some found ↦ some found
  ]

  -- What the storage holds under a directory; `none` is a directory that is not there.
  abbrev pub Contents : Type 0
  Contents = Target → Option (List String)

  -- A listing may fail, and else gives what is there.
  abbrev pub IsTruthful : Contents → (Target → Option (List String)) → Type 0
  IsTruthful holds listdir =
      (t : Target) (found : List String) → listdir t ≡ some found → holds t ≡ some found

  -- A directory that is there stands in its parent, which is there too.
  pub record IsTree (holds : Contents) : Type 0 where
    pub orphan : (t above : Target) → parent t ≡ some above → holds above ≡ none → holds t ≡ none
    pub unlisted :
        (t above : Target) (found : List String)
        → parent t ≡ some above
        → holds above ≡ some found
        → elem (basename t) found ≡ false
        → holds t ≡ none

  module _ (holds : Contents) (listdir : Target → Option (List String))
      (true_to : IsTruthful holds listdir) (tree : IsTree holds) where
    climb-absent :
        (left : ℕ) (child : Target) (above : Option Target) (found : List String)
        → parent child ≡ above
        → climb listdir left child above ≡ some found
        → (found ≡ []) × (holds child ≡ none)
    unfolding climb
    climb-absent zero child above found up h = cc
    climb-absent (suc left) child none found up h = cc
    climb-absent (suc left) child (some above) found up h = elim (Option-cases (listdir above)) [
      | inl silent ↦
          let (empty, gone) =
            climb-absent left above (parent above) found refl (rw (climb, silent) at h) in
          (empty, tree.orphan child above up gone)
      | inr (listed, answer) ↦ elim (Bool-cases (elem (basename child) listed)) [
        | inl there ↦ absurd (not_found (rw (climb, answer, there) at h))
        | inr missing ↦ (
          sym (found_of (rw (climb, answer, missing) at h)),
          tree.unlisted child above listed up (true_to above listed answer) missing,
        )
      ]
    ]

    -- What the pruning takes for the names in a directory are the names in it: a directory is read
    -- as empty only if it is empty or not there, never because its listing failed. Listings that
    -- answer are assumed to be true, and a directory to stand in its parent.
    pub names-holds :
        (t : Target) (found : List String)
        → names listdir t ≡ some found
        → or_else (holds t) [] ≡ found
    unfolding names
    names-holds t found h = elim (Option-cases (listdir t)) [
      | inl silent ↦
          let (empty, gone) =
            climb-absent absence_climb_limit t (parent t) found refl (rw (names, silent) at h) in
          rw gone (sym empty)
      | inr (listed, answer) ↦ rw (true_to t listed answer) (found_of (rw (names, answer) at h))
    ]

-- ===== src/Production/Groups.antt =====
-- dsprod/tasks.py: `merge_groups` divides the seeds of a sample among the merged files.
use native.Mathlib.Nat.{suc-mul, zero-mul}
use dsprod.Common.{
  ℕ, zero, suc, ◌+◌, ◌*◌, ◌≡◌, ◌≤◌, ◌<◌, refl, List, [], ◌∷◌, map, some, arith, length, drop,
  take-append-drop, length-take, length-drop, All, concat,
}
use dsprod.Production.Numbering.{groups_from, merge_groups}

abbrev pub seeds_in : List (ℕ × List ℕ) → List ℕ
seeds_in groups = concat (map (λ g. g.1) groups)

seeds-groups_from :
    (fuel group files : ℕ) (seeds : List ℕ)
    → 0 < files
    → length seeds ≤ fuel
    → seeds_in (groups_from fuel group files seeds) ≡ seeds
unfolding groups_from
seeds-groups_from zero group files [] pos enough = refl
seeds-groups_from zero group files (s ∷ seeds) pos enough = absurd (omega arith)
seeds-groups_from (suc fuel) group files [] pos enough = refl
seeds-groups_from (suc fuel) group files (s ∷ seeds) pos enough =
    rw
      (seeds-groups_from fuel (group + 1) files (drop files (s ∷ seeds)) pos
        (omega (arith, length-drop files (s ∷ seeds))))
      (take-append-drop files (s ∷ seeds))

-- A group holds at least one file and at most `files`, and is numbered from `first` on.
abbrev pub IsGroup : ℕ → ℕ → ℕ × List ℕ → Type 0
IsGroup files first g = (0 < length g.1) × (length g.1 ≤ files) × (first ≤ g.0)

groups_from-IsGroup :
    (fuel group first files : ℕ) (seeds : List ℕ)
    → 0 < files
    → first ≤ group
    → All (IsGroup files first) (groups_from fuel group files seeds)
unfolding groups_from
groups_from-IsGroup zero group first files seeds pos low = tt
groups_from-IsGroup (suc fuel) group first files [] pos low = tt
groups_from-IsGroup (suc fuel) group first files (s ∷ seeds) pos low =
    let size = length-take files (s ∷ seeds) in
    (
      (omega (arith, size), omega (arith, size), low),
      groups_from-IsGroup fuel (group + 1) first files (drop files (s ∷ seeds)) pos (omega arith),
    )

-- With groups of at least one file, every seed stands in exactly one group, in order: the groups
-- one after the other are the seeds. No group is empty, and none has more files than
-- `files_per_merge`.
pub merge_groups-partition :
    (seeds : List ℕ) (files : ℕ)
    → 0 < files
    → (groups : List (ℕ × List ℕ)) × (merge_groups seeds files ≡ some groups)
      × (seeds_in groups ≡ seeds)
      × All (IsGroup files 0) groups
unfolding merge_groups
merge_groups-partition seeds files pos = (
  groups_from (length seeds) 0 files seeds,
  ground arith,
  seeds-groups_from (length seeds) 0 files seeds pos (omega arith),
  groups_from-IsGroup (length seeds) 0 0 files seeds pos (omega arith),
)

-- A whole number of groups leaves none short.
pub groups_from-full :
    (fuel group files k : ℕ) (seeds : List ℕ)
    → 0 < files
    → length seeds ≡ k * files
    → All (λ g. length g.1 ≡ files) (groups_from fuel group files seeds)
unfolding groups_from
groups_from-full zero group files k seeds pos whole = tt
groups_from-full (suc fuel) group files k [] pos whole = tt
groups_from-full (suc fuel) group files zero (s ∷ seeds) pos whole =
    absurd (omega (arith, zero-mul files))
groups_from-full (suc fuel) group files (suc k) (s ∷ seeds) pos whole =
    let rest : length (drop files (s ∷ seeds)) ≡ k * files =
      omega (arith, length-drop files (s ∷ seeds), suc-mul k files) in
    (
      omega (arith, length-take files (s ∷ seeds), suc-mul k files),
      groups_from-full fuel (group + 1) files k (drop files (s ∷ seeds)) pos rest,
    )

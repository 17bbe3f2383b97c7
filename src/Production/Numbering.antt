-- ===== src/Production/Numbering.antt =====
-- dsprod/tasks.py: the branch numbers of `RunProd` and of `NanoMergeTask`.
use text.Mathlib.TextEquality.{eq_iff}
use dsprod.Common.{
  ℕ, zero, suc, ◌+◌, ◌≡◌, ◌↔◌, Bool, true, ◌&&◌, List, [], ◌∷◌, ◌++◌, map, Option, none, some,
  String, arith, Eq, ◌==◌, nat_eq, string_eq, nat_beq, length, take, drop, if◌then◌else◌,
}
use dsprod.Common.Dict.{Dict, get, put}
use dsprod.Production.Setup.{Point, n_jobs}

-- The data of a branch of `RunProd`.
pub record Branch : Type 0 where
  pub era : String
  pub point : ℕ
  pub seed : ℕ

abbrev pub branch_beq : Branch → Branch → Bool
branch_beq a b = a.era == b.era && (a.point == b.point && a.seed == b.seed)

pub branch_beq_iff : (a b : Branch) → (branch_beq a b ≡ true) ↔ (a ≡ b)
branch_beq_iff a b = ground (arith, eq_iff a.era b.era)

instance abbrev pub branch_eq : Eq Branch
branch_eq = record { test = branch_beq; test_path = branch_beq_iff }

-- `range(start, start + n)`
abbrev pub range_from : ℕ → ℕ → List ℕ
range_from start zero = []
range_from start (suc n) = start ∷ range_from (start + 1) n

abbrev pub seeds_of : Point → String → List ℕ
seeds_of p era = range_from 1 (n_jobs p era)

abbrev pub branch : String → ℕ → ℕ → Branch
branch era pi seed = record { era = era; point = pi; seed = seed }

-- The inner loops of `runprod_branches`, from the point `pi` on.
unfoldable pub point_branches : String → ℕ → List Point → List Branch
point_branches era pi [] = []
point_branches era pi (p ∷ points) =
    map (branch era pi) (seeds_of p era) ++ point_branches era (pi + 1) points

unfoldable pub runprod_branches : List String → List Point → List Branch
runprod_branches [] points = []
runprod_branches (era ∷ eras) points = point_branches era 0 points ++ runprod_branches eras points

-- `{bd: i for i, bd in enumerate(…)}`
unfoldable pub index_from : Dict Branch ℕ → ℕ → List Branch → Dict Branch ℕ
index_from d i [] = d
index_from d i (b ∷ bs) = index_from (put d b i) (i + 1) bs

-- `_runprod_index`
unfoldable pub runprod_index : List String → List Point → Dict Branch ℕ
runprod_index eras points = index_from [] 0 (runprod_branches eras points)

-- `merge_groups`; an empty slice ends it, and a step of 0 is refused by `range`.
unfoldable pub groups_from : ℕ → ℕ → ℕ → List ℕ → List (ℕ × List ℕ)
groups_from zero group files_per_merge seeds = []
groups_from (suc fuel) group files_per_merge [] = []
groups_from (suc fuel) group files_per_merge (s ∷ seeds) =
    (group, take files_per_merge (s ∷ seeds))
    ∷ groups_from fuel (group + 1) files_per_merge (drop files_per_merge (s ∷ seeds))

unfoldable pub merge_groups : List ℕ → ℕ → Option (List (ℕ × List ℕ))
merge_groups seeds files_per_merge =
    if nat_beq files_per_merge 0
    then none
    else some (groups_from (length seeds) 0 files_per_merge seeds)

-- `requires` of a branch of the merge: the branch of `RunProd` of each seed.
unfoldable pub merge_requires : Dict Branch ℕ → String → ℕ → List ℕ → List (ℕ × Option ℕ)
merge_requires index era pi [] = []
merge_requires index era pi (seed ∷ seeds) =
    (seed, get index (branch era pi seed)) ∷ merge_requires index era pi seeds

-- The data of a branch of `NanoMergeTask`.
pub record MergeBranch : Type 0 where
  pub era : String
  pub point : ℕ
  pub version : String
  pub group : ℕ
  pub seeds : List ℕ

abbrev pub merge_branch : String → ℕ → String → ℕ × List ℕ → MergeBranch
merge_branch era pi version g = record {
  era = era;
  point = pi;
  version = version;
  group = g.0;
  seeds = g.1;
}

abbrev pub version_branches : String → ℕ → List (ℕ × List ℕ) → List String → List MergeBranch
version_branches era pi groups [] = []
version_branches era pi groups (version ∷ versions) =
    map (merge_branch era pi version) groups ++ version_branches era pi groups versions

abbrev pub point_merges : String → ℕ → List String → ℕ → List Point → List MergeBranch
point_merges era fpm versions pi [] = []
point_merges era fpm versions pi (p ∷ points) =
    version_branches era pi (groups_from (length (seeds_of p era)) 0 fpm (seeds_of p era)) versions
    ++ point_merges era fpm versions (pi + 1) points

-- `NanoMergeTask.create_branch_map`, for groups of at least one file. `versions` is what
-- `era_nano_versions` returns, and a branch's number is its place in the list.
unfoldable pub merge_branches :
    (String → List String) → ℕ → List String → List Point → List MergeBranch
merge_branches versions fpm [] points = []
merge_branches versions fpm (era ∷ eras) points =
    point_merges era fpm (versions era) 0 points ++ merge_branches versions fpm eras points

-- ===== src/Tests/Merges.antt =====
-- dsprod/tasks.py and dsprod/crab.py, what is asked of CRAB, at concrete inputs: a setup with two points.
use dsprod.Common.{
  ℕ, ◌*◌, max, ◌≡◌, ◌≤◌, ◌<◌, refl, Bool, true, List, [], ◌∷◌, Option, some, String, arith, length,
  All, elem, not, get_elem?, fnmatch, impossible, nat_eq,
}
use dsprod.Common.Dict.{get}
use dsprod.Common.Ratio.{ceil_div}
use dsprod.Requests.Resources.{
  ResourceSettings, Resources, allocate, allowed_cores, cores_down, cores_up, job_cores,
  first_at_least, first_at_most,
}
use dsprod.Requests.Memory.{allocate-grants}
use dsprod.Requests.Sites.{
  resolve_whitelist, resolve_whitelist-Spares, IsPlain, Lists, Spares, sites, expand,
}
use dsprod.Production.Setup.{Point, n_jobs, n_events}
use dsprod.Production.Numbering.{
  branch, branch_eq, runprod_branches, runprod_index, merge_groups, seeds_of, point_branches,
}
use dsprod.Production.Inversion.{runprod_index-inverts}
use dsprod.Production.Groups.{merge_groups-partition, seeds_in, IsGroup}
use dsprod.Production.Granularity.{
  validate_merge_granularity, validate_merge_granularity-full, partial_samples,
}

abbrev light : Point
light = record {
  process = "X_HH";
  name = "M-300";
  events_total = ("2022", 4000) ∷ ("2023", 2000) ∷ [];
  events_per_job = 1000;
}

abbrev heavy : Point
heavy = record {
  process = "X_HH";
  name = "M-800";
  events_total = ("2022", 2000) ∷ [];
  events_per_job = 1000;
}

abbrev points : List Point
points = light ∷ heavy ∷ []

abbrev eras : List String
eras = "2022" ∷ "2023" ∷ []

numbered : get_elem? (runprod_branches eras points) 4 ≡ some (branch "2022" 1 1)
unfolding runprod_branches point_branches n_jobs n_events ceil_div
numbered = refl

runprod_index-inverts_example :
    (i : ℕ) × (get (runprod_index eras points) (branch "2023" 0 2) ≡ some i)
    × (get_elem? (runprod_branches eras points) i ≡ some (branch "2023" 0 2))
unfolding n_jobs n_events ceil_div
runprod_index-inverts_example =
    runprod_index-inverts eras points "2023" 0 light 2 refl refl (omega arith) (omega arith)

merge_groups-partition_example :
    (groups : List (ℕ × List ℕ)) × (merge_groups (1 ∷ 2 ∷ 3 ∷ []) 2 ≡ some groups)
    × (seeds_in groups ≡ 1 ∷ 2 ∷ 3 ∷ [])
    × All (IsGroup 2 0) groups
merge_groups-partition_example = merge_groups-partition (1 ∷ 2 ∷ 3 ∷ []) 2 (omega arith)

validate_merge_granularity-full_example :
    All
      (λ p.
        (era : String)
        → (groups : List (ℕ × List ℕ)) × (merge_groups (seeds_of p era) 2 ≡ some groups)
          × All (λ g. length g.1 * p.events_per_job ≡ 1000 * 2) groups)
      points
unfolding validate_merge_granularity partial_samples
validate_merge_granularity-full_example =
    validate_merge_granularity-full 1000 2 points (omega arith) (omega arith) refl

abbrev records : ℕ → Option ℕ
records seed = some 1000

abbrev but_second : ℕ → Bool
but_second seed = not (elem seed (2 ∷ []))

abbrev merge_settings : ResourceSettings
merge_settings = record {
  mb_per_core = 2500;
  mb_single_core = 3000;
  max_cores = 8;
  n_cpus = 1;
  crab_memory = 0;
  memory = 5000;
  memory_mb = 0;
}

abbrev one_core : ResourceSettings
one_core = record merge_settings { max_cores = 1 }

abbrev two_cores : Resources
two_cores = record { num_cores = 2; max_memory_mb = 5000 }

allocate-grants_example :
    (elem two_cores.num_cores allowed_cores ≡ true)
    × (two_cores.num_cores ≤ max 1 8)
    × (two_cores.max_memory_mb ≤ max 3000 (two_cores.num_cores * 2500))
    × (0 < 5000 → two_cores.max_memory_mb ≡ 5000)
    × (1 ≤ cores_down (max 1 8) → 1 ≤ two_cores.num_cores)
unfolding allocate job_cores cores_up cores_down first_at_least first_at_most ceil_div
allocate-grants_example = allocate-grants merge_settings 5000 two_cores refl

abbrev excluded : List String
excluded = "T2_EE_Estonia" ∷ []

abbrev known_sites : List String
known_sites = "T1_DE_KIT" ∷ "T2_DE_DESY" ∷ "T2_EE_Estonia" ∷ []

expands :
    resolve_whitelist ("T1_*" ∷ "T2_*" ∷ []) excluded known_sites
    ≡ sites ("T1_*" ∷ "T2_DE_DESY" ∷ [])
unfolding resolve_whitelist expand fnmatch
expands = refl

IsPlain-names : All (IsPlain excluded) known_sites
unfolding fnmatch
IsPlain-names =
    ((λ h. absurd (impossible h), tt), ((λ h. absurd (impossible h), tt), ((λ h. refl, tt), tt)))

resolve_whitelist-Spares_example :
    Lists (All (Spares excluded)) (resolve_whitelist ("T1_*" ∷ "T2_*" ∷ []) excluded known_sites)
resolve_whitelist-Spares_example =
    resolve_whitelist-Spares ("T1_*" ∷ "T2_*" ∷ []) excluded known_sites IsPlain-names

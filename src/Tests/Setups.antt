-- ===== src/Tests/Setups.antt =====
-- The selections of a setup, the branch map of the merge and the reading of a response, as runs.
use dsprod.Common.{
  ℕ, ◌≡◌, refl, false, true, ◌==◌, if◌then◌else◌, List, [], ◌∷◌, some, none, String, map, fnmatch,
  nat_eq, string_eq,
}
use dsprod.Common.Ratio.{ceil_div}
use dsprod.Requests.Resources.{
  ResourceSettings, grants, job_resources, allocate, first_set, job_cores, cores_up, cores_down,
  first_at_least, first_at_most, job_runtime,
}
use dsprod.Production.Setup.{
  Point, n_events, n_jobs, by_era, events_per_era, ok, raise, unknown_eras, select_by_pattern,
  select_points, per_era, era_nano_versions, no_version, gridpack_points,
}
use dsprod.Production.Requested.{
  TaskClass, scalar, requests, block, RequestBlock, Process, load_setup, setup_resources,
  read_tasks, read_task, read_requests, read_request, followed_by, configure,
}
use dsprod.Production.Requesting.{AllOrNothing, load_setup-AllOrNothing}
use dsprod.Production.Numbering.{merge_branches, groups_from}
use dsprod.Polling.Types.{Response, parse_query_output, not_scheduled, refused}
use dsprod.Waves.Gate.{auto_parallel_jobs}

abbrev at_mass : String → ℕ → Point
at_mass name events = record {
  process = "X_HH";
  name = name;
  events_total = ("2022", events) ∷ [];
  events_per_job = 1000;
}

abbrev scan : List Point
scan = at_mass "M-300" 3000 ∷ at_mass "M-800" 0 ∷ at_mass "M-900" 2000 ∷ []

misspelt :
    events_per_era (by_era (("2202", 5) ∷ [])) ("2022" ∷ []) ≡ raise (unknown_eras ("2202" ∷ []))
unfolding events_per_era
misspelt = refl

abbrev short : String → Point
short name = record (at_mass name 10) { events_per_job = 10 }

-- The point without events is dropped, and `--test` leaves one short job for each of the others.
selected :
    select_points ("2022" ∷ []) ("M-*" ∷ []) 10 scan ≡ ok (short "M-300" ∷ short "M-900" ∷ [])
unfolding select_points select_by_pattern n_events fnmatch
selected = refl

no_such_version :
    era_nano_versions (per_era (("default", "v12" ∷ []) ∷ [])) ("v15" ∷ []) "2022"
    ≡ raise (no_version "2022")
unfolding era_nano_versions
no_such_version = refl

shared : map (λ p. p.name) (gridpack_points (λ p. p.process) scan) ≡ "M-300" ∷ []
unfolding gridpack_points
shared = refl

merged :
    map (λ b. b.seeds) (merge_branches (λ era. "v12" ∷ []) 2 ("2022" ∷ []) scan)
    ≡ (1 ∷ 2 ∷ []) ∷ (3 ∷ []) ∷ (1 ∷ 2 ∷ []) ∷ []
unfolding merge_branches groups_from n_jobs n_events ceil_div
merged = refl

-- The first memory that is set counts, and raises the cores.
abbrev hungry : ResourceSettings
hungry = record {
  mb_per_core = 2500;
  mb_single_core = 3000;
  max_cores = 8;
  n_cpus = 1;
  crab_memory = 0;
  memory = 6000;
  memory_mb = 2000;
}

needs_four : job_resources hungry ≡ grants (record { num_cores = 4; max_memory_mb = 6000 })
unfolding job_resources allocate first_set job_cores cores_up cores_down first_at_least
    first_at_most ceil_div
needs_four = refl

half_hour : job_runtime (record { num = 1; den = 2 }) 60 ≡ some 60
unfolding job_runtime
half_hour = refl

abbrev says : String → Response
says state = record {
  state = state;
  warnings = "unknown site" ∷ [];
  failure = none;
  has_job_states = false;
}

waiting : parse_query_output (some []) (says "WAITING") ≡ not_scheduled
unfolding parse_query_output
waiting = refl

turned_down : parse_query_output none (says "SUBMITREFUSED") ≡ refused ("unknown site" ∷ [])
unfolding parse_query_output
turned_down = refl

capped : auto_parallel_jobs 16000 5000 8000 ≡ 8000
unfolding auto_parallel_jobs
capped = refl

-- A task that takes `2500` and reads `0` as nothing.
abbrev runprod_class : TaskClass
runprod_class = record {
  family = "RunProd";
  parse =
      λ name text. if text == "2500" then some true else if text == "0" then some false else none;
}

abbrev asks : String → RequestBlock
asks cpus =
    block (("RunProd", requests (("memory", scalar "2500") ∷ ("n_cpus", scalar cpus) ∷ [])) ∷ [])

abbrev nothing_loaded : Process
nothing_loaded = record { setup_cache = []; configured = [] }

second_asks_nothing :
    (load_setup (("RunProd", runprod_class) ∷ []) "setup.yaml" (asks "0") nothing_loaded).0
    ≡ nothing_loaded
unfolding load_setup setup_resources read_tasks read_task read_requests read_request followed_by
    configure
second_asks_nothing = refl

load_setup-AllOrNothing_example :
    AllOrNothing
      (("RunProd", runprod_class) ∷ [])
      (asks "2500")
      nothing_loaded
      (load_setup (("RunProd", runprod_class) ∷ []) "setup.yaml" (asks "2500") nothing_loaded)
load_setup-AllOrNothing_example =
    load_setup-AllOrNothing (("RunProd", runprod_class) ∷ []) "setup.yaml" (asks "2500")
      nothing_loaded refl

-- ===== src/Requests/Resources.antt =====
-- dsprod/crab.py: the cores and the memory that `crab_job_config` asks for.
--
-- A count or a size below 0 is read as 0 is, "not set", so the settings are natural numbers.
use dsprod.Common.Ratio.{Ratio, floor_times, ceil_div}
use dsprod.Common.{
  Option, some, none, ℕ, ◌*◌, min, max, ◌&&◌, List, [], ◌∷◌, ltb, leb, nat_beq, if◌then◌else◌,
  nat_eq,
}

-- `CRAB_ALLOWED_CORES`, and the same in reverse
abbrev pub allowed_cores : List ℕ
allowed_cores = 1 ∷ 2 ∷ 4 ∷ 8 ∷ []

abbrev reversed_cores : List ℕ
reversed_cores = 8 ∷ 4 ∷ 2 ∷ 1 ∷ []

unfoldable pub first_at_least : ℕ → List ℕ → ℕ
first_at_least n [] = 8
first_at_least n (c ∷ cs) = if leb n c then c else first_at_least n cs

unfoldable pub first_at_most : ℕ → List ℕ → ℕ
first_at_most n [] = 1
first_at_most n (c ∷ cs) = if leb c n then c else first_at_most n cs

-- `_crab_cores_up`
unfoldable pub cores_up : ℕ → ℕ
unfolding first_at_least
cores_up n = first_at_least n allowed_cores

-- `_crab_cores_down`
unfoldable pub cores_down : ℕ → ℕ
unfolding first_at_most
cores_down n = first_at_most n reversed_cores

pub record ResourceSettings : Type 0 where
  pub mb_per_core : ℕ
  pub mb_single_core : ℕ
  pub max_cores : ℕ
  pub n_cpus : ℕ
  pub crab_memory : ℕ
  pub memory : ℕ
  pub memory_mb : ℕ

pub record Resources : Type 0 where
  pub num_cores : ℕ
  pub max_memory_mb : ℕ

-- `too_few_cores` has the cores that the message asks for, those of the task, and their memory.
pub data RequestError : Type 0 where
  not_in_mb : ℕ → RequestError
  zero_division : RequestError
  too_few_cores : ℕ → ℕ → ℕ → RequestError

pub data Request : Type 0 where
  grants : Resources → Request
  refuses : RequestError → Request

-- The loop over the candidates: the first that is set.
unfoldable pub first_set : List ℕ → ℕ
first_set [] = 0
first_set (m ∷ ms) = if ltb 0 m then m else first_set ms

-- The cores, once the memory is chosen: those that the threads and the memory need, up to the cap.
unfoldable pub job_cores : ResourceSettings → ℕ → ℕ
job_cores s mem =
    let threads = max 1 s.n_cpus in
    let needed = if nat_beq mem 0 then threads else max threads (ceil_div mem s.mb_per_core) in
    max 1 (min (cores_up needed) (cores_down (max 1 s.max_cores)))

-- What CRAB allows that many cores.
abbrev pub ceiling : ResourceSettings → ℕ → ℕ
ceiling s cores = max s.mb_single_core (cores * s.mb_per_core)

-- The request, once the memory is chosen; 0 leaves it to the cores.
unfoldable pub allocate : ResourceSettings → ℕ → Request
allocate s mem =
    let cores = job_cores s mem in
    if ltb 0 mem && ltb mem 1000
    then refuses (not_in_mb mem)
    else if ltb 0 mem && nat_beq s.mb_per_core 0
    then refuses zero_division
    else if nat_beq mem 0
    then grants (record { num_cores = cores; max_memory_mb = ceiling s cores })
    else if ltb (ceiling s cores) mem
    then refuses (too_few_cores (cores_up (ceil_div mem s.mb_per_core)) cores (ceiling s cores))
    else grants (record { num_cores = cores; max_memory_mb = mem })

unfoldable pub job_resources : ResourceSettings → Request
unfolding allocate first_set
job_resources s = allocate s (first_set (s.crab_memory ∷ s.memory ∷ s.memory_mb ∷ []))

-- `maxJobRuntimeMin`: the hours in whole minutes, at least the floor.
unfoldable pub job_runtime : Ratio → ℕ → Option ℕ
job_runtime hours least = if ltb 0 hours.num then some (max (floor_times hours 60) least) else none

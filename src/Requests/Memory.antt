-- ===== src/Requests/Memory.antt =====
-- dsprod/crab.py: what the cores and the memory that are asked for satisfy.
use native.Mathlib.Nat.{mul-le-mul_right}
use dsprod.Common.{
  ℕ, ◌*◌, min, max, ◌≡◌, ◌≤◌, ◌<◌, refl, true, nat_beq, if◌then◌else◌, nat_eq, elem, arith, ap,
}
use dsprod.Common.Ratio.{ceil_div, ceil_div-covers, ceil_div-le}
use dsprod.Requests.Resources.{
  allowed_cores, cores_up, cores_down, ResourceSettings, Resources, Request, grants, refuses,
  too_few_cores, allocate, job_cores, ceiling, first_at_least, first_at_most,
}

cores_up_bounds :
    (n : ℕ) → (elem (cores_up n) allowed_cores ≡ true) × (1 ≤ cores_up n) × (min n 8 ≤ cores_up n)
unfolding cores_up first_at_least
cores_up_bounds n = ground arith

cores_down_bounds :
    (n : ℕ)
    → (elem (cores_down n) allowed_cores ≡ true) × (1 ≤ cores_down n) × (cores_down n ≤ max 1 n)
unfolding cores_down first_at_most
cores_down_bounds n = ground arith

cores_up_mono : (m n : ℕ) → m ≤ n → cores_up m ≤ cores_up n
unfolding cores_up first_at_least
cores_up_mono m n h = ground arith

cores_down-cores_up : (n : ℕ) → cores_down (cores_up n) ≡ cores_up n
unfolding cores_up first_at_least cores_down first_at_most
cores_down-cores_up n = ground arith

wanted : Request → ℕ
wanted (refuses (too_few_cores want cores most)) = want
wanted _ = 0

-- The choice between two counts of cores that CRAB accepts is one that it accepts.
allowed_min :
    (a b : ℕ)
    → elem a allowed_cores ≡ true
    → elem b allowed_cores ≡ true
    → (elem (max 1 (min a b)) allowed_cores ≡ true) × (b ≤ 8) × (1 ≤ a) × (1 ≤ b)
allowed_min a b ha hb = ground arith

cores_fit :
    (a b n t cap : ℕ)
    → min n 8 ≤ a
    → b ≤ 8
    → 1 ≤ a
    → 1 ≤ b
    → b ≤ max 1 (max 1 cap)
    → t ≤ n
    → (max 1 (min a b) ≤ max 1 cap) × (t ≤ b → t ≤ max 1 (min a b))
cores_fit a b n t cap up eight pa pb down tn = (omega arith, λ tb. omega arith)

-- What the memory and the threads need together.
abbrev needed : ResourceSettings → ℕ → ℕ
needed s mem =
    if nat_beq mem 0 then max 1 s.n_cpus else max (max 1 s.n_cpus) (ceil_div mem s.mb_per_core)

job_cores_lem :
    (s : ResourceSettings) (mem : ℕ)
    → job_cores s mem ≡ max 1 (min (cores_up (needed s mem)) (cores_down (max 1 s.max_cores)))
unfolding job_cores
job_cores_lem s mem = refl

needs_threads : (s : ResourceSettings) (mem : ℕ) → s.n_cpus ≤ needed s mem
needs_threads s mem = ground arith

job_cores_bounds :
    (s : ResourceSettings) (mem : ℕ)
    → (elem (job_cores s mem) allowed_cores ≡ true)
      × (job_cores s mem ≤ max 1 s.max_cores)
      × (s.n_cpus ≤ cores_down (max 1 s.max_cores) → s.n_cpus ≤ job_cores s mem)
job_cores_bounds s mem =
    let (up, pos, covers) = cores_up_bounds (needed s mem) in
    let (down, pos', below) = cores_down_bounds (max 1 s.max_cores) in
    let (allowed, eight, pa, pb) = allowed_min _ _ up down in
    let (cap, threads) =
      cores_fit _ _ (needed s mem) s.n_cpus s.max_cores covers eight pa pb below
        (needs_threads s mem) in
    rw (job_cores_lem s mem) (allowed, cap, threads)

granted :
    (s : ResourceSettings) (mem : ℕ) (r : Resources)
    → allocate s mem ≡ grants r
    → (r.num_cores ≡ job_cores s mem)
      × (r.max_memory_mb ≤ ceiling s (job_cores s mem))
      × (0 < mem → r.max_memory_mb ≡ mem)
unfolding allocate
granted s mem r h = ground arith

-- A granted request is one that CRAB accepts and can run: a count of cores from its list, within
-- the cap, and no more memory than those cores are sold with. A memory that was asked for is
-- neither raised nor lowered, and the payload's threads have a core each if the cap allows it.
pub allocate-grants :
    (s : ResourceSettings) (mem : ℕ) (r : Resources)
    → allocate s mem ≡ grants r
    → (elem r.num_cores allowed_cores ≡ true)
      × (r.num_cores ≤ max 1 s.max_cores)
      × (r.max_memory_mb ≤ max s.mb_single_core (r.num_cores * s.mb_per_core))
      × (0 < mem → r.max_memory_mb ≡ mem)
      × (s.n_cpus ≤ cores_down (max 1 s.max_cores) → s.n_cpus ≤ r.num_cores)
allocate-grants s mem r h =
    let (cores, fits, exact) = granted s mem r h in
    let (allowed, cap, threads) = job_cores_bounds s mem in
    rw cores (allowed, cap, fits, exact, threads)

refused :
    (s : ResourceSettings) (mem want cores most : ℕ)
    → allocate s mem ≡ refuses (too_few_cores want cores most)
    → (want ≡ cores_up (ceil_div mem s.mb_per_core)) × (1000 ≤ mem) × (0 < s.mb_per_core)
unfolding allocate wanted
refused s mem want cores most h = ground (arith, ap wanted h)

granted_when :
    (s : ResourceSettings) (mem : ℕ)
    → 1000 ≤ mem
    → 0 < s.mb_per_core
    → mem ≤ ceiling s (job_cores s mem)
    → allocate s mem ≡ grants (record { num_cores = job_cores s mem; max_memory_mb = mem })
unfolding allocate
granted_when s mem big pos fits = ground arith

-- Raised to the cores that the memory needs, the cap gives at least those.
raised : (n q : ℕ) → q ≤ n → cores_up q ≤ max 1 (min (cores_up n) (cores_down (max 1 (cores_up q))))
raised n q h =
    let (up, pos, covers) = cores_up_bounds q in
    let same : max 1 (cores_up q) ≡ cores_up q = omega arith in
    rw (same, cores_down-cores_up q) (omega (arith, cores_up_mono q n h))

needs_memory :
    (s : ResourceSettings) (mem : ℕ) → 1000 ≤ mem → ceil_div mem s.mb_per_core ≤ needed s mem
needs_memory s mem big = ground arith

-- The advice of the message holds: if the task's cores are too few for the memory that is asked
-- for, and eight cores would do, then with `max_cores` raised to what the message says the request
-- is granted.
pub allocate-advice :
    (s : ResourceSettings) (mem want cores most : ℕ)
    → allocate s mem ≡ refuses (too_few_cores want cores most)
    → mem ≤ 8 * s.mb_per_core
    → (r : Resources) × (allocate (record s { max_cores = want }) mem ≡ grants r)
      × (r.max_memory_mb ≡ mem)
allocate-advice s mem want cores most h fits =
    let (e, big, pos) = refused s mem want cores most h in
    let s' = record s { max_cores = want } in
    let q = ceil_div mem s.mb_per_core in
    let few : q ≤ 8 = ceil_div-le mem s.mb_per_core 8 pos fits in
    let enough : q ≤ job_cores s' mem =
      let (up, one, covers) = cores_up_bounds q in
      let more = raised (needed s' mem) q (needs_memory s' mem big) in
      rw (job_cores_lem s' mem, e) (omega (arith, more)) in
    let room : mem ≤ job_cores s' mem * s.mb_per_core =
      omega (arith, ceil_div-covers mem s.mb_per_core pos, mul-le-mul_right s.mb_per_core enough) in
    (
      record { num_cores = job_cores s' mem; max_memory_mb = mem },
      granted_when s' mem big pos (omega (arith, room)),
      refl,
    )

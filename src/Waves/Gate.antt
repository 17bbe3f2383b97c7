-- ===== src/Waves/Gate.antt =====
-- dsprod/crab.py: how many jobs run at once, and when a group of jobs is submitted.
use dsprod.Common.{
  ℕ, ◌+◌, ◌-◌, ◌*◌, min, max, Bool, true, false, ◌&&◌, List, Option, some, none, ltb, leb, nat_beq,
  if◌then◌else◌, length, filter, nat_eq,
}
use dsprod.Common.Dict.{keys, has}
use dsprod.Common.Ratio.{Ratio, ratio_lt}
use dsprod.Waves.Types.{
  JobTable, RawNumber, absent, not_a_number, infinite, minus_infinite, nan, negative, number, unset,
  auto, fixed, Proxy, default_parallel_jobs, auto_max_parallel_jobs, default_refill_fraction,
  default_retry_release_minutes,
}

unfoldable pub auto_parallel_jobs : ℕ → ℕ → ℕ → ℕ
auto_parallel_jobs n_branches default cap = max 1 (min cap (max default n_branches))

-- `_apply_crab_parallel_jobs`: `cli` says that the command line has the value.
unfoldable pub apply_parallel_jobs : Proxy → Bool → ℕ → Proxy
unfolding auto_parallel_jobs
apply_parallel_jobs p cli n_branches =
    let size : ℕ = elim p.settings.parallel_jobs [
      | auto ↦ auto_parallel_jobs n_branches default_parallel_jobs auto_max_parallel_jobs
      | fixed n ↦ n
      | unset ↦
          if nat_beq p.n_parallel p.n_parallel_max then default_parallel_jobs else p.n_parallel
    ] in
    if cli then p else record p { n_parallel = size }

abbrev at_most_one : Ratio → Ratio
at_most_one r = if ratio_lt (record { num = 1; den = 1 }) r then record { num = 1; den = 1 } else r

-- `_crab_refill_fraction`. `none` is nan, which `max` and `min` let through.
unfoldable pub refill_fraction : RawNumber → Option Ratio
refill_fraction absent = some default_refill_fraction
refill_fraction not_a_number = some default_refill_fraction
refill_fraction infinite = some (record { num = 1; den = 1 })
refill_fraction minus_infinite = some (record { num = 0; den = 1 })
refill_fraction nan = none
refill_fraction negative = some (record { num = 0; den = 1 })
refill_fraction (number r) = some (at_most_one r)

-- `_crab_retry_release_minutes`
unfoldable pub retry_release_minutes : RawNumber → Ratio
retry_release_minutes absent = default_retry_release_minutes
retry_release_minutes not_a_number = default_retry_release_minutes
retry_release_minutes infinite = default_retry_release_minutes
retry_release_minutes minus_infinite = default_retry_release_minutes
retry_release_minutes nan = default_retry_release_minutes
retry_release_minutes negative = record { num = 0; den = 1 }
retry_release_minutes (number r) = r

-- `n >= fraction * n_parallel`, and `<`; a comparison with nan is false
unfoldable pub fills_wave : ℕ → Option Ratio → ℕ → Bool
fills_wave n none n_parallel = false
fills_wave n (some f) n_parallel = leb (f.num * n_parallel) (n * f.den)

unfoldable pub misses_wave : ℕ → Option Ratio → ℕ → Bool
misses_wave n none n_parallel = false
misses_wave n (some f) n_parallel = ltb (n * f.den) (f.num * n_parallel)

-- `_parked_retries`
unfoldable pub parked_retries : JobTable → List ℕ
parked_retries t = filter (λ job_num. has t.attempts job_num) (keys t.unsubmitted_jobs)

abbrev pub has_parked : JobTable → Bool
has_parked t = ltb 0 (length (parked_retries t))

-- `_update_retry_release_clock`
unfoldable pub update_clock : Proxy → ℕ → Bool → Proxy
unfolding parked_retries
update_clock p time after_release =
    let started : Option ℕ = elim p.retry_parked_since [
      | none ↦ some time
      | some since ↦ if after_release then some time else some since
    ] in
    record p { retry_parked_since = if has_parked p.table then started else none }

-- `_parked_retries_are_due`
unfoldable pub are_due : Proxy → ℕ → Bool
unfolding retry_release_minutes
are_due p time = elim p.retry_parked_since [
  | none ↦ false
  | some since ↦
      let release = retry_release_minutes p.settings.retry_release_minutes in
      leb (release.num * 60) ((time - since) * release.den)
]

-- `_should_submit_crab_group`. `n_parallel - n_active` may be negative, and then fills no wave.
unfoldable pub should_submit : Proxy → ℕ → ℕ → ℕ → Bool
unfolding refill_fraction fills_wave misses_wave are_due
should_submit p time n_backlog n_retry =
    let fraction = refill_fraction p.settings.refill_fraction in
    let free = p.n_parallel - p.n_active in
    let n_waiting = n_backlog + n_retry in
    if leb p.n_parallel_max p.n_parallel
    then true
    else if nat_beq n_waiting 0
    then true
    else if leb p.n_active p.n_parallel && fills_wave (min n_backlog free) fraction p.n_parallel
    then true
    else if misses_wave (p.n_active + n_waiting) fraction p.n_parallel
    then true
    else are_due p time

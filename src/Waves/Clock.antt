-- ===== src/Waves/Clock.antt =====
-- dsprod/crab.py: the release window of the retries that the wave gate holds back.
use dsprod.Common.{
  ℕ, ◌+◌, ◌-◌, ◌*◌, min, ◌≤◌, ◌<◌, ◌≡◌, ap, ◌⊎◌, Bool, true, false, List, some, none, arith,
  nat_beq, length, filter, is_some, Bool-cases, Option-cases, inl, inr, nat_eq,
}
use dsprod.Common.Ratio.{Ratio}
use dsprod.Waves.Types.{Jobs, nan, Proxy}
use dsprod.Waves.Gate.{
  has_parked, update_clock, are_due, should_submit, refill_fraction, retry_release_minutes,
  fills_wave, misses_wave,
}
use dsprod.Waves.Submission.{
  park_retries, Outcome, returns, mass_retry, submit_wave, hold_back, submit, is_mass_retry,
  is_kept,
}

-- The clock runs exactly while a retry is parked.
abbrev pub IsTicking : Proxy → Type 0
IsTicking p = is_some p.retry_parked_since ≡ has_parked p.table

update_clock-IsTicking :
    (p : Proxy) (time : ℕ) (after : Bool) → IsTicking (update_clock p time after)
unfolding update_clock
update_clock-IsTicking p time after = elim (Bool-cases (has_parked p.table)) [
  | inl some_parked ↦ rw some_parked (elim (Option-cases p.retry_parked_since) [
    | inl e ↦ simp e
    | inr (since, e) ↦ simp e (elim (Bool-cases after) [ inl a ↦ rw a | inr a ↦ rw a ])
  ])
  | inr no_parked ↦ simp no_parked
]

park_retries-IsTicking :
    (can_skip : ℕ → List ℕ → Bool) (p : Proxy) (time : ℕ) (retries : Jobs)
    → IsTicking p
    → IsTicking (park_retries can_skip p time retries)
unfolding park_retries
park_retries-IsTicking can_skip p time retries h =
    elim (Bool-cases (nat_beq (length (filter (is_kept can_skip) retries)) 0)) [
      | inl nothing ↦ rw nothing h
      | inr some_parked ↦ rw some_parked (update_clock-IsTicking _ time false)
    ]

-- What holds of the state with which a call returns.
abbrev pub Ends : (Proxy → Type 0) → Outcome → Type 0
Ends P (returns p sent) = P p
Ends P (mass_retry missing total) = Unit

module _ (can_skip : ℕ → List ℕ → Bool) (law_submit : Proxy → Jobs → Proxy × Jobs) where
  submit_wave-IsTicking :
      (p : Proxy) (time : ℕ) (retries : Jobs)
      → Ends IsTicking (submit_wave can_skip law_submit p time retries)
  unfolding submit_wave
  submit_wave-IsTicking p time retries = elim (Bool-cases (is_mass_retry p retries)) [
    | inl mass ↦ rw mass tt
    | inr calm ↦ rw calm (update_clock-IsTicking (law_submit p retries).0 time true)
  ]

  hold_back-IsTicking :
      (p : Proxy) (time : ℕ) (retries : Jobs)
      → IsTicking p
      → Ends IsTicking (hold_back can_skip law_submit p time retries)
  unfolding hold_back
  hold_back-IsTicking p time retries h = elim (Bool-cases (nat_beq (length retries) 0)) [
    | inl nothing ↦ rw nothing h
    | inr some_held ↦ rw some_held (park_retries-IsTicking can_skip p time retries h)
  ]

  -- After every round of `submit` that returns, whatever law's own `submit` did, the release
  -- window runs exactly while a retry is parked, if it did so before.
  pub submit-IsTicking :
      (p : Proxy) (time : ℕ) (readable : Bool) (retries : Jobs)
      → IsTicking p
      → Ends IsTicking (submit can_skip law_submit p time readable retries)
  unfolding submit
  submit-IsTicking p time readable retries h = elim (Bool-cases (is_mass_retry p retries)) [
    | inl mass ↦ rw mass tt
    | inr calm ↦ rw calm (elim (Bool-cases readable) [
      | inr blind ↦ rw blind (park_retries-IsTicking can_skip p time retries h)
      | inl sees ↦
          rw sees
            (elim (Bool-cases (
              should_submit (update_clock p time false) time (length p.table.unsubmitted_jobs)
                (length retries))) [
                  | inl opens ↦ rw opens (submit_wave-IsTicking _ time retries)
                  | inr shut ↦
                      rw shut
                        (hold_back-IsTicking _ time retries (update_clock-IsTicking p time false))
                ])
    ])
  ]

  -- A round for which law's own tree can be read starts the release window for every retry that is
  -- parked when it returns, also for those that an earlier driver parked: whatever the clock said
  -- before.
  pub submit-starts_clock :
      (p : Proxy) (time : ℕ) (retries : Jobs)
      → Ends IsTicking (submit can_skip law_submit p time true retries)
  unfolding submit
  submit-starts_clock p time retries = elim (Bool-cases (is_mass_retry p retries)) [
    | inl mass ↦ rw mass tt
    | inr calm ↦
        let q = update_clock p time false in
        rw calm
          (elim (Bool-cases
            (should_submit q time (length p.table.unsubmitted_jobs) (length retries))) [
              | inl opens ↦ rw opens (submit_wave-IsTicking q time retries)
              | inr shut ↦
                  rw shut (hold_back-IsTicking q time retries (update_clock-IsTicking p time false))
            ])
  ]

-- While a retry is parked and the wave gate is shut, less than the release window has passed since
-- the window was opened: no parked retry is held back for longer, however the numbers of jobs
-- stand.
pub should_submit-releases :
    (p : Proxy) (time since n_backlog n_retry : ℕ)
    → p.retry_parked_since ≡ some since
    → should_submit p time n_backlog n_retry ≡ false
    → (time - since) * (retry_release_minutes p.settings.retry_release_minutes).den
      < (retry_release_minutes p.settings.retry_release_minutes).num * 60
unfolding should_submit are_due
should_submit-releases p time since n_backlog n_retry parked shut = ground arith

-- With a fraction that is a number, a shut gate waits for something: parallel jobs are limited,
-- something waits, what is active and what waits together would fill a wave, and either more jobs
-- run than the limit or the backlog that fits is less than a wave.
pub should_submit-waits :
    (p : Proxy) (time n_backlog n_retry : ℕ) (f : Ratio)
    → refill_fraction p.settings.refill_fraction ≡ some f
    → should_submit p time n_backlog n_retry ≡ false
    → (p.n_parallel < p.n_parallel_max)
      × (0 < n_backlog + n_retry)
      × (f.num * p.n_parallel ≤ (p.n_active + (n_backlog + n_retry)) * f.den)
      × ((p.n_parallel < p.n_active)
          ⊎ (min n_backlog (p.n_parallel - p.n_active) * f.den < f.num * p.n_parallel))
unfolding should_submit
should_submit-waits p time n_backlog n_retry f e shut = ground arith

-- With nan as the fraction, and with work waiting under a limit on parallel jobs, the wave gate
-- opens for parked retries that are due, and for nothing else: not for a full wave, nor for the
-- last jobs.
pub should_submit-nan :
    (p : Proxy) (time n_backlog n_retry : ℕ)
    → p.settings.refill_fraction ≡ nan
    → p.n_parallel < p.n_parallel_max
    → 0 < n_backlog + n_retry
    → should_submit p time n_backlog n_retry ≡ are_due p time
unfolding should_submit refill_fraction fills_wave misses_wave
should_submit-nan p time n_backlog n_retry e limited waiting =
    let none_left : refill_fraction p.settings.refill_fraction ≡ none = ap refill_fraction e in
    rw none_left (ground arith)

-- ===== src/Waves/Rounds.antt =====
-- dsprod/crab.py: what a round of `submit` keeps of law's job data.
use dsprod.Common.{ℕ, ◌≡◌, Bool, true, false, List, nat_beq, length, Bool-cases, inl, inr, nat_eq}
use dsprod.Waves.Types.{Jobs, Proxy}
use dsprod.Waves.Gate.{update_clock, should_submit}
use dsprod.Waves.Submission.{submit, submit_wave, hold_back, is_mass_retry}
use dsprod.Waves.Parking.{tracks, tracks-park_retries}
use dsprod.Waves.Clock.{Ends}

abbrev pub Tracks : ℕ → Proxy → Type 0
Tracks k p = tracks p.table k ≡ true

module _ (can_skip : ℕ → List ℕ → Bool) (law_submit : Proxy → Jobs → Proxy × Jobs) (k : ℕ) where
  update_clock-Tracks :
      (p : Proxy) (time : ℕ) (after : Bool) → Tracks k p → Tracks k (update_clock p time after)
  unfolding update_clock
  update_clock-Tracks p time after h = h

  submit_wave-Tracks :
      (p : Proxy) (time : ℕ) (retries : Jobs)
      → Tracks k (law_submit p retries).0
      → Ends (Tracks k) (submit_wave can_skip law_submit p time retries)
  unfolding submit_wave
  submit_wave-Tracks p time retries kept = elim (Bool-cases (is_mass_retry p retries)) [
    | inl mass ↦ rw mass tt
    | inr calm ↦ rw calm (update_clock-Tracks (law_submit p retries).0 time true kept)
  ]

  hold_back-Tracks :
      (p : Proxy) (time : ℕ) (retries : Jobs)
      → Tracks k p
      → Ends (Tracks k) (hold_back can_skip law_submit p time retries)
  unfolding hold_back
  hold_back-Tracks p time retries h = elim (Bool-cases (nat_beq (length retries) 0)) [
    | inl nothing ↦ rw nothing h
    | inr some_held ↦ rw some_held (tracks-park_retries can_skip p time retries k h)
  ]

  -- No round of `submit` that returns loses a job that law knew before it, if law's own `submit`
  -- keeps that job.
  pub submit-Tracks :
      (p : Proxy) (time : ℕ) (readable : Bool) (retries : Jobs)
      → ((q : Proxy) → Tracks k q → Tracks k (law_submit q retries).0)
      → Tracks k p
      → Ends (Tracks k) (submit can_skip law_submit p time readable retries)
  unfolding submit
  submit-Tracks p time readable retries keeps h = elim (Bool-cases (is_mass_retry p retries)) [
    | inl mass ↦ rw mass tt
    | inr calm ↦ rw calm (elim (Bool-cases readable) [
      | inr blind ↦ rw blind (tracks-park_retries can_skip p time retries k h)
      | inl sees ↦
          let q = update_clock p time false in
          let h' = update_clock-Tracks p time false h in
          rw sees
            (elim (Bool-cases
              (should_submit q time (length p.table.unsubmitted_jobs) (length retries))) [
                | inl opens ↦ rw opens (submit_wave-Tracks q time retries (keeps q h'))
                | inr shut ↦ rw shut (hold_back-Tracks q time retries h')
              ])
    ])
  ]

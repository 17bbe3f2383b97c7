-- ===== src/Tests/Retries.antt =====
-- dsprod/crab.py, its wave gate, at concrete inputs: three jobs, one of which failed and is offered again.
use dsprod.Common.{
  ℕ, ◌-◌, ◌*◌, ◌≡◌, ◌<◌, refl, Bool, true, false, List, [], ◌∷◌, some, none, nat_eq,
}
use dsprod.Waves.Types.{Jobs, JobTable, Proxy, absent, nan, unset}
use dsprod.Waves.Gate.{parked_retries, update_clock, should_submit, retry_release_minutes}
use dsprod.Waves.Submission.{park_retries, submit}
use dsprod.Waves.Clock.{
  IsTicking, Ends, submit-starts_clock, submit-IsTicking, should_submit-releases,
}
use dsprod.Waves.Rounds.{Tracks, submit-Tracks}

abbrev nothing_done : ℕ → List ℕ → Bool
nothing_done job_num branches = false

abbrev sends_offered : Proxy → Jobs → Proxy × Jobs
sends_offered p retries = (p, retries)

abbrev table : JobTable
table = record {
  jobs =
      (1, record { branches = 10 ∷ []; error = none })
      ∷ (2, record { branches = 11 ∷ []; error = none })
      ∷ [];
  unsubmitted_jobs = (3, 12 ∷ []) ∷ [];
  attempts = (1, 1) ∷ [];
}

-- A wave of ten jobs of which eight run.
abbrev producing : Proxy
producing = record {
  table = table;
  saved = table;
  retry_parked_since = none;
  n_parallel = 10;
  n_parallel_max = 1000000000;
  n_active = 8;
  submitted = true;
  settings = record {
    refill_fraction = absent;
    retry_release_minutes = absent;
    parallel_jobs = unset;
  };
}

abbrev offered : Jobs
offered = (1, 10 ∷ []) ∷ []

held : parked_retries (park_retries nothing_done producing 500 offered).table ≡ 1 ∷ []
unfolding park_retries parked_retries update_clock
held = refl

submit-IsTicking_example :
    Ends IsTicking (submit nothing_done sends_offered producing 500 true offered)
unfolding parked_retries
submit-IsTicking_example =
    submit-IsTicking nothing_done sends_offered producing 500 true offered refl

abbrev parked_since : ℕ → Proxy
parked_since since = record producing { retry_parked_since = some since }

should_submit-releases_example :
    (600 - 500) * (retry_release_minutes absent).den < (retry_release_minutes absent).num * 60
unfolding should_submit
should_submit-releases_example = should_submit-releases (parked_since 500) 600 500 1 1 refl refl

abbrev unguarded : Proxy
unguarded = record producing {
  settings = record {
    refill_fraction = nan;
    retry_release_minutes = absent;
    parallel_jobs = unset;
  };
  n_active = 0;
}

keeps_third : (q : Proxy) → Tracks 2 q → Tracks 2 (sends_offered q offered).0
keeps_third q h = h

submit-Tracks_example :
    Ends (Tracks 2) (submit nothing_done sends_offered producing 500 true offered)
submit-Tracks_example =
    submit-Tracks nothing_done sends_offered 2 producing 500 true offered keeps_third refl

-- A resumed run: job 1 waits in the backlog since an earlier driver, and no clock runs.
abbrev resumed : Proxy
resumed = record producing {
  table = record table { unsubmitted_jobs = (1, 10 ∷ []) ∷ []; jobs = [] };
}

submit-starts_clock_example : Ends IsTicking (submit nothing_done sends_offered resumed 500 true [])
submit-starts_clock_example = submit-starts_clock nothing_done sends_offered resumed 500 []

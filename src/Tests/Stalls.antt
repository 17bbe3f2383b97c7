-- ===== src/Tests/Stalls.antt =====
-- dsprod/watchdog.py at concrete inputs: two jobs, one of which stopped refreshing its flag.
use dsprod.Common.{
  ℕ, ◌+◌, ◌*◌, ◌-◌, ◌≡◌, ◌≢◌, ◌≤◌, ◌<◌, ◌⊎◌, refl, true, false, List, [], ◌∷◌, String, Option, some,
  none, arith, length, All, is_some, or_else, ap, nat_eq, str,
}
use dsprod.Common.Dict.{Dict, get, has, keys}
use dsprod.Common.Ratio.{floor_times}
use dsprod.Jobs.{JobId, JobData, running, key, key_eq, job_id_eq}
use dsprod.Watchdog.Config.{
  defaults, mapping, watchdog_config, watchdog_config-margin, interval_seconds,
  write_timeout_seconds, stale_seconds,
}
use dsprod.Watchdog.Types.{FileInfo, StallWatchdog, start}
use dsprod.Watchdog.Listing.{refresh, age, set_jobs}
use dsprod.Watchdog.Operations.{
  verdicts, decide, issue, issue_one, scan, scan_job, scan_known, judge_age, stamp_resolution,
  min_running_for_fault_guard,
}
use dsprod.Polling.Callback.{
  Round, new_workflow, is_due, timed_call, list_flags, crab_poll_callback, queried, poll_loop,
}
use dsprod.Polling.Spacing.{poll_loop-within}
use dsprod.Watchdog.Budget.{polls}
use dsprod.Watchdog.Evidence.{Evidence}
use dsprod.Watchdog.Verdicts.{Because, Reported, listing_time, verdicts-Evidence}
use dsprod.Watchdog.Freshness.{verdicts-spares_fresh}
use dsprod.Watchdog.Charges.{PolledTable, branch_failures}
use dsprod.Watchdog.Guards.{scanned, verdicts-guards}

abbrev pub job : ℕ → JobId
job n = record { crab_num = n; task_name = "task"; proj_dir = "crab_task" }

abbrev runs : JobData
runs = record { status = running; code = none; error = none; site_history = []; log_file = none }

-- Job 1 runs branch 10, whose flag was last stamped at 50000; job 2 runs branch 11.
abbrev pub watching : StallWatchdog
watching = record (start defaults) {
  ages = some (("10", 50000) ∷ ("11", 99000) ∷ []);
  listed = true;
  listed_at = some 100000;
  by_id =
      (key (job 1), record { job_num = 1; branches = 10 ∷ [] })
      ∷ (key (job 2), record { job_num = 2; branches = 11 ∷ [] })
      ∷ [];
  first_seen = (key (job 1), 40000) ∷ (key (job 2), 40000) ∷ [];
  first_running = (key (job 1), 40000) ∷ (key (job 2), 40000) ∷ [];
}

abbrev pub status : Dict JobId (Option JobData)
status = (job 1, some runs) ∷ (job 2, some runs) ∷ []

fails_stalled : keys (verdicts watching status none 100100).1 ≡ job 1 ∷ []
unfolding verdicts decide issue issue_one start scan scan_job scan_known judge_age age str
fails_stalled = refl

watchdog_config-margin_example :
    interval_seconds defaults + write_timeout_seconds + 60 < stale_seconds defaults
unfolding watchdog_config
watchdog_config-margin_example = watchdog_config-margin (mapping []) refl

verdicts-Evidence_example :
    All
      (Because
        (Evidence
          (Reported status)
          (verdicts watching status none 100100).0
          (listing_time watching none 100100))
        defaults)
      (verdicts watching status none 100100).1
unfolding start
verdicts-Evidence_example = verdicts-Evidence watching status none 100100 (refl, (refl, tt))

since_stamp :
    (seen_at : ℕ)
    → get (verdicts watching status none 100100).0.first_seen (key (job 2)) ≡ some seen_at
    → seen_at - stamp_resolution ≤ 99000
unfolding verdicts decide issue issue_one start scan scan_job scan_known judge_age age str
since_stamp seen_at h = omega (arith, ap (λ o. or_else o 0) h)

verdicts-spares_fresh_example : has (verdicts watching status none 100100).1 (job 2) ≡ false
unfolding start str
verdicts-spares_fresh_example =
    verdicts-spares_fresh watching status none 100100 (job 2)
      (record { job_num = 2; branches = 11 ∷ [] }) 11 99000 (refl, (refl, tt)) refl refl refl
      since_stamp (omega arith) (omega arith)

-- A job that is failed twice is one too many: the second poll spares it.
abbrev two_polls : List PolledTable
two_polls =
    record { by_id = watching.by_id; poll = record { result = status; now = none; clock = 100100 } }
    ∷ record {
      by_id = watching.by_id;
      poll = record { result = status; now = none; clock = 100400 };
    }
    ∷ []

one_failed : branch_failures 10 watching two_polls ≡ 1
unfolding branch_failures verdicts decide issue issue_one start scan scan_job scan_known judge_age
    age str
one_failed = refl

fails_some : (verdicts watching status none 100100).1 ≢ []
unfolding verdicts decide issue issue_one start scan scan_job scan_known judge_age age str
fails_some h = cc

verdicts-guards_example :
    (watching.cfg.enabled ≡ true)
    × (is_some watching.ages ≡ true)
    × (watching.cfg.dry_run ≡ false)
    × ((length (scanned watching status none 100100).running < min_running_for_fault_guard)
        ⊎ (length (scanned watching status none 100100).stale
            ≤ floor_times watching.cfg.max_stale_fraction
                (length (scanned watching status none 100100).running)))
verdicts-guards_example = verdicts-guards watching status none 100100 fails_some

abbrev flag_file : String → ℕ → FileInfo
flag_file name date = record { name = name; date = some date; is_dir = false }

-- A round at a time, with the dates of the flags of branches 10 and 11.
abbrev round_at : ℕ → ℕ → ℕ → Round
round_at now first second = record {
  queries = record { result = status; now = none; clock = now } ∷ [];
  reason = none;
  moment = record {
    now = now;
    jobs = some (
        (1, record { job_id = some (job 1); branches = 10 ∷ [] })
        ∷ (2, record { job_id = some (job 2); branches = 11 ∷ [] })
        ∷ []);
    clock = now;
    entries = some (flag_file "10" first ∷ flag_file "11" second ∷ []);
  };
}

-- Branch 10 stops refreshing its flag after the first round.
abbrev six_rounds : List Round
six_rounds =
    round_at 40000 39900 39900
    ∷ round_at 40300 39900 39900
    ∷ round_at 43600 41000 43500
    ∷ round_at 45000 41000 43500
    ∷ round_at 46000 41000 45900
    ∷ round_at 46300 41000 45900
    ∷ []

run_fails_one : poll_loop (new_workflow defaults 3600) six_rounds ≡ 1
unfolding poll_loop crab_poll_callback queried polls list_flags timed_call is_due refresh set_jobs
    verdicts decide issue issue_one start scan scan_job scan_known judge_age age str
run_fails_one = refl

poll_loop-within_example :
    poll_loop (new_workflow defaults 3600) six_rounds * 1800 ≤ 5 * ((46300 - 40000) + 2 * 1800)
poll_loop-within_example = poll_loop-within defaults 3600 40000 46300 six_rounds (omega arith) (
  (omega arith, omega arith),
  (
    (omega arith, omega arith),
    (
      (omega arith, omega arith),
      ((omega arith, omega arith), ((omega arith, omega arith), ((omega arith, omega arith), tt))),
    ),
  ),
)

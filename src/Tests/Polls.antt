-- ===== src/Tests/Polls.antt =====
-- dsprod/crab.py, its job manager, at concrete inputs: one task of two jobs.
use dsprod.Common.{
  ℕ, ◌+◌, ◌≡◌, refl, false, List, [], ◌∷◌, Option, some, none, ltb, if◌then◌else◌, string_eq,
}
use dsprod.Common.Dict.{get}
use dsprod.Tests.Stalls.{job, status, watching}
use dsprod.Jobs.{JobId, JobData, Status, failed, finished, job_id_eq}
use dsprod.SiteStats.Types.{SiteStats, defaults}
use dsprod.Watchdog.Types.{start}
use dsprod.Watchdog.Operations.{verdicts}
use dsprod.Polling.Types.{
  Manager, PollResult, not_scheduled, refused, unreadable_response, refused_submissions,
}
use dsprod.Polling.Answers.{all_pending, on_refused}
use dsprod.Polling.Harvest.{harvest}
use dsprod.Polling.Rescue.{apply_to}
use dsprod.Polling.Query.{Attempt, gives, unreadable_for, query, answer_to, max_unreadable_polls}
use dsprod.Polling.Once.{Harvesting, harvests, records, harvest-once}
use dsprod.Polling.Rescued.{under_verdict, apply_to-result}
use dsprod.Polling.Waiting.{waiting, IsWaited, query-accounts}
use dsprod.Polling.Patience.{poll_times, query-patience}
use dsprod.Polling.Stopping.{IsAccounted}

abbrev polled : ℕ → JobId
polled n = record { crab_num = n; task_name = "task"; proj_dir = "crab_a" }

abbrev reports : Status → Option ℕ → JobData
reports s code = record {
  status = s;
  code = code;
  error = none;
  site_history = "T2_DE_DESY" ∷ [];
  log_file = none;
}

-- One job finished and the other failed with a code of its own.
abbrev ended_jobs : PollResult
ended_jobs =
    (polled 1, some (reports finished none)) ∷ (polled 2, some (reports failed (some 50660))) ∷ []

abbrev sites_seen : SiteStats
sites_seen = record { cfg = defaults; sites = []; in_flight = []; dirty = false }

abbrev polling : Manager
polling = record {
  unreadable = [];
  submitted_projects = "crab_a" ∷ "crab_b" ∷ [];
  refused_projects = "crab_b" ∷ [];
  failed_projects = [];
  unscheduled = [];
  stop_reason = none;
  reported_logs = [];
  stats_seen = [];
  in_flight = [];
  site_stats = some sites_seen;
  watchdog = none;
}

abbrev silence : List Attempt
silence =
    record { parsed = unreadable_response; named_state = "NONE" }
    ∷ record { parsed = unreadable_response; named_state = "NONE" }
    ∷ []

-- A second refused submission of this run stops it.
stops :
    (query 1000 "crab_a" "refused"
      (polled 1 ∷ [])
      polling
      (record { parsed = refused []; named_state = "SUBMITREFUSED" } ∷ [])).0.stop_reason
    ≡ some (refused_submissions 2)
unfolding query answer_to on_refused
stops = refl

abbrev first_poll : Harvesting
first_poll = record { now = 1000; proj = "crab_a"; result = ended_jobs }

-- One of the two jobs, in the report of another task.
abbrev other_poll : Harvesting
other_poll = record {
  now = 1200;
  proj = "crab_b";
  result = (polled 2, some (reports finished none)) ∷ [];
}

harvest-once_example :
    let m' = harvests (harvest polling 1000 "crab_a" ended_jobs) (other_poll ∷ []) in
    records (harvest m' 1300 "crab_a" ended_jobs).site_stats ≡ records m'.site_stats
harvest-once_example =
    harvest-once polling first_poll (record first_poll { now = 1300 }) (other_poll ∷ []) refl

-- The watchdog of Tests/Stalls fails its first job, and leaves the second.
apply_to-result_example :
    get (apply_to polling status 100100 (some watching)).1 (job 1)
    ≡ under_verdict (get (verdicts watching status none 100100).1 (job 1)) (get status (job 1))
unfolding start
apply_to-result_example = apply_to-result polling status 100100 watching (job 1)

query-patience_example :
    (query 1000 "crab_a" "refused"
      (polled 1 ∷ [])
      (poll_times 1000 "crab_a" "refused" (polled 1 ∷ []) silence 10 polling)
      silence).1
    ≡ (if ltb max_unreadable_polls (10 + 1)
        then unreadable_for (10 + 1)
        else gives (all_pending (polled 1 ∷ [])))
query-patience_example =
    query-patience 1000 "crab_a" "refused" (polled 1 ∷ []) silence 10 polling refl
      ((refl, refl), ((refl, refl), tt))

IsAccounted-polling : IsAccounted polling
IsAccounted-polling = record {
  distinct = (refl, tt);
  own = (refl, tt);
  distinct_failed = tt;
  own_failed = tt;
  explained = tt;
}

-- The first poll of a task that is not scheduled.
abbrev unscheduled_once : List Attempt
unscheduled_once = record { parsed = not_scheduled; named_state = "NONE" } ∷ []

query-accounts_example :
    IsAccounted (query 1000 "crab_a" "refused" (polled 1 ∷ []) polling unscheduled_once).0
    × IsWaited
        (("crab_a", waiting) ∷ [])
        (query 1000 "crab_a" "refused" (polled 1 ∷ []) polling unscheduled_once).0
query-accounts_example =
    query-accounts [] 1000 "crab_a" "refused" (polled 1 ∷ []) polling unscheduled_once
      IsAccounted-polling (record { counted = λ p. refl; due = tt })

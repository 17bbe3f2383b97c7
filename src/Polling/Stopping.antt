-- ===== src/Polling/Stopping.antt =====
-- dsprod/crab.py: for what the job manager stops a run.
use dsprod.Common.{
  ℕ, ◌≡◌, ◌≤◌, ◌<◌, refl, ◌∙◌, Bool, true, false, [], ◌∷◌, Option, none, some, String, nat_beq,
  if◌then◌else◌, elem, length, All, IsDistinct, string_eq, nat_eq, Bool-cases, inl, inr,
}
use dsprod.Common.Dict.{get, keys, pop}
use dsprod.Jobs.{JobId, JobData, is_running, job_id_eq}
use dsprod.SiteStats.Types.{SiteStats}
use dsprod.Watchdog.Types.{StallWatchdog, Reason}
use dsprod.Watchdog.Operations.{Verdicts, verdicts}
use dsprod.Polling.Types.{
  Manager, PollResult, stall, seen_eq, StopReason, refused_submissions, failed_submissions,
  unscheduled,
}
use dsprod.Polling.Harvest.{harvest, harvest_into, with_stats}
use dsprod.Polling.Rescue.{
  charge, forget_in, rescue_job, rescue, apply_to, apply_watchdog, report_failures, site_of,
}
use dsprod.Polling.Query.{take_in}

-- The fields that say which submissions went wrong are the same.
pub record Same (m m' : Manager) : Type 0 where
  pub submitted : m'.submitted_projects ≡ m.submitted_projects
  pub refusals : m'.refused_projects ≡ m.refused_projects
  pub failures : m'.failed_projects ≡ m.failed_projects
  pub stop : m'.stop_reason ≡ m.stop_reason
  pub waits : m'.unscheduled ≡ m.unscheduled

Same-refl : (m : Manager) → Same m m
Same-refl m = record {
  submitted = refl;
  refusals = refl;
  failures = refl;
  stop = refl;
  waits = refl;
}

Same-trans : {a b c : Manager} → Same a b → Same b c → Same a c
Same-trans p q = record {
  submitted = q.submitted ∙ p.submitted;
  refusals = q.refusals ∙ p.refusals;
  failures = q.failures ∙ p.failures;
  stop = q.stop ∙ p.stop;
  waits = q.waits ∙ p.waits;
}

forget_in-Same : (m : Manager) (id : JobId) (w : Option StallWatchdog) → Same m (forget_in m id w)
forget_in-Same m id none = Same-refl m
forget_in-Same m id (some w) = record {
  submitted = refl;
  refusals = refl;
  failures = refl;
  stop = refl;
  waits = refl;
}

charge-Same :
    (m : Manager) (clock : ℕ) (id : JobId) (site : Option String) (stats : Option SiteStats)
    → Same m (charge m clock id site stats)
unfolding charge
charge-Same m clock id none stats = Same-refl m
charge-Same m clock id (some site) none = Same-refl m
charge-Same m clock id (some site) (some stats) = elim (Bool-cases (elem (stall id) m.stats_seen)) [
  | inl old ↦ rw old (Same-refl m)
  | inr new ↦
      rw new
        (record { submitted = refl; refusals = refl; failures = refl; stop = refl; waits = refl })
]

rescue_job-Same :
    (m : Manager) (result : PollResult) (clock : ℕ) (id : JobId) (reason : Reason)
    (o : Option (Option JobData))
    → Same m (rescue_job m result clock id reason o).0
unfolding rescue_job
rescue_job-Same m result clock id reason none = Same-refl m
rescue_job-Same m result clock id reason (some none) = Same-refl m
rescue_job-Same m result clock id reason (some (some d)) = elim (Bool-cases (is_running d.status)) [
  | inl runs ↦ rw runs (
      Same-trans (forget_in-Same m id m.watchdog)
        (charge-Same (forget_in m id m.watchdog) clock id (site_of d) m.site_stats))
  | inr idle ↦ rw idle (Same-refl m)
]

rescue-Same :
    (m : Manager) (result : PollResult) (clock : ℕ) (vs : Verdicts)
    → Same m (rescue m result clock vs).0
unfolding rescue
rescue-Same m result clock [] = Same-refl m
rescue-Same m result clock ((id, reason) ∷ vs) =
    let after = rescue_job m result clock id reason (get result id) in
    Same-trans (rescue_job-Same m result clock id reason (get result id))
      (rescue-Same after.0 after.1 clock vs)

apply_Same :
    (m watched : Manager) (result : PollResult) (clock : ℕ) (vs : Verdicts) (b : Bool)
    → Same m watched
    → Same m (if b then rescue watched result clock vs else (m, result)).0
apply_Same m watched result clock vs true s = Same-trans s (rescue-Same watched result clock vs)
apply_Same m watched result clock vs false s = Same-refl m

apply_to-Same :
    (m : Manager) (result : PollResult) (clock : ℕ) (w : Option StallWatchdog)
    → Same m (apply_to m result clock w).0
unfolding apply_to
apply_to-Same m result clock none = Same-refl m
apply_to-Same m result clock (some w) =
    apply_Same m (record m { watchdog = some (verdicts w result none clock).0 }) result clock
      (verdicts w result none clock).1 w.cfg.enabled
      (record { submitted = refl; refusals = refl; failures = refl; stop = refl; waits = refl })

with_stats-Same :
    (m : Manager) (stats : Option SiteStats) (now : ℕ) (proj : String) (result : PollResult)
    → Same m (with_stats m stats (λ s. harvest_into m s now proj result))
unfolding harvest_into
with_stats-Same m none now proj result = Same-refl m
with_stats-Same m (some s) now proj result = record {
  submitted = refl;
  refusals = refl;
  failures = refl;
  stop = refl;
  waits = refl;
}

harvest-Same :
    (m : Manager) (now : ℕ) (proj : String) (result : PollResult)
    → Same m (harvest m now proj result)
unfolding harvest
harvest-Same m now proj result = elim (Bool-cases (nat_beq (length result) 0)) [
  | inl nothing ↦ rw nothing (Same-refl m)
  | inr some_jobs ↦ rw some_jobs (with_stats-Same m m.site_stats now proj result)
]

-- What `take_in` begins with: the counters of the project are reset.
abbrev pub heard_from : Manager → String → Manager
heard_from m proj = record m {
  unreadable = pop m.unreadable proj;
  unscheduled = pop m.unscheduled proj;
}

pub take_in-Same :
    (m : Manager) (now : ℕ) (proj : String) (result : PollResult)
    → Same (heard_from m proj) (take_in m now proj result).0
unfolding take_in report_failures apply_watchdog
take_in-Same m now proj result =
    let heard = heard_from m proj in
    let r = apply_to heard result now heard.watchdog in
    let all =
      Same-trans (apply_to-Same heard result now heard.watchdog) (harvest-Same r.0 now proj r.1) in
    record {
      submitted = all.submitted;
      refusals = all.refusals;
      failures = all.failures;
      stop = all.stop;
      waits = all.waits;
    }

-- Why a run is stopped is what happened to its own submissions.
abbrev pub Explains : Manager → Option StopReason → Type 0
Explains m none = Unit
Explains m (some (refused_submissions n)) = (2 ≤ n) × (n ≤ length m.refused_projects)
Explains m (some (failed_submissions n)) = (2 ≤ n) × (n ≤ length m.failed_projects)
Explains m (some (unscheduled proj n)) = 60 < n

-- Refusals and failures are counted once for each project, and only for projects of this run; a stop for
-- them has at least two behind it, and one for waiting more than 60 polls.
pub record IsAccounted (m : Manager) : Type 0 where
  pub distinct : IsDistinct m.refused_projects
  pub own : All (λ p. elem p m.submitted_projects ≡ true) m.refused_projects
  pub distinct_failed : IsDistinct (keys m.failed_projects)
  pub own_failed : All (λ p. elem p m.submitted_projects ≡ true) (keys m.failed_projects)
  pub explained : Explains m m.stop_reason

pub heard_from-IsAccounted :
    (m : Manager) (proj : String) → IsAccounted m → IsAccounted (heard_from m proj)
heard_from-IsAccounted m proj a = record {
  distinct = a.distinct;
  own = a.own;
  distinct_failed = a.distinct_failed;
  own_failed = a.own_failed;
  explained = heard_explains m.stop_reason a.explained;
}
  where
    heard_explains : (r : Option StopReason) → Explains m r → Explains (heard_from m proj) r
    heard_explains none h = tt
    heard_explains (some (refused_submissions n)) h = h
    heard_explains (some (failed_submissions n)) h = h
    heard_explains (some (unscheduled p n)) h = h

pub Same-IsAccounted : {m m' : Manager} → Same m m' → IsAccounted m → IsAccounted m'
Same-IsAccounted {m} {m'} s a = record {
  distinct = rw s.refusals a.distinct;
  own = rw (s.refusals, s.submitted) a.own;
  distinct_failed = rw s.failures a.distinct_failed;
  own_failed = rw (s.failures, s.submitted) a.own_failed;
  explained = rw s.stop (explains_same m.stop_reason a.explained);
}
  where
    explains_same : (r : Option StopReason) → Explains m r → Explains m' r
    explains_same none h = tt
    explains_same (some (refused_submissions n)) h = rw s.refusals h
    explains_same (some (failed_submissions n)) h = rw s.failures h
    explains_same (some (unscheduled proj n)) h = h

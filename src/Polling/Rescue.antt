-- ===== src/Polling/Rescue.antt =====
-- dsprod/crab.py: `_apply_watchdog`, which fails stalled jobs, and `report_failures`.
use dsprod.Common.{
  ℕ, ◌-◌, Bool, true, false, ◌&&◌, ◌||◌, List, [], ◌∷◌, Option, none, some, String, if◌then◌else◌,
  length, take, elem, add, last?, is_some, string_eq, nat_eq, ◌==◌,
}
use dsprod.Common.Dict.{get, put}
use dsprod.Jobs.{JobId, JobData, Status, failed, is_running, stalled, job_id_eq}
use dsprod.SiteStats.Types.{SiteStats}
use dsprod.SiteStats.Operations.{record_outcome}
use dsprod.Watchdog.Types.{StallWatchdog, Reason}
use dsprod.Watchdog.Operations.{Verdicts, verdicts, forget}
use dsprod.Polling.Types.{Manager, PollResult, stall, seen_eq}

abbrev pub named : Option String → Option String
named none = none
named (some site) = if site == "" then none else some site

-- The last site of a job, if it has a name.
abbrev pub site_of : JobData → Option String
site_of d = named (last? d.site_history)

-- The first stall of a job is charged to its site.
unfoldable pub charge : Manager → ℕ → JobId → Option String → Option SiteStats → Manager
charge m clock id (some site) (some stats) = if elem (stall id) m.stats_seen then m else record m {
  stats_seen = add (stall id) m.stats_seen;
  site_stats = some (record_outcome stats site false clock);
}
charge m clock id _ _ = m

abbrev pub forget_in : Manager → JobId → Option StallWatchdog → Manager
forget_in m id none = m
forget_in m id (some w) = record m { watchdog = some (forget w id) }

abbrev pub failed_by : Reason → JobData → JobData
failed_by reason d = record d { status = failed; code = none; error = some (stalled reason.age) }

-- The body of the loop over the verdicts, for the data of the job in the result.
unfoldable pub rescue_job :
    Manager → PollResult → ℕ → JobId → Reason → Option (Option JobData) → Manager × PollResult
unfolding charge
rescue_job m result clock id reason (some (some d)) =
    if is_running d.status
    then (
      charge (forget_in m id m.watchdog) clock id (site_of d) m.site_stats,
      put result id (some (failed_by reason d)),
    )
    else (m, result)
rescue_job m result clock id reason _ = (m, result)

unfoldable pub rescue : Manager → PollResult → ℕ → Verdicts → Manager × PollResult
rescue m result clock [] = (m, result)
rescue m result clock ((id, reason) ∷ vs) =
    let (m', result') = rescue_job m result clock id reason (get result id) in
    rescue m' result' clock vs

unfoldable pub apply_to : Manager → PollResult → ℕ → Option StallWatchdog → Manager × PollResult
apply_to m result clock none = (m, result)
apply_to m result clock (some w) =
    let (w', vs) = verdicts w result none clock in
    if w.cfg.enabled then rescue (record m { watchdog = some w' }) result clock vs else (m, result)

-- `_apply_watchdog`
unfoldable pub apply_watchdog : Manager → PollResult → ℕ → Manager × PollResult
unfolding apply_to
apply_watchdog m result clock = apply_to m result clock m.watchdog

abbrev pub has_failed : Status → Bool
has_failed failed = true
has_failed _ = false

abbrev pub new_log : List String → Bool → Option String → Option String
new_log reported true (some url) = if url == "" || elem url reported then none else some url
new_log reported _ _ = none

-- The logs of the jobs that failed with a code of their own, and were not reported.
abbrev pub failed_log : List String → Option JobData → Option String
failed_log reported none = none
failed_log reported (some d) = new_log reported (has_failed d.status && is_some d.code) d.log_file

abbrev cons_some : Option String → List String → List String
cons_some none urls = urls
cons_some (some url) urls = url ∷ urls

unfoldable pub failures : List String → PollResult → List String
failures reported [] = []
failures reported ((id, d) ∷ result) = cons_some (failed_log reported d) (failures reported result)

abbrev pub max_failure_reports : ℕ
max_failure_reports = 5

abbrev pub add_all : List String → List String → List String
add_all reported [] = reported
add_all reported (url ∷ urls) = add_all (add url reported) urls

-- `report_failures`: the state, the logs that are fetched, and how many are not.
unfoldable pub report_failures : Manager → PollResult → Manager × (List String × ℕ)
unfolding failures
report_failures m result =
    let urls = failures m.reported_logs result in
    let shown = take max_failure_reports urls in
    (
      record m { reported_logs = add_all m.reported_logs shown },
      (shown, length urls - length shown),
    )

-- ===== src/Polling/Answers.antt =====
-- dsprod/crab.py: what the job manager does with a task that was refused, failed or not scheduled.
use dsprod.Common.{
  ℕ, ◌+◌, List, [], ◌∷◌, Option, none, some, String, ltb, leb, if◌then◌else◌, length, elem, add,
  string_eq, nat_eq,
}
use dsprod.Common.Dict.{get_or, put, pop}
use dsprod.Jobs.{JobId, JobData, pending, failed, refused, job_id_eq}
use dsprod.Polling.Types.{Manager, PollResult, refused_submissions, failed_submissions, unscheduled}

abbrev pub max_unscheduled_polls : ℕ
max_unscheduled_polls = 60

abbrev pub max_refused_submissions : ℕ
max_refused_submissions = 2

abbrev pub max_failed_submissions : ℕ
max_failed_submissions = 2

-- `{job_id: … for job_id in job_ids}`
abbrev pub all_as : JobData → PollResult → List JobId → PollResult
all_as d result [] = result
all_as d result (id ∷ ids) = all_as d (put result id (some d)) ids

-- `job_status_dict(job_id=…, status=PENDING)`
abbrev pub pending_job : JobData
pending_job = record {
  status = pending;
  code = none;
  error = none;
  site_history = [];
  log_file = none;
}

abbrev pub refused_job : String → JobData
refused_job text = record {
  status = failed;
  code = none;
  error = some (refused text);
  site_history = [];
  log_file = none;
}

-- `_all_pending`
unfoldable pub all_pending : List JobId → PollResult
all_pending ids = all_as pending_job [] ids

-- `_not_scheduled_yet`
unfoldable pub not_scheduled_yet : Manager → String → List JobId → Manager × PollResult
not_scheduled_yet m proj ids =
    let n = get_or m.unscheduled proj 0 + 1 in
    (
      record m {
        unreadable = pop m.unreadable proj;
        unscheduled = put m.unscheduled proj n;
        stop_reason =
            if ltb max_unscheduled_polls n then some (unscheduled proj n) else m.stop_reason;
      },
      all_pending ids,
    )

-- `_refused`; `text` is the error that is reported.
unfoldable pub on_refused : Manager → String → String → List JobId → Manager × PollResult
on_refused m proj text ids =
    let gone =
      if elem proj m.submitted_projects then add proj m.refused_projects else m.refused_projects in
    (
      record m {
        unreadable = pop m.unreadable proj;
        refused_projects = gone;
        stop_reason =
            if leb max_refused_submissions (length gone)
            then some (refused_submissions (length gone))
            else m.stop_reason;
      },
      all_as (refused_job text) [] ids,
    )

-- `_submit_failed`
unfoldable pub on_submit_failed : Manager → String → Option String → Manager
on_submit_failed m proj failure =
    let known = put m.failed_projects proj failure in
    if elem proj m.submitted_projects
    then record m {
      failed_projects = known;
      stop_reason =
          if leb max_failed_submissions (length known)
          then some (failed_submissions (length known))
          else m.stop_reason;
    }
    else m

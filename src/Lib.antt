-- ===== src/Lib.antt =====
-- DSProd: the parts of the driver that decide what a production submits, judges and fails.
--
-- The program produces simulated samples on the grid. law runs its tasks; on CRAB the proxy of
-- dsprod/crab.py submits the jobs in waves, and its job manager polls them. Each poll feeds two
-- judges: the per-site record of dsprod/site_stats.py, which keeps failing sites out of the next
-- submission, and the watchdog of dsprod/watchdog.py, which fails a job that stopped refreshing its
-- flag on the storage. dsprod/tasks.py numbers the jobs, groups their files for the merge, and repairs
-- the records of what was produced. All of it asks the storage through dsprod/law_gfal.py, which keeps
-- what it was told for a while, and dsprod/grid_tools.py.
--
-- Files:
--   Common, Common/*        lists, dictionaries and quotients over the native numbers
--   Jobs                    law's job ids and status dictionaries
--   SiteStats/Types         dsprod/site_stats.py: `is_site`, `DEFAULTS`, `resolve_config`, the state
--   SiteStats/Judgement     `_counts`, `_ended_since`, `_baseline`, `_is_burst`, `_is_failing`
--   SiteStats/Operations    `record`, `set_in_flight`, `_prune`, `_expire`, `_quarantine`, `blacklist`
--   SiteStats/Persistence   `load` and `save`
--   SiteStats/*             their theorems: Sweep, Fairness, Escalation, Bans, Validity, Blacklist,
--                           Restart
--   Watchdog/Config         dsprod/watchdog.py: `watchdog_config`
--   Watchdog/Types          the state of `StallWatchdog`
--   Watchdog/Listing        `refresh`, `_age`, `set_jobs`
--   Watchdog/Operations     `verdicts`, `forget`
--   Watchdog/Heartbeat      the loop of `Heartbeat`
--   Watchdog/*              their theorems: Budget, Evidence, Verdicts, Freshness, Branches,
--                           Charges, Guards
--   Waves/Types             dsprod/crab.py: the state of `DSProdCrabWorkflowProxy`
--   Waves/Gate              when a group of jobs is submitted
--   Waves/Submission        `submit` and `_park_retries`, with the brake of dsprod/tools.py
--   Waves/*                 their theorems: Parking, Clock, Rounds
--   Requests/Resources      dsprod/crab.py: the cores and the memory of `crab_job_config`
--   Requests/Sites          `resolve_whitelist`, and its theorem
--   Requests/Cric           `processing_sites`, and its theorem
--   Requests/JobFile        `_rewrite_crab_job_file`, and its theorem
--   Requests/Memory         the theorems on the cores and the memory
--   Production/Setup        dsprod/processes/base.py: `Point`; dsprod/tasks.py: the selections
--   Production/Requested    dsprod/tasks.py: `load_setup`, `setup_resources`
--   Production/Requesting   what a load sets
--   Production/Numbering    `runprod_branches`, `_runprod_index`, `merge_groups`, the branch map
--   Production/Granularity  `_validate_merge_granularity`, and its theorem
--   Production/Inputs       the checks of a merge's inputs, and their theorems
--   Production/Merging      `NanoMergeTask.run`, and its theorem
--   Production/*            the theorems on the numbering: Inversion, Groups
--   Polling/Types           dsprod/crab.py: the state of `DSProdCrabJobManager`, `parse_query_output`
--   Polling/Answers         `_refused`, `_not_scheduled_yet`, `_submit_failed`, `_all_pending`
--   Polling/Harvest         `harvest_site_stats`
--   Polling/Rescue          `_apply_watchdog`, `report_failures`
--   Polling/Query           `query`
--   Polling/Callback        `crab_poll_callback`, the poll loop, and `timed_call_wrapper` of dsprod/tools.py
--   Polling/Spending, Spacing   how many jobs a run may fail
--   Polling/*               their theorems: Tallying, Once, Rescued, Patience, Stopping, Accounts,
--                           Waiting
--   Repairs/Listings        dsprod/tasks.py: `_names` of the backfill and of the pruning
--   Repairs/Accounts        the names of a seed's files, and the seeds behind the merged files
--   Repairs/Backfill        `BackfillProducedRecords`
--   Repairs/Backfilled      which seeds have a record after it
--   Repairs/Prune           `PruneProducedRecords`
--   Repairs/Deletions       what it deletes
--   Repairs/Lifecycle       what running jobs do to the storage, as a step relation
--   Repairs/Concurrent      the pruning against running jobs
--   Repairs/Rounds, Ending  `ProductionTask.run`, and how its passes end
--   Storage/Paths           `os.path`, and the texts that are looked for
--   Storage/Listing         dsprod/grid_tools.py: `gfal_ls_checked`
--   Storage/Cache           dsprod/law_gfal.py: `PathCache`
--   Storage/Interface       `GFALFileInterface`
--   Storage/Soundness, Existence, Preservation, Listed
--                           what the cache knows, against what is on the storage
--   Storage/Copy, Intact    dsprod/grid_tools.py: `gfal_copy_safe`, and its target
--   Storage/Retries         dsprod/tools.py: `repeat_until_success`
--   Steps/Params, Layers    dsprod/run_step.py: `resolve_step_params`, `merge_params`
--   Steps/Counts            `_read_event_counts`
--   Steps/Chain, Chained    `run_step`, `assert_step_events`, `run_chain`, `run_nano`
--   Steps/Job               dsprod/tasks.py: `RunProd.run`
--   Tests/*                 the same definitions at concrete inputs
--
-- A Python object is a record, and a method is a function from its state to its new state; what a
-- method reads from outside (the clock, a listing, what law returns) is an argument. Exceptions are
-- constructors of a result type. Loops are structural recursion over the list that they run through;
-- `str` has fuel, `n + 1` for a number with at most `n + 1` digits, and `groups_from` as much as there
-- are seeds, of which each step takes at least one; the parents of a path have its length, and each
-- is shorter than the one before; the climbs of `_names` and of `_mark_absent_ancestors` have the
-- source's own bounds, 5 and 32.
--
-- Numbers are natural numbers: seconds, minutes and hours are whole, and fractions are quotients,
-- which the source computes as floats. A time before 0 does not occur, so a window that reaches
-- below 0 starts at 0, as it does for the source on times of the epoch.
--
-- Not modelled: reading and writing files and the grid, the commands that are run, threads and their
-- locks, the text of messages, and law itself, whose `submit` and job completeness test are parameters.
pub mod Common
pub mod SiteStats
pub mod Jobs
pub mod Watchdog
pub mod Waves
pub mod Requests
pub mod Production
pub mod Polling
pub mod Repairs
pub mod Storage
pub mod Steps
pub mod Tests

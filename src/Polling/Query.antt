-- ===== src/Polling/Query.antt =====
-- dsprod/crab.py: `query`, one poll of a CRAB task with its retries.
use dsprod.Common.{ℕ, ◌+◌, Bool, List, [], ◌∷◌, String, ltb, if◌then◌else◌, elem, string_eq, nat_eq}
use dsprod.Common.Dict.{get_or, put, pop}
use dsprod.Jobs.{JobId}
use dsprod.Polling.Types.{
  Manager, PollResult, Parsed, jobs, refused, not_scheduled, submit_failed, unreadable_response,
  terminal_states,
}
use dsprod.Polling.Answers.{all_pending, not_scheduled_yet, on_refused, on_submit_failed}
use dsprod.Polling.Harvest.{harvest}
use dsprod.Polling.Rescue.{apply_watchdog, report_failures}

abbrev pub query_retries : ℕ
query_retries = 3

abbrev pub max_unreadable_polls : ℕ
max_unreadable_polls = 10

-- One attempt: what law's `query` comes to, and the state of the task that the message of an error names.
pub record Attempt : Type 0 where
  pub parsed : Parsed
  pub named_state : String

-- What `query` comes to: a result, or the exception after too many unreadable polls.
pub data Answer : Type 0 where
  gives : PollResult → Answer
  unreadable_for : ℕ → Answer

-- The end of a round that could be read.
unfoldable pub take_in : Manager → ℕ → String → PollResult → Manager × Answer
take_in m now proj result =
    let heard = record m {
      unreadable = pop m.unreadable proj;
      unscheduled = pop m.unscheduled proj;
    } in
    let (rescued, result') = apply_watchdog heard result now in
    ((report_failures (harvest rescued now proj result') result').0, gives result')

-- Behind the loop: no attempt could be read.
unfoldable pub give_up : Manager → String → List JobId → Manager × Answer
give_up m proj ids =
    let n = get_or m.unreadable proj 0 + 1 in
    let m' = record m { unreadable = put m.unreadable proj n } in
    if ltb max_unreadable_polls n then (m', unreadable_for n) else (m', gives (all_pending ids))

abbrev answered : Manager × PollResult → Manager × Answer
answered r = (r.0, gives r.1)

-- What the body of the loop makes of an attempt, and `next` of those behind it. `names_terminal` says that
-- the message of an error names a state of a task that will never run.
unfoldable pub answer_to :
    ℕ → String → String → List JobId → Manager → Parsed → Bool → Manager × Answer → Manager × Answer
answer_to now proj text ids m (jobs result) names_terminal next = take_in m now proj result
answer_to now proj text ids m (refused warnings) names_terminal next =
    answered (on_refused m proj text ids)
answer_to now proj text ids m not_scheduled names_terminal next =
    answered (not_scheduled_yet m proj ids)
answer_to now proj text ids m (submit_failed failure result) names_terminal next =
    take_in (on_submit_failed m proj failure) now proj result
answer_to now proj text ids m unreadable_response names_terminal next =
    if names_terminal then answered (on_refused m proj text ids) else next

-- The loop, over what its attempts come to; `text` is the error that a refusal reports.
unfoldable pub query : ℕ → String → String → List JobId → Manager → List Attempt → Manager × Answer
query now proj text ids m [] = give_up m proj ids
query now proj text ids m (a ∷ attempts) =
    let next = query now proj text ids m attempts in
    answer_to now proj text ids m a.parsed (elem a.named_state terminal_states) next

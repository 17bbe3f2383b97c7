-- ===== src/Polling/Callback.antt =====
-- dsprod/crab.py: `crab_poll_callback`, which law's poll loop calls after each round of queries, and
-- `timed_call_wrapper` of dsprod/tools.py, with which it spaces what it does.
--
-- Times are whole seconds. The clock may go back between two calls. `update_kerberos_ticket` never
-- raises and touches nothing that is modelled: its calls are counted.
use dsprod.Common.{
  ℕ, ◌+◌, Bool, true, List, [], ◌∷◌, Option, none, some, leb, nat_beq, if◌then◌else◌,
}
use dsprod.Watchdog.Config.{Config, interval_seconds}
use dsprod.Watchdog.Types.{FileInfo, JobEntry, StallWatchdog, start}
use dsprod.Watchdog.Listing.{refresh, set_jobs}
use dsprod.Watchdog.Budget.{Poll, polls}
use dsprod.Polling.Types.{StopReason}

-- What `timed_call_wrapper` closes over.
pub record Timer : Type 0 where
  pub update_interval : ℕ
  pub last_update : Option ℕ

abbrev pub timed_call_wrapper : ℕ → Timer
timed_call_wrapper interval = record { update_interval = interval; last_update = none }

-- `delta_t >= update_interval`; the first call is infinitely late.
unfoldable pub is_due : Timer → ℕ → Bool
is_due t now = elim t.last_update [ none ↦ true | some last ↦ leb (last + t.update_interval) now ]

-- `update`, for a call that does not raise.
unfoldable pub timed_call {ℓ} : {S : Type ℓ} → (S → S) → Timer → ℕ → S → Timer × S
timed_call fn t now s = if is_due t now then (record t { last_update = some now }, fn s) else (t, s)

-- What the workflow keeps for its callback. `stop_reason` is the job manager's; `kerberos` is
-- `_crab_kerberos_update`, whose inner `none` is the function that does nothing; `renewals` counts the
-- calls of `update_kerberos_ticket`.
pub record Workflow : Type 0 where
  pub stop_reason : Option StopReason
  pub krenew_seconds : ℕ
  pub kerberos : Option (Option Timer)
  pub renewals : ℕ
  pub watchdog : StallWatchdog
  pub watchdog_refresh : Option Timer

abbrev pub new_workflow : Config → ℕ → Workflow
new_workflow cfg krenew_seconds = record {
  stop_reason = none;
  krenew_seconds = krenew_seconds;
  kerberos = none;
  renewals = 0;
  watchdog = start cfg;
  watchdog_refresh = none;
}

-- What a call finds: the clock, law's job data and what the listing of the flags would come to.
pub record Moment : Type 0 where
  pub now : ℕ
  pub jobs : Option (List (ℕ × JobEntry))
  pub clock : ℕ
  pub entries : Option (List FileInfo)

-- The wrapper for the ticket, built by the first call.
abbrev pub kerberos_update : Workflow → Option Timer
kerberos_update f = elim f.kerberos [
  | some built ↦ built
  | none ↦ if nat_beq f.krenew_seconds 0 then none else some (timed_call_wrapper f.krenew_seconds)
]

abbrev pub renew : Workflow → Option Timer → ℕ → Workflow
renew f none now = record f { kerberos = some none }
renew f (some t) now =
    let (t', n) = timed_call (λ n. n + 1) t now f.renewals in
    record f { kerberos = some (some t'); renewals = n }

-- The wrapper for the watchdog's listing, built by the first call that finds it enabled.
abbrev pub refresh_timer : Workflow → Option Timer
refresh_timer f = elim f.watchdog_refresh [
  | some t ↦ some t
  | none ↦
      if f.watchdog.cfg.enabled
      then some (timed_call_wrapper (interval_seconds f.watchdog.cfg))
      else none
]

abbrev pub with_jobs : StallWatchdog → Option (List (ℕ × JobEntry)) → StallWatchdog
with_jobs w none = w
with_jobs w (some jobs) = set_jobs w jobs

unfoldable pub list_flags : Workflow → Option Timer → Moment → Workflow
list_flags f none m = record f { watchdog_refresh = none }
list_flags f (some t) m =
    let (t', w) =
      timed_call (λ w. (refresh w none m.clock m.entries).0) t m.now
        (with_jobs f.watchdog m.jobs) in
    record f { watchdog = w; watchdog_refresh = some t' }

-- `crab_poll_callback`: the error that ends the run, or the workflow that goes on.
pub data Called : Type 0 where
  stops : StopReason → Called
  goes_on : Workflow → Called

unfoldable pub crab_poll_callback : Workflow → Moment → Called
unfolding list_flags
crab_poll_callback f m = elim f.stop_reason [
  | some reason ↦ stops reason
  | none ↦ let g = renew f (kerberos_update f) m.now in goes_on (list_flags g (refresh_timer g) m)
]

-- A round of law's poll loop: the queries, after which the manager may have a reason to stop, and the
-- callback.
pub record Round : Type 0 where
  pub queries : List Poll
  pub reason : Option StopReason
  pub moment : Moment

unfoldable pub queried : Workflow → Round → Workflow × ℕ
queried f r =
    let (w, n) = polls f.watchdog r.queries in
    (record f { watchdog = w; stop_reason = r.reason }, n)

-- How many jobs a run of rounds fails. The error of a callback ends it.
unfoldable pub poll_loop : Workflow → List Round → ℕ
unfolding queried crab_poll_callback
poll_loop f [] = 0
poll_loop f (r ∷ rs) =
    let (g, n) = queried f r in
    let rest : Workflow → ℕ = λ h. poll_loop h rs in
    n + elim (crab_poll_callback g r.moment) [ stops reason ↦ 0 | goes_on h ↦ rest h ]

-- ===== src/Polling/Rescued.antt =====
-- dsprod/crab.py: what `_apply_watchdog` does to the statuses of a poll.
use dsprod.Common.{
  ℕ, ◌≡◌, refl, sym, ◌∙◌, ap, inl, inr, Bool, true, false, [], ◌∷◌, Option, none, some, ◌==◌,
  eq_of_==, if◌then◌else◌, Bool-cases, nat_eq, string_eq,
}
use dsprod.Common.Dict.{get, get-put}
use dsprod.Jobs.{JobId, JobData, is_running, job_id_eq}
use dsprod.Watchdog.Types.{StallWatchdog, Reason}
use dsprod.Watchdog.Operations.{Verdicts, verdicts}
use dsprod.Polling.Types.{Manager, PollResult}
use dsprod.Polling.Rescue.{failed_by, rescue_job, rescue, apply_to}

-- What a verdict, if there is one, makes of what a status says of a job.
abbrev pub under_verdict : Option Reason → Option (Option JobData) → Option (Option JobData)
under_verdict none o = o
under_verdict (some reason) none = none
under_verdict (some reason) (some none) = some none
under_verdict (some reason) (some (some d)) =
    if is_running d.status then some (some (failed_by reason d)) else some (some d)

-- A verdict that does nothing to what is known of its job.
unmoved :
    (result : PollResult) (id : JobId) (reason : Reason) (o : Option (Option JobData)) (j : JobId)
    → under_verdict (some reason) o ≡ o
    → get result id ≡ o
    → get result j ≡ (if id == j then under_verdict (some reason) (get result j) else get result j)
unmoved result id reason o j still e = elim (Bool-cases (id == j)) [
  | inr other ↦ rw other refl
  | inl same ↦
      let there : get result j ≡ o = ap (get result) (sym (eq_of_== id j same)) ∙ e in
      rw same (sym (ap (under_verdict (some reason)) there ∙ still ∙ sym there))
]

rescue_job-at :
    (m : Manager) (result : PollResult) (clock : ℕ) (id : JobId) (reason : Reason)
    (o : Option (Option JobData)) (j : JobId)
    → get result id ≡ o
    → get (rescue_job m result clock id reason o).1 j
      ≡ (if id == j then under_verdict (some reason) (get result j) else get result j)
unfolding rescue_job
rescue_job-at m result clock id reason none j e = unmoved result id reason none j refl e
rescue_job-at m result clock id reason (some none) j e =
    unmoved result id reason (some none) j refl e
rescue_job-at m result clock id reason (some (some d)) j e =
    elim (Bool-cases (is_running d.status)) [
      | inr idle ↦ rw idle (unmoved result id reason (some (some d)) j (rw idle refl) e)
      | inl runs ↦ rw runs (
          get-put result id j (some (failed_by reason d)) ∙ (elim (Bool-cases (id == j)) [
            | inr other ↦ rw other refl
            | inl same ↦
                let there : get result j ≡ some (some d) =
                  ap (get result) (sym (eq_of_== id j same)) ∙ e in
                rw same (sym (ap (under_verdict (some reason)) there ∙ rw runs refl))
          ]))
    ]

-- A second verdict does nothing to a job that failed by the first one.
under_verdicts :
    (other : Option Reason) (reason : Reason) (o : Option (Option JobData))
    → under_verdict other (under_verdict (some reason) o) ≡ under_verdict (some reason) o
under_verdicts none reason o = refl
under_verdicts (some other) reason none = refl
under_verdicts (some other) reason (some none) = refl
under_verdicts (some other) reason (some (some d)) = elim (Bool-cases (is_running d.status)) [
  | inl runs ↦ rw runs refl
  | inr idle ↦ rw (idle, idle) refl
]

rescue-at :
    (m : Manager) (result : PollResult) (clock : ℕ) (vs : Verdicts) (j : JobId)
    → get (rescue m result clock vs).1 j ≡ under_verdict (get vs j) (get result j)
unfolding rescue
rescue-at m result clock [] j = refl
rescue-at m result clock ((id, reason) ∷ vs) j =
    let after = rescue_job m result clock id reason (get result id) in
    let once = rescue_job-at m result clock id reason (get result id) j refl in
    let rest = rescue-at after.0 after.1 clock vs j in
    elim (Bool-cases (id == j)) [
      | inl same ↦ rw same (
          rest
          ∙ ap (under_verdict (get vs j)) (rw same at once)
          ∙ under_verdicts (get vs j) reason (get result j))
      | inr other ↦ rw other (rest ∙ ap (under_verdict (get vs j)) (rw other at once))
    ]

apply_to_lem :
    (m : Manager) (result : PollResult) (clock : ℕ) (w : StallWatchdog) (b : Bool)
    → w.cfg.enabled ≡ b
    → apply_to m result clock (some w) ≡ (
        if b
        then rescue
            (record m { watchdog = some (verdicts w result none clock).0 })
            result
            clock
            (verdicts w result none clock).1
        else (m, result))
unfolding apply_to
apply_to_lem m result clock w b e =
    ap
      (λ (on : Bool).
        if on
        then rescue (record m { watchdog = some (verdicts w result none clock).0 }) result clock
            (verdicts w result none clock).1
        else (m, result))
      e

result_at :
    (m : Manager) (result : PollResult) (clock : ℕ) (w : StallWatchdog) (j : JobId) (b : Bool)
    → w.cfg.enabled ≡ b
    → get (apply_to m result clock (some w)).1 j ≡ (
        if b
        then under_verdict (get (verdicts w result none clock).1 j) (get result j)
        else get result j)
result_at m result clock w j true on =
    ap (λ (r : Manager × PollResult). get r.1 j) (apply_to_lem m result clock w true on)
    ∙ rescue-at (record m { watchdog = some (verdicts w result none clock).0 }) result clock
        (verdicts w result none clock).1 j
result_at m result clock w j false off =
    ap (λ (r : Manager × PollResult). get r.1 j) (apply_to_lem m result clock w false off)

-- The watchdog leaves the status of every job as it is, except that of a job that it condemns and
-- that the status reports running: this one becomes failed, without a code, and with the age of
-- its flag as the error. A watchdog that is off changes no status.
pub apply_to-result :
    (m : Manager) (result : PollResult) (clock : ℕ) (w : StallWatchdog) (j : JobId)
    → get (apply_to m result clock (some w)).1 j ≡ (
        if w.cfg.enabled
        then under_verdict (get (verdicts w result none clock).1 j) (get result j)
        else get result j)
apply_to-result m result clock w j = result_at m result clock w j w.cfg.enabled refl

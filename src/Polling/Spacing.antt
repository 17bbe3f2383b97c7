-- ===== src/Polling/Spacing.antt =====
-- dsprod/crab.py: how many jobs the watchdog may fail in the whole of a run, as `crab_poll_callback`
-- spaces its listings.
use dsprod.Common.{
  ℕ, ◌+◌, ◌*◌, ◌-◌, ◌≤◌, ◌≡◌, refl, ◌∙◌, ap, subst, Bool, true, false, List, [], ◌∷◌, Option, none,
  some, arith, All, Bool-cases, Option-cases, inl, inr, if◌then◌else◌,
}
use dsprod.Watchdog.Config.{Config, interval_seconds}
use dsprod.Watchdog.Types.{StallWatchdog, JobEntry, start}
use dsprod.Watchdog.Listing.{refresh, set_jobs}
use dsprod.Watchdog.Budget.{polls-Spends}
use dsprod.Polling.Spending.{Spent, last_of, Spent-polls, Spent-listing, due_at, Spent-total}
use dsprod.Polling.Callback.{
  Timer, timed_call_wrapper, is_due, timed_call, Workflow, Moment, Round, new_workflow, list_flags,
  with_jobs, crab_poll_callback, queried, poll_loop, refresh_timer, renew, kerberos_update,
}

Timed : ℕ → Option Timer → Type 0
Timed interval none = Unit
Timed interval (some t) = t.update_interval ≡ interval

-- Where a workflow stands, after `failed` failures.
record Budget (begin end : ℕ) (cfg : Config) (f : Workflow) (failed : ℕ) : Type 0 where
  cfg_same : f.watchdog.cfg ≡ cfg
  capped : f.watchdog.issued_this_interval ≤ cfg.max_per_interval
  timed : Timed (interval_seconds cfg) f.watchdog_refresh
  spent :
      Spent begin end cfg.max_per_interval
        (interval_seconds cfg)
        (last_of f.watchdog_refresh)
        f.watchdog.issued_this_interval
        failed

Budget-queried :
    (begin end : ℕ) (cfg : Config) (f : Workflow) (r : Round) (failed : ℕ)
    → Budget begin end cfg f failed
    → Budget begin end cfg (queried f r).0 (failed + (queried f r).1)
unfolding queried
Budget-queried begin end cfg f r failed b =
    let limit = ap (λ (c : Config). c.max_per_interval) b.cfg_same in
    let s = polls-Spends f.watchdog r.queries (omega (arith, b.capped, limit)) in
    record {
      cfg_same = s.cfg ∙ b.cfg_same;
      capped = omega (arith, s.capped, limit);
      timed = b.timed;
      spent =
          Spent-polls begin end cfg.max_per_interval (interval_seconds cfg)
            (last_of f.watchdog_refresh) _ _ failed _ b.spent s.counted;
    }

-- What a listing, or a new table of the jobs, does not change.
record Keeps (w w' : StallWatchdog) : Type 0 where
  cfg : w'.cfg ≡ w.cfg
  issued : w'.issued_this_interval ≤ w.issued_this_interval

with_jobs-Keeps :
    (w : StallWatchdog) (jobs : Option (List (ℕ × JobEntry))) → Keeps w (with_jobs w jobs)
unfolding set_jobs
with_jobs-Keeps w none = record { cfg = refl; issued = omega arith }
with_jobs-Keeps w (some jobs) = record { cfg = refl; issued = omega arith }

with_jobs-issued :
    (w : StallWatchdog) (jobs : Option (List (ℕ × JobEntry)))
    → w.issued_this_interval ≡ (with_jobs w jobs).issued_this_interval
unfolding set_jobs
with_jobs-issued w none = refl
with_jobs-issued w (some jobs) = refl

refresh-Keeps :
    (v w : StallWatchdog) (m : Moment) → Keeps v w → Keeps v (refresh w none m.clock m.entries).0
unfolding refresh
refresh-Keeps v w m k = elim (Option-cases m.entries) [
  | inl failed ↦ rw failed (ground (arith, k.cfg, k.issued))
  | inr (es, read) ↦ rw read (ground (arith, k.cfg, k.issued))
]

Budget-list_flags :
    (begin end : ℕ) (cfg : Config) (f : Workflow) (t : Option Timer) (m : Moment) (failed : ℕ)
    → Budget begin end cfg (record f { watchdog_refresh = t }) failed
    → begin ≤ m.now
    → m.now ≤ end
    → Budget begin end cfg (list_flags f t m) failed
unfolding list_flags timed_call Timed last_of
Budget-list_flags begin end cfg f none m failed b after before = b
Budget-list_flags begin end cfg f (some t) m failed b after before =
    let known = with_jobs-Keeps f.watchdog m.jobs in
    let k = refresh-Keeps f.watchdog (with_jobs f.watchdog m.jobs) m known in
    elim (Bool-cases (is_due t m.now)) [
      | inl due ↦ rw due (record {
        cfg_same = k.cfg ∙ b.cfg_same;
        capped = omega (arith, k.issued, b.capped);
        timed = b.timed;
        spent =
            Spent-listing begin end cfg.max_per_interval (interval_seconds cfg) m.now t.last_update
              f.watchdog.issued_this_interval _ failed b.spent b.capped after before
              (due_at t (interval_seconds cfg) m.now b.timed due);
      })
      | inr early ↦ rw early (record {
        cfg_same = known.cfg ∙ b.cfg_same;
        capped = omega (arith, known.issued, b.capped);
        timed = b.timed;
        spent =
            subst
              (λ i.
                Spent begin end cfg.max_per_interval (interval_seconds cfg) t.last_update i failed)
              (with_jobs-issued f.watchdog m.jobs) b.spent;
      })
    ]

refresh_timer-Budget :
    (begin end : ℕ) (cfg : Config) (f : Workflow) (t : Option Timer) (failed : ℕ)
    → let g = record f { watchdog_refresh = t } in
      Budget begin end cfg g failed
      → Budget begin end cfg (record f { watchdog_refresh = refresh_timer g }) failed
unfolding Timed last_of
refresh_timer-Budget begin end cfg f none failed b =
    let at : Bool → Option Timer = λ enabled.
      if enabled then some (timed_call_wrapper (interval_seconds f.watchdog.cfg)) else none in
    elim f.watchdog.cfg.enabled
      as (λ e. Budget begin end cfg (record f { watchdog_refresh = at e }) failed) [
        | true ↦ record {
          cfg_same = b.cfg_same;
          capped = b.capped;
          timed = ap interval_seconds b.cfg_same;
          spent = b.spent;
        }
        | false ↦ b
      ]
refresh_timer-Budget begin end cfg f (some t) failed b = b

renew-Budget :
    (begin end : ℕ) (cfg : Config) (f : Workflow) (t : Option Timer) (now failed : ℕ)
    → Budget begin end cfg f failed
    → Budget begin end cfg (renew f t now) failed
unfolding timed_call
renew-Budget begin end cfg f none now failed b = record {
  cfg_same = b.cfg_same;
  capped = b.capped;
  timed = b.timed;
  spent = b.spent;
}
renew-Budget begin end cfg f (some t) now failed b = record {
  cfg_same = b.cfg_same;
  capped = b.capped;
  timed = b.timed;
  spent = b.spent;
}

called-Budget :
    (begin end : ℕ) (cfg : Config) (f : Workflow) (m : Moment) (failed : ℕ)
    → Budget begin end cfg f failed
    → begin ≤ m.now
    → m.now ≤ end
    → let g = renew f (kerberos_update f) m.now in
      Budget begin end cfg (list_flags g (refresh_timer g) m) failed
called-Budget begin end cfg f m failed b after before =
    let g = renew f (kerberos_update f) m.now in
    Budget-list_flags begin end cfg g (refresh_timer g) m failed
      (refresh_timer-Budget begin end cfg g g.watchdog_refresh failed
        (renew-Budget begin end cfg f (kerberos_update f) m.now failed b))
      after before

-- The callback of a round comes in the time of the run.
abbrev pub InTime : ℕ → ℕ → Round → Type 0
InTime begin end r = (begin ≤ r.moment.now) × (r.moment.now ≤ end)

-- What the rounds fail from here on.
poll_loop-Budget :
    (begin end : ℕ) (cfg : Config) (f : Workflow) (rs : List Round) (failed : ℕ)
    → Budget begin end cfg f failed
    → begin ≤ end
    → All (InTime begin end) rs
    → (failed + poll_loop f rs) * interval_seconds cfg
      ≤ cfg.max_per_interval * ((end - begin) + 2 * interval_seconds cfg)
unfolding poll_loop crab_poll_callback queried
poll_loop-Budget begin end cfg f [] failed b h within =
    ground (arith, Spent-total begin end _ _ _ _ failed b.spent b.capped h)
poll_loop-Budget begin end cfg f (r ∷ rs) failed b h (at, within) =
    let g = (queried f r).0 in
    let n = (queried f r).1 in
    let asked = Budget-queried begin end cfg f r failed b in
    elim (Option-cases r.reason) [
      | inl none_yet ↦
          let goes = called-Budget begin end cfg g r.moment (failed + n) asked at.0 at.1 in
          let f' = renew g (kerberos_update g) r.moment.now in
          let ih =
            poll_loop-Budget begin end cfg (list_flags f' (refresh_timer f') r.moment) rs
              (failed + n) goes h within in
          rw none_yet (omega (arith, ih))
      | inr (reason, stop) ↦
          rw stop
            (omega (arith, Spent-total begin end _ _ _ _ (failed + n) asked.spent asked.capped h))
    ]

-- The watchdog of a run fails at most `max_per_interval` jobs for every interval of the run, and
-- twice as many more, whatever the listings and the queries report: if every callback comes
-- between `begin` and `end`. The clock may go back, and a reason to stop may end the run.
pub poll_loop-within :
    (cfg : Config) (krenew_seconds begin end : ℕ) (rs : List Round)
    → begin ≤ end
    → All (InTime begin end) rs
    → poll_loop (new_workflow cfg krenew_seconds) rs * interval_seconds cfg
      ≤ cfg.max_per_interval * ((end - begin) + 2 * interval_seconds cfg)
unfolding Spent last_of Timed start
poll_loop-within cfg krenew_seconds begin end rs h within =
    let total =
      poll_loop-Budget begin end cfg (new_workflow cfg krenew_seconds) rs 0
        (record { cfg_same = refl; capped = omega arith; timed = tt; spent = omega arith }) h
        within in
    omega (arith, total)

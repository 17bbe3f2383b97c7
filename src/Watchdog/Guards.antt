-- ===== src/Watchdog/Guards.antt =====
-- dsprod/watchdog.py: when no verdict is issued at all.
use dsprod.Common.{
  ℕ, ◌≤◌, ◌<◌, ◌≡◌, ◌≢◌, ◌⊎◌, refl, ◌∙◌, true, false, ◌&&◌, is_some, List, [], ◌∷◌, Option, none,
  arith, leb, or_else, sort, Bool-cases, inl, inr, length,
}
use dsprod.Common.Dict.{Dict}
use dsprod.Common.Ratio.{floor_times}
use dsprod.Jobs.{JobId, JobData}
use dsprod.Watchdog.Types.{StallWatchdog}
use dsprod.Watchdog.Listing.{refresh}
use dsprod.Watchdog.Operations.{
  Stale, Scan, scan, Verdicts, issue_one, issue, decide, verdicts, by_job_num, is_storage_fault,
  min_running_for_fault_guard,
}
use dsprod.Watchdog.Budget.{scan-Unspent}
use dsprod.Watchdog.Verdicts.{listing_time, issue_one-cfg}

issue_one_dry :
    (w : StallWatchdog) (out : Verdicts) (st : Stale)
    → w.cfg.dry_run ≡ true
    → (issue_one w out st).1 ≡ out
unfolding issue_one
issue_one_dry w out st dry = ground arith

issue_dry :
    (w : StallWatchdog) (out : Verdicts) (sts : List Stale)
    → w.cfg.dry_run ≡ true
    → (issue w out sts).1 ≡ out
unfolding issue
issue_dry w out [] dry = refl
issue_dry w out (st ∷ sts) dry =
    elim (Bool-cases (leb w.cfg.max_per_interval w.issued_this_interval)) [
      | inl full ↦ rw full
      | inr room ↦ rw room (
          issue_dry (issue_one w out st).0 (issue_one w out st).1 sts
            (rw (issue_one-cfg w out st) dry)
          ∙ issue_one_dry w out st dry)
    ]

decide_dry : (c : Scan) → c.watchdog.cfg.dry_run ≡ true → (decide c).1 ≡ []
unfolding decide
decide_dry c dry = ground (arith, issue_dry c.watchdog [] (sort by_job_num c.stale) dry)

decide_fault :
    (c : Scan)
    → is_storage_fault c.watchdog.cfg (length c.running) (length c.stale) ≡ true
    → (decide c).1 ≡ []
unfolding decide
decide_fault c fault = ground arith

decide-guards :
    (c : Scan)
    → (decide c).1 ≢ []
    → (c.watchdog.cfg.dry_run ≡ false)
      × ((length c.running < min_running_for_fault_guard)
          ⊎ (length c.stale ≤ floor_times c.watchdog.cfg.max_stale_fraction (length c.running)))
decide-guards c failed = ground (arith, decide_dry c, decide_fault c)

-- The lists that the first loop of `verdicts` leaves.
abbrev pub scanned : StallWatchdog → Dict JobId (Option JobData) → Option ℕ → ℕ → Scan
scanned w result now clock =
    scan (record { watchdog = w; running = []; stale = [] }) (listing_time w now clock)
      (or_else now clock) result

-- A poll that fails any job had a listing, was no dry run of an enabled watchdog, and found fewer
-- than ten jobs running or at most the tolerated fraction of them stale.
pub verdicts-guards :
    (w : StallWatchdog) (result : Dict JobId (Option JobData)) (now : Option ℕ) (clock : ℕ)
    → (verdicts w result now clock).1 ≢ []
    → (w.cfg.enabled ≡ true)
      × (is_some w.ages ≡ true)
      × (w.cfg.dry_run ≡ false)
      × ((length (scanned w result now clock).running < min_running_for_fault_guard)
          ⊎ (length (scanned w result now clock).stale
              ≤ floor_times w.cfg.max_stale_fraction (length (scanned w result now clock).running)))
unfolding verdicts
verdicts-guards w result now clock failed =
    let c = scanned w result now clock in
    let start : Scan = record { watchdog = w; running = []; stale = [] } in
    let same = (scan-Unspent start (listing_time w now clock) (or_else now clock) result).cfg in
    elim (Bool-cases (w.cfg.enabled && w.listed && is_some w.ages)) [
      | inl on ↦
          let (real, quorum) = decide-guards c (rw on at failed) in
          (ground arith, ground arith, rw same at real, rw same at quorum)
      | inr off ↦ absurd ((rw off at failed) refl)
    ]

-- Right after a listing that failed, a poll of an enabled watchdog fails no job and changes
-- nothing.
pub refresh-verdicts_blind :
    (w : StallWatchdog) (now now' : Option ℕ) (clock clock' : ℕ)
    (result : Dict JobId (Option JobData))
    → w.cfg.enabled ≡ true
    → let w' = (refresh w now clock none).0 in verdicts w' result now' clock' ≡ (w', [])
unfolding refresh verdicts
refresh-verdicts_blind w now now' clock clock' result on = simp on

-- ===== src/Watchdog/Budget.antt =====
-- dsprod/watchdog.py: how many jobs the watchdog may fail, in an interval and for a branch.
use dsprod.Common.{
  ℕ, ◌+◌, ◌≤◌, ◌<◌, ◌≡◌, refl, ◌∙◌, ap, true, ◌&&◌, is_some, List, [], ◌∷◌, Option, some, none,
  arith, leb, or_else, length, sort, Bool-cases, Option-cases, inl, inr, nat_eq,
}
use dsprod.Common.Dict.{Dict, get, length-put-le}
use dsprod.Jobs.{JobId, JobData, key, job_id_eq, key_eq}
use dsprod.Watchdog.Config.{Config}
use dsprod.Watchdog.Types.{FileInfo, Known, StallWatchdog}
use dsprod.Watchdog.Listing.{refresh, publish}
use dsprod.Watchdog.Operations.{
  Stale, Scan, judge_age, scan_known, scan_job, scan, reason_for, Verdicts, issue_one, issue,
  decide, verdicts, by_job_num,
}

-- What the first loop of `verdicts` leaves alone.
pub record Unspent (w w' : StallWatchdog) : Type 0 where
  pub cfg : w'.cfg ≡ w.cfg
  pub ages : w'.ages ≡ w.ages
  pub by_id : w'.by_id ≡ w.by_id
  pub per_branch : w'.per_branch ≡ w.per_branch
  pub issued : w'.issued_this_interval ≡ w.issued_this_interval

Unspent-trans : {u v w : StallWatchdog} → Unspent u v → Unspent v w → Unspent u w
Unspent-trans p q = record {
  cfg = q.cfg ∙ p.cfg;
  ages = q.ages ∙ p.ages;
  by_id = q.by_id ∙ p.by_id;
  per_branch = q.per_branch ∙ p.per_branch;
  issued = q.issued ∙ p.issued;
}

pub scan_known-Unspent :
    (c : Scan) (now seen : ℕ) (id : JobId) (known : Known)
    → Unspent c.watchdog (scan_known c now seen id known).watchdog
unfolding scan_known judge_age
scan_known-Unspent c now seen id known = ground arith

scan_job-Unspent :
    (c : Scan) (now seen : ℕ) (id : JobId) (d : Option JobData)
    → Unspent c.watchdog (scan_job c now seen id d).watchdog
unfolding scan_job
scan_job-Unspent c now seen id d = elim (Option-cases (get c.watchdog.by_id (key id))) [
  | inl unknown ↦ ground arith
  | inr (known, found) ↦ ground (arith, scan_known-Unspent c now seen id known)
]

pub scan-Unspent :
    (c : Scan) (now seen : ℕ) (result : Dict JobId (Option JobData))
    → Unspent c.watchdog (scan c now seen result).watchdog
unfolding scan
scan-Unspent c now seen [] = record {
  cfg = refl;
  ages = refl;
  by_id = refl;
  per_branch = refl;
  issued = refl;
}
scan-Unspent c now seen ((id, d) ∷ result) =
    Unspent-trans (scan_job-Unspent c now seen id d)
      (scan-Unspent (scan_job c now seen id d) now seen result)

-- What the second loop keeps: each new verdict is counted, and the count stays within the cap.
record Counted (w : StallWatchdog) (out : Verdicts) (w' : StallWatchdog) (out' : Verdicts)
    : Type 0 where
  cfg : w'.cfg ≡ w.cfg
  counted : length out' + w.issued_this_interval ≤ length out + w'.issued_this_interval
  capped :
      w.issued_this_interval ≤ w.cfg.max_per_interval
      → w'.issued_this_interval ≤ w.cfg.max_per_interval

issue_one-Counted :
    (w : StallWatchdog) (out : Verdicts) (st : Stale)
    → w.issued_this_interval < w.cfg.max_per_interval
    → Counted w out (issue_one w out st).0 (issue_one w out st).1
unfolding issue_one
issue_one-Counted w out st h = ground (arith, length-put-le out st.job_id (reason_for w.cfg st))

Counted-trans :
    (u v w : StallWatchdog) (o p q : Verdicts) → Counted u o v p → Counted v p w q → Counted u o w q
Counted-trans u v w o p q a b = record {
  cfg = b.cfg ∙ a.cfg;
  counted = omega (arith, a.counted, b.counted);
  capped = λ h. ground (arith, ap (λ (c : Config). c.max_per_interval) a.cfg);
}

issue-Counted :
    (w : StallWatchdog) (out : Verdicts) (sts : List Stale)
    → Counted w out (issue w out sts).0 (issue w out sts).1
unfolding issue publish
issue-Counted w out [] = ground arith
issue-Counted w out (st ∷ sts) =
    elim (Bool-cases (leb w.cfg.max_per_interval w.issued_this_interval)) [
      | inl full ↦ rw full (ground arith)
      | inr room ↦
          let w' = (issue_one w out st).0 in
          let out' = (issue_one w out st).1 in
          rw room (
            Counted-trans w w' (issue w' out' sts).0 out out' (issue w' out' sts).1
              (issue_one-Counted w out st (ground arith)) (issue-Counted w' out' sts))
    ]

decide-Counted : (c : Scan) → Counted c.watchdog [] (decide c).0 (decide c).1
unfolding decide publish
decide-Counted c = ground (arith, issue-Counted c.watchdog [] (sort by_job_num c.stale))

verdicts-Counted :
    (w : StallWatchdog) (result : Dict JobId (Option JobData)) (now : Option ℕ) (clock : ℕ)
    → Counted w [] (verdicts w result now clock).0 (verdicts w result now clock).1
unfolding verdicts
verdicts-Counted w result now clock =
    let seen = or_else now clock in
    let at = or_else now (or_else w.listed_at seen) in
    let c = scan (record { watchdog = w; running = []; stale = [] }) at seen result in
    let same = scan-Unspent (record { watchdog = w; running = []; stale = [] }) at seen result in
    let counted = decide-Counted c in
    elim (Bool-cases (w.cfg.enabled && w.listed && is_some w.ages)) [
      | inl on ↦ rw on (record {
        cfg = counted.cfg ∙ same.cfg;
        counted = omega (arith, counted.counted, same.issued);
        capped = λ h.
            ground (
              arith,
              ap (λ (f : Config). f.max_per_interval) same.cfg,
              same.issued,
              counted.capped,
            );
      })
      | inr off ↦ rw off (ground arith)
    ]

-- One call of `verdicts`.
pub record Poll : Type 0 where
  pub result : Dict JobId (Option JobData)
  pub now : Option ℕ
  pub clock : ℕ

-- The calls between two listings, and how many jobs they fail together.
unfoldable pub polls : StallWatchdog → List Poll → StallWatchdog × ℕ
polls w [] = (w, 0)
polls w (p ∷ ps) =
    let (w', out) = verdicts w p.result p.now p.clock in
    let (w'', n) = polls w' ps in (w'', length out + n)

polls-Counted :
    (w : StallWatchdog) (ps : List Poll)
    → w.issued_this_interval ≤ w.cfg.max_per_interval
    → (polls w ps).1 + w.issued_this_interval ≤ w.cfg.max_per_interval
unfolding polls
polls-Counted w [] h = omega arith
polls-Counted w (p ∷ ps) h =
    let once = verdicts-Counted w p.result p.now p.clock in
    let w' = (verdicts w p.result p.now p.clock).0 in
    ground (
      arith,
      once.counted,
      once.capped,
      ap (λ (f : Config). f.max_per_interval) once.cfg,
      polls-Counted w' ps,
    )

-- What polls leave of the budget of an interval.
pub record Spends (w w' : StallWatchdog) (n : ℕ) : Type 0 where
  pub cfg : w'.cfg ≡ w.cfg
  pub counted : n + w.issued_this_interval ≤ w'.issued_this_interval
  pub capped : w'.issued_this_interval ≤ w.cfg.max_per_interval

pub polls-Spends :
    (w : StallWatchdog) (ps : List Poll)
    → w.issued_this_interval ≤ w.cfg.max_per_interval
    → Spends w (polls w ps).0 (polls w ps).1
unfolding polls
polls-Spends w [] h = record { cfg = refl; counted = omega arith; capped = h }
polls-Spends w (p ∷ ps) h =
    let once = verdicts-Counted w p.result p.now p.clock in
    let w' = (verdicts w p.result p.now p.clock).0 in
    let same = ap (λ (f : Config). f.max_per_interval) once.cfg in
    let capped = once.capped h in
    let rest = polls-Spends w' ps (omega (arith, capped, same)) in
    record {
      cfg = rest.cfg ∙ once.cfg;
      counted = omega (arith, once.counted, rest.counted);
      capped = omega (arith, rest.capped, same);
    }

refresh_resets :
    (w : StallWatchdog) (now : Option ℕ) (clock : ℕ) (entries : Option (List FileInfo))
    → w.cfg.enabled ≡ true
    → ((refresh w now clock entries).0.issued_this_interval ≡ 0)
      × ((refresh w now clock entries).0.cfg ≡ w.cfg)
unfolding refresh
refresh_resets w now clock none on = ground arith
refresh_resets w now clock (some es) on = ground arith

-- Between one listing and the next, no sequence of polls fails more jobs than `max_per_interval`,
-- whatever the listing and the polls report, if the watchdog is enabled.
pub refresh-polls-le :
    (w : StallWatchdog) (now : Option ℕ) (clock : ℕ) (entries : Option (List FileInfo))
    (ps : List Poll)
    → w.cfg.enabled ≡ true
    → (polls (refresh w now clock entries).0 ps).1 ≤ w.cfg.max_per_interval
refresh-polls-le w now clock entries ps on =
    let (zeroed, same) = refresh_resets w now clock entries on in
    ground (
      arith,
      ap (λ (f : Config). f.max_per_interval) same,
      polls-Counted (refresh w now clock entries).0 ps,
    )

-- ===== src/Watchdog/Freshness.antt =====
-- dsprod/watchdog.py: a job whose flag still moves is not failed.
use dsprod.Common.{
  ℕ, ◌+◌, ◌-◌, ◌≤◌, ◌<◌, ◌≡◌, ◌∙◌, true, false, List, [], ◌∷◌, Option, some, none, String, arith,
  leb, le→leb, or_else, elem, Bool-cases, inl, inr, nat_eq, string_eq, ◌==◌, eq_of_==, IsDistinct,
  maximum, str, Option-cases,
}
use dsprod.Common.Dict.{Dict, get, has, keys, All-has}
use dsprod.Jobs.{JobId, JobData, key, job_id_eq, key_eq}
use dsprod.Watchdog.Config.{Config, stale_seconds}
use dsprod.Watchdog.Types.{Known, StallWatchdog}
use dsprod.Watchdog.Listing.{stamps, age}
use dsprod.Watchdog.Operations.{stamp_resolution, Stale, verdicts}
use dsprod.Watchdog.Evidence.{Evidence, IsOverdue}
use dsprod.Watchdog.Verdicts.{Reported, listing_time, verdicts-Evidence, verdicts-Settled}

-- A stamp that counts is among the stamps.
stamps-ge :
    (ages : Dict String ℕ) (branches : List ℕ) (b s since : ℕ)
    → elem b branches ≡ true
    → get ages (str b) ≡ some s
    → since ≤ s
    → (t : ℕ) × (ts : List ℕ) × (stamps ages branches since ≡ t ∷ ts) × (s ≤ maximum (t ∷ ts))
unfolding stamps
stamps-ge ages [] b s since h found late = cc
stamps-ge ages (c ∷ cs) b s since h found late = elim (Bool-cases (c == b)) [
  | inl same ↦
      let here : get ages (str c) ≡ some s = rw (eq_of_== c b same) found in
      (s, stamps ages cs since, rw (here, le→leb since s late), omega arith)
  | inr other ↦
      let (t, ts, e, m) = stamps-ge ages cs b s since (rw other at h) found late in
      elim (Option-cases (get ages (str c))) [
        | inl absent ↦ (t, ts, rw absent e, m)
        | inr (u, present) ↦ elim (Bool-cases (leb since u)) [
          | inl counts ↦ (u, t ∷ ts, rw (present, counts, e), omega arith)
          | inr old ↦ (t, ts, rw (present, old) e, m)
        ]
      ]
]

-- The age is at most that of any stamp that counts.
age-le :
    (ages : Dict String ℕ) (branches : List ℕ) (b s since now : ℕ)
    → elem b branches ≡ true
    → get ages (str b) ≡ some s
    → since ≤ s
    → (a : ℕ) × (age ages branches now since ≡ some a) × (a ≤ now - s)
unfolding age
age-le ages branches b s since now h found late =
    let (t, ts, e, m) = stamps-ge ages branches b s since h found late in
    (now - maximum (t ∷ ts), rw e, omega arith)

overdue_not_fresh :
    (cfg : Config) (now first s : ℕ) (a : Option ℕ) (b : ℕ)
    → IsOverdue cfg now first a
    → a ≡ some b
    → b ≤ now - s
    → 0 < stale_seconds cfg
    → ¬ (now < s + stale_seconds cfg)
overdue_not_fresh cfg now first s none b over e le pos fresh = cc
overdue_not_fresh cfg now first s (some a) b over e le pos fresh = ground arith

-- Evidence against a job with a fresh flag would be no evidence.
no-Evidence :
    (R : JobId → Type 0) (w : StallWatchdog) (now : ℕ) (st : Stale) (known : Known) (b s : ℕ)
    → Evidence R w now st
    → get w.by_id (key st.job_id) ≡ some known
    → elem b known.branches ≡ true
    → get (or_else w.ages []) (str b) ≡ some s
    → ((seen_at : ℕ)
        → get w.first_seen (key st.job_id) ≡ some seen_at
        → seen_at - stamp_resolution ≤ s)
    → now < s + stale_seconds w.cfg
    → 0 < stale_seconds w.cfg
    → ⊥
no-Evidence R w now st known b s e branches flag stamp since fresh pos =
    let same : known.branches ≡ st.branches = ground (arith, e.known) in
    let (a, aged, le) =
      age-le (or_else w.ages []) st.branches b s (e.seen_at - stamp_resolution) now
        (rw same at flag) stamp (since e.seen_at e.seen) in
    overdue_not_fresh w.cfg now e.first s st.age a e.overdue (e.aged ∙ aged) le pos fresh

-- A job one of whose flags was stamped since the job was first seen running, less the minute that
-- stamps are rounded by, and less than `stale_seconds` before the listing, is not failed. The
-- job's branches are known, the threshold is positive, and the status has each job once.
pub verdicts-spares_fresh :
    (w : StallWatchdog) (result : Dict JobId (Option JobData)) (now : Option ℕ) (clock : ℕ)
    (id : JobId) (known : Known) (b s : ℕ)
    → IsDistinct (keys result)
    → get w.by_id (key id) ≡ some known
    → elem b known.branches ≡ true
    → get (or_else w.ages []) (str b) ≡ some s
    → ((seen_at : ℕ)
        → get (verdicts w result now clock).0.first_seen (key id) ≡ some seen_at
        → seen_at - stamp_resolution ≤ s)
    → listing_time w now clock < s + stale_seconds w.cfg
    → 0 < stale_seconds w.cfg
    → has (verdicts w result now clock).1 id ≡ false
verdicts-spares_fresh w result now clock id known b s distinct branches flag stamp since fresh pos =
    elim (Bool-cases (has (verdicts w result now clock).1 id)) [
      | inl failed ↦
          let found =
            All-has _ (verdicts w result now clock).1 id failed
              (verdicts-Evidence w result now clock distinct) in
          let st = found.1.0 in
          let same : st.job_id ≡ id = found.1.1 in
          let w' = (verdicts w result now clock).0 in
          let kept = verdicts-Settled w result now clock in
          absurd (
            no-Evidence (Reported result) w' (listing_time w now clock) st known b s found.1.3
              (rw (same, kept.by_id) branches) flag (rw kept.ages stamp) (rw same since)
              (rw kept.cfg fresh) (rw kept.cfg pos))
      | inr spared ↦ spared
    ]

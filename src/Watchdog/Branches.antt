-- ===== src/Watchdog/Branches.antt =====
-- dsprod/watchdog.py: the counters of the branches' rescues.
use dsprod.Common.{
  ℕ, ◌+◌, ◌≤◌, ◌≡◌, refl, ◌∙◌, true, false, ◌&&◌, is_some, List, [], ◌∷◌, map, Option, some, arith,
  leb, or_else, if◌then◌else◌, elem, IsDistinct, maximum, sort, All, All-sort, All-mono, Bool-cases,
  inl, inr, nat_eq, ◌==◌, eq_of_==, nat_beq, length,
}
use dsprod.Common.Dict.{Dict, get, get_or, put, get-put, get-entries, keys}
use dsprod.Jobs.{JobId, JobData, key, job_id_eq, key_eq, Key}
use dsprod.Watchdog.Types.{Known, StallWatchdog}
use dsprod.Watchdog.Listing.{publish}
use dsprod.Watchdog.Operations.{
  Stale, Scan, scan, spend, Verdicts, issue_one, issue, decide, verdicts, by_job_num,
  is_storage_fault,
}
use dsprod.Watchdog.Budget.{scan-Unspent}
use dsprod.Watchdog.Evidence.{scan-Evidence}
use dsprod.Watchdog.Verdicts.{Reported, listing_time, Reported-entries}

abbrev pub rescues : Dict ℕ ℕ → ℕ → ℕ
rescues per_branch b = get_or per_branch b 0

-- Every one of a job's branches is charged once.
pub rescues-spend :
    (per_branch : Dict ℕ ℕ) (bs : List ℕ) (b : ℕ)
    → IsDistinct bs
    → rescues (spend per_branch bs) b
      ≡ (if elem b bs then rescues per_branch b + 1 else rescues per_branch b)
unfolding spend
rescues-spend per_branch [] b distinct = refl
rescues-spend per_branch (c ∷ cs) b distinct =
    let next = put per_branch c (rescues per_branch c + 1) in
    let rest = rescues-spend next cs b distinct.1 in
    let now = get-put per_branch c b (rescues per_branch c + 1) in
    elim (Bool-cases (c == b)) [
      | inl same ↦
          let absent : elem b cs ≡ false = rw (eq_of_== c b same) at distinct.0 in
          let charged : rescues next b ≡ rescues per_branch c + 1 = rw (now, same) in
          rw same ((rw absent at rest) ∙ charged ∙ rw (eq_of_== c b same))
      | inr other ↦
          let kept : rescues next b ≡ rescues per_branch b = rw (now, other) in
          rw other (rest ∙ rw kept)
    ]

repeats-ge :
    (per_branch : Dict ℕ ℕ) (bs : List ℕ) (b : ℕ)
    → elem b bs ≡ true
    → rescues per_branch b ≤ maximum (map (λ c. get_or per_branch c 0) bs)
repeats-ge per_branch [] b h = cc
repeats-ge per_branch (c ∷ cs) b h = elim (Bool-cases (c == b)) [
  | inl same ↦ rw (eq_of_== c b same) (omega arith)
  | inr other ↦ omega (arith, repeats-ge per_branch cs b (rw other at h))
]

-- No counter of rescues is above what the settings allow.
abbrev pub IsWithin : StallWatchdog → Type 0
IsWithin w = (b : ℕ) → rescues w.per_branch b ≤ w.cfg.max_per_branch

issue_one-IsWithin :
    (w : StallWatchdog) (out : Verdicts) (st : Stale)
    → IsDistinct st.branches
    → IsWithin w
    → IsWithin (issue_one w out st).0
unfolding issue_one
issue_one-IsWithin w out st distinct within b = ground (
  arith,
  within b,
  rescues-spend w.per_branch st.branches b distinct,
  repeats-ge w.per_branch st.branches b,
)

issue-IsWithin :
    (w : StallWatchdog) (out : Verdicts) (sts : List Stale)
    → All (λ st. IsDistinct st.branches) sts
    → IsWithin w
    → IsWithin (issue w out sts).0
unfolding issue publish
issue-IsWithin w out [] distinct within = within
issue-IsWithin w out (st ∷ sts) distinct within =
    let w' = (issue_one w out st).0 in
    let out' = (issue_one w out st).1 in
    elim (Bool-cases (leb w.cfg.max_per_interval w.issued_this_interval)) [
      | inl full ↦ rw full within
      | inr room ↦
          rw room
            (issue-IsWithin w' out' sts distinct.1 (issue_one-IsWithin w out st distinct.0 within))
    ]

decide-IsWithin :
    (c : Scan)
    → All (λ st. IsDistinct st.branches) c.stale
    → IsWithin c.watchdog
    → IsWithin (decide c).0
unfolding decide publish
decide-IsWithin c distinct within =
    let sorted = All-sort by_job_num (λ st. IsDistinct st.branches) c.stale distinct in
    let issued = issue-IsWithin c.watchdog [] (sort by_job_num c.stale) sorted within in
    let fault = is_storage_fault c.watchdog.cfg (length c.running) (length c.stale) in
    elim (Bool-cases (nat_beq (length c.stale) 0)) [
      | inl none_stale ↦ rw none_stale within
      | inr some_stale ↦
          rw some_stale (elim (Bool-cases fault) [ inl f ↦ rw f within | inr f ↦ rw f issued ])
    ]

-- Whatever is polled, no branch is failed by the watchdog more than `max_per_branch` times, if
-- that held before, no job names a branch twice, and the status has each job once.
pub verdicts-IsWithin :
    (w : StallWatchdog) (result : Dict JobId (Option JobData)) (now : Option ℕ) (clock : ℕ)
    → IsDistinct (keys result)
    → ((k : Key) (known : Known) → get w.by_id k ≡ some known → IsDistinct known.branches)
    → IsWithin w
    → IsWithin (verdicts w result now clock).0
unfolding verdicts
verdicts-IsWithin w result now clock distinct branches within =
    let start : Scan = record { watchdog = w; running = []; stale = [] } in
    let at = listing_time w now clock in
    let c = scan start at (or_else now clock) result in
    let same = scan-Unspent start at (or_else now clock) result in
    let found =
      scan-Evidence (Reported result) at start (or_else now clock) result
        (Reported-entries result result (get-entries result distinct)) tt in
    elim (Bool-cases (w.cfg.enabled && w.listed && is_some w.ages)) [
      | inl on ↦ rw on (
          decide-IsWithin c
            (All-mono (λ st e. branches (key st.job_id) _ (rw same.by_id at e.known)) c.stale found)
            (λ b. rw (same.per_branch, same.cfg) (within b)))
      | inr off ↦ rw off within
    ]

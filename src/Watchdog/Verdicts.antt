-- ===== src/Watchdog/Verdicts.antt =====
-- dsprod/watchdog.py: every verdict has its evidence, and a job with a fresh flag is spared.
use dsprod.Common.{
  ℕ, ◌≡◌, refl, ◌∙◌, ap, true, ◌&&◌, is_some, List, [], ◌∷◌, Option, some, none, arith, leb,
  or_else, sort, All, All-mono, All-sort, Bool-cases, inl, inr, nat_eq, string_eq, IsDistinct,
  length, nat_beq,
}
use dsprod.Common.Dict.{Dict, get, keys, get-entries, All-put}
use dsprod.Jobs.{JobId, JobData, Status, running, is_running, job_id_eq, key_eq}
use dsprod.Watchdog.Config.{Config}
use dsprod.Watchdog.Types.{Reason, StallWatchdog}
use dsprod.Watchdog.Listing.{publish}
use dsprod.Watchdog.Operations.{
  Stale, Scan, scan, reports_running, repeats, reason_for, is_storage_fault, Verdicts, issue_one,
  issue, by_job_num, decide, verdicts,
}
use dsprod.Watchdog.Budget.{scan-Unspent}
use dsprod.Watchdog.Evidence.{Evidence, same_clocks, Evidence-Grows, scan-Evidence}

is_running_lem : (s : Status) → is_running s ≡ true → s ≡ running
is_running_lem Status.running h = refl
is_running_lem Status.pending h = cc
is_running_lem Status.finished h = cc
is_running_lem Status.failed h = cc

-- A verdict for an entry of `stale` of which `Q` holds.
abbrev pub Because : (Stale → Type 0) → Config → JobId × Reason → Type 0
Because Q cfg e = (st : Stale) × (st.job_id ≡ e.0) × (e.1 ≡ reason_for cfg st) × Q st

-- What the second loop leaves alone.
record Views (w w' : StallWatchdog) : Type 0 where
  cfg : w'.cfg ≡ w.cfg
  ages : w'.ages ≡ w.ages
  by_id : w'.by_id ≡ w.by_id
  first_seen : w'.first_seen ≡ w.first_seen
  first_running : w'.first_running ≡ w.first_running

issue_one-Views : (w : StallWatchdog) (out : Verdicts) (st : Stale) → Views w (issue_one w out st).0
unfolding issue_one
issue_one-Views w out st = ground arith

pub issue_one-cfg :
    (w : StallWatchdog) (out : Verdicts) (st : Stale) → (issue_one w out st).0.cfg ≡ w.cfg
issue_one-cfg w out st = (issue_one-Views w out st).cfg

issue-Views : (w : StallWatchdog) (out : Verdicts) (sts : List Stale) → Views w (issue w out sts).0
unfolding issue publish
issue-Views w out [] = record {
  cfg = refl;
  ages = refl;
  by_id = refl;
  first_seen = refl;
  first_running = refl;
}
issue-Views w out (st ∷ sts) =
    let (w', out') = issue_one w out st in
    ground (arith, issue_one-Views w out st, issue-Views w' out' sts)

decide-Views : (c : Scan) → Views c.watchdog (decide c).0
unfolding decide publish
decide-Views c = ground (arith, issue-Views c.watchdog [] (sort by_job_num c.stale))

module _ (Q : Stale → Type 0) (cfg : Config) where
  issue_one-Because :
      (w : StallWatchdog) (out : Verdicts) (st : Stale)
      → w.cfg ≡ cfg
      → Q st
      → All (Because Q cfg) out
      → All (Because Q cfg) (issue_one w out st).1
  unfolding issue_one
  issue_one-Because w out st same q old =
      let new =
        All-put (Because Q cfg) out st.job_id (reason_for w.cfg st)
          (st, refl, ap (λ c. reason_for c st) same, q) old in
      elim (Bool-cases (leb w.cfg.max_per_branch (repeats w st))) [
        | inl spent ↦ rw spent old
        | inr left ↦
            rw left (elim (Bool-cases w.cfg.dry_run) [
              | inl dry ↦ simp dry old
              | inr real ↦ simp real new
            ])
      ]

  issue-Because :
      (w : StallWatchdog) (out : Verdicts) (sts : List Stale)
      → w.cfg ≡ cfg
      → All Q sts
      → All (Because Q cfg) out
      → All (Because Q cfg) (issue w out sts).1
  unfolding issue
  issue-Because w out [] same q old = old
  issue-Because w out (st ∷ sts) same q old =
      let w' = (issue_one w out st).0 in
      let out' = (issue_one w out st).1 in
      elim (Bool-cases (leb w.cfg.max_per_interval w.issued_this_interval)) [
        | inl full ↦ rw full old
        | inr room ↦ rw room (
            issue-Because w' out' sts ((issue_one-Views w out st).cfg ∙ same) q.1
              (issue_one-Because w out st same q.0 old))
      ]

  decide-Because :
      (c : Scan) → c.watchdog.cfg ≡ cfg → All Q c.stale → All (Because Q cfg) (decide c).1
  unfolding decide
  decide-Because c same q =
      let issued =
        issue-Because c.watchdog [] (sort by_job_num c.stale) same (All-sort by_job_num Q c.stale q)
          tt in
      elim (Bool-cases (nat_beq (length c.stale) 0)) [
        | inl none_stale ↦ rw none_stale tt
        | inr some_stale ↦
            rw some_stale
              (elim (Bool-cases
                (is_storage_fault c.watchdog.cfg (length c.running) (length c.stale))) [
                  | inl fault ↦ rw fault tt
                  | inr sound ↦ rw sound issued
                ])
      ]

-- The time that ages are measured against: the caller's, else the listing's.
abbrev pub listing_time : StallWatchdog → Option ℕ → ℕ → ℕ
listing_time w now clock = or_else now (or_else w.listed_at (or_else now clock))

-- The status that was fetched reports the job running.
abbrev pub Reported : Dict JobId (Option JobData) → JobId → Type 0
Reported result id = (d : JobData) × (get result id ≡ some (some d)) × (d.status ≡ running)

pub Reported-entries :
    (result es : Dict JobId (Option JobData))
    → All (λ e. get result e.0 ≡ some e.1) es
    → All (λ e. reports_running e.1 ≡ true → Reported result e.0) es
Reported-entries result [] h = tt
Reported-entries result ((id, none) ∷ es) h = (λ r. cc, Reported-entries result es h.1)
Reported-entries result ((id, some d) ∷ es) h =
    (λ r. (d, h.0, is_running_lem d.status r), Reported-entries result es h.1)

-- Every verdict is for a job that the status reports running, whose branches are known, and that
-- is overdue on the flags that may be this attempt's, as of the listing: the freshest is at least
-- `stale_seconds` old, or there is none and the grace for a first beat is over. The status has
-- each job once; the clocks are those in the state after the call.
pub verdicts-Evidence :
    (w : StallWatchdog) (result : Dict JobId (Option JobData)) (now : Option ℕ) (clock : ℕ)
    → IsDistinct (keys result)
    → All
        (Because
          (Evidence (Reported result) (verdicts w result now clock).0 (listing_time w now clock))
          w.cfg)
        (verdicts w result now clock).1
unfolding verdicts
verdicts-Evidence w result now clock distinct =
    let seen = or_else now clock in
    let at = listing_time w now clock in
    let start : Scan = record { watchdog = w; running = []; stale = [] } in
    let c = scan start at seen result in
    elim (Bool-cases (w.cfg.enabled && w.listed && is_some w.ages)) [
      | inl on ↦
          let R = Reported result in
          let v = decide-Views c in
          let grown = same_clocks v.cfg v.ages v.by_id v.first_seen v.first_running in
          let found =
            scan-Evidence R at start seen result
              (Reported-entries result result (get-entries result distinct)) tt in
          rw on (
            decide-Because (Evidence R (decide c).0 at) w.cfg c
              (scan-Unspent start at seen result).cfg
              (All-mono (λ st e. Evidence-Grows R at st grown e) c.stale found))
      | inr off ↦ rw off tt
    ]

-- A call of `verdicts` changes neither the settings, nor the listing, nor the jobs' branches.
pub record Settled (w w' : StallWatchdog) : Type 0 where
  pub cfg : w'.cfg ≡ w.cfg
  pub ages : w'.ages ≡ w.ages
  pub by_id : w'.by_id ≡ w.by_id

pub verdicts-Settled :
    (w : StallWatchdog) (result : Dict JobId (Option JobData)) (now : Option ℕ) (clock : ℕ)
    → Settled w (verdicts w result now clock).0
unfolding verdicts
verdicts-Settled w result now clock =
    let start : Scan = record { watchdog = w; running = []; stale = [] } in
    let c = scan start (listing_time w now clock) (or_else now clock) result in
    let s = scan-Unspent start (listing_time w now clock) (or_else now clock) result in
    let v = decide-Views c in
    elim (Bool-cases (w.cfg.enabled && w.listed && is_some w.ages)) [
      | inl on ↦
          rw on (record { cfg = v.cfg ∙ s.cfg; ages = v.ages ∙ s.ages; by_id = v.by_id ∙ s.by_id })
      | inr off ↦ rw off (record { cfg = refl; ages = refl; by_id = refl })
    ]

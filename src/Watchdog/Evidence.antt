-- ===== src/Watchdog/Evidence.antt =====
-- dsprod/watchdog.py: on what evidence a job is failed.
use dsprod.Common.{
  ℕ, ◌+◌, ◌-◌, ◌≤◌, ◌≡◌, refl, true, [], ◌∷◌, ◌++◌, Option, some, none, arith, leb, leb→le, or_else,
  elem, All, All-mono, All-append, Bool-cases, Option-cases, inl, inr, nat_eq,
}
use dsprod.Common.Dict.{Dict, get, get_or, set_default, get-set_default_kept, get-set_default_self}
use dsprod.Jobs.{JobId, JobData, key, job_id_eq, key_eq, Key}
use dsprod.Watchdog.Config.{Config, stale_seconds}
use dsprod.Watchdog.Types.{Known, StallWatchdog}
use dsprod.Watchdog.Listing.{age}
use dsprod.Watchdog.Operations.{
  grace, stamp_resolution, Stale, Scan, judge_age, scan_known, scan_job, scan, reports_running,
}

-- A flag is too old, or there is none and the grace for a first beat is over.
abbrev pub IsOverdue : Config → ℕ → ℕ → Option ℕ → Type 0
IsOverdue cfg now first none = first + grace cfg ≤ now
IsOverdue cfg now first (some a) = stale_seconds cfg ≤ a

-- What stands behind an entry of `stale`: `R` holds of the job, its branches are known, and the age of
-- the flags that may be this attempt's, as of the listing at `now`, is overdue.
pub record Evidence (R : JobId → Type 0) (w : StallWatchdog) (now : ℕ) (st : Stale) : Type 0 where
  pub reported : R st.job_id
  pub known :
      get w.by_id (key st.job_id) ≡ some (record { job_num = st.job_num; branches = st.branches })
  pub seen_at : ℕ
  pub seen : get w.first_seen (key st.job_id) ≡ some seen_at
  pub first : ℕ
  pub running : get w.first_running (key st.job_id) ≡ some first
  pub aged : st.age ≡ age (or_else w.ages []) st.branches now (seen_at - stamp_resolution)
  pub overdue : IsOverdue w.cfg now first st.age

-- The clocks of `w` still stand in `w'`.
pub record Grows (w w' : StallWatchdog) : Type 0 where
  cfg : w'.cfg ≡ w.cfg
  ages : w'.ages ≡ w.ages
  by_id : w'.by_id ≡ w.by_id
  seen : (k : Key) (t : ℕ) → get w.first_seen k ≡ some t → get w'.first_seen k ≡ some t
  running : (k : Key) (t : ℕ) → get w.first_running k ≡ some t → get w'.first_running k ≡ some t

pub Evidence-Grows :
    (R : JobId → Type 0) {w w' : StallWatchdog} (now : ℕ) (st : Stale)
    → Grows w w'
    → Evidence R w now st
    → Evidence R w' now st
Evidence-Grows R now st g e = record {
  reported = e.reported;
  known = rw g.by_id e.known;
  seen_at = e.seen_at;
  seen = g.seen _ _ e.seen;
  first = e.first;
  running = g.running _ _ e.running;
  aged = rw g.ages e.aged;
  overdue = rw g.cfg e.overdue;
}

pub same_clocks :
    {w w' : StallWatchdog}
    → w'.cfg ≡ w.cfg
    → w'.ages ≡ w.ages
    → w'.by_id ≡ w.by_id
    → w'.first_seen ≡ w.first_seen
    → w'.first_running ≡ w.first_running
    → Grows w w'
same_clocks c a b s r = record {
  cfg = c;
  ages = a;
  by_id = b;
  seen = λ k t h. rw s h;
  running = λ k t h. rw r h;
}

judge_age-Grows :
    (c : Scan) (now : ℕ) (id : JobId) (known : Known) (first : ℕ) (a : Option ℕ)
    → Grows c.watchdog (judge_age c now id known first a).watchdog
unfolding judge_age
judge_age-Grows c now id known first none =
    same_clocks (ground arith) (ground arith) (ground arith) (ground arith) (ground arith)
judge_age-Grows c now id known first (some a) =
    same_clocks (ground arith) (ground arith) (ground arith) (ground arith) (ground arith)

-- The entry that the loop's body may append.
abbrev entry_of : JobId → Known → Option ℕ → Stale
entry_of id known a = record {
  job_id = id;
  job_num = known.job_num;
  branches = known.branches;
  age = a;
}

module _ (R : JobId → Type 0) (now : ℕ) where
  judge_age-Evidence :
      (c : Scan) (id : JobId) (known : Known) (first : ℕ) (a : Option ℕ)
      → (IsOverdue c.watchdog.cfg now first a → Evidence R c.watchdog now (entry_of id known a))
      → All (Evidence R c.watchdog now) c.stale
      → All (Evidence R c.watchdog now) (judge_age c now id known first a).stale
  unfolding judge_age
  judge_age-Evidence c id known first none new old =
      elim (Bool-cases (elem (key id) c.watchdog.seen_flag)) [
        | inl had ↦ rw had old
        | inr never ↦ rw never (elim (Bool-cases (leb (first + grace c.watchdog.cfg) now)) [
          | inl late ↦ rw late (All-append _ c.stale _ old (new (leb→le _ _ late), tt))
          | inr early ↦ rw early old
        ])
      ]
  judge_age-Evidence c id known first (some a) new old =
      elim (Bool-cases (leb (stale_seconds c.watchdog.cfg) a)) [
        | inl late ↦ rw late (All-append _ c.stale _ old (new (leb→le _ _ late), tt))
        | inr fresh ↦ rw fresh old
      ]

  scan_known-Evidence :
      (c : Scan) (seen : ℕ) (id : JobId) (known : Known)
      → R id
      → get c.watchdog.by_id (key id) ≡ some known
      → All (Evidence R c.watchdog now) c.stale
      → All
          (Evidence R (scan_known c now seen id known).watchdog now)
          (scan_known c now seen id known).stale
  unfolding scan_known
  scan_known-Evidence c seen id known r found old =
      let running = set_default c.watchdog.first_running (key id) now in
      let first = set_default c.watchdog.first_seen (key id) seen in
      let w = record c.watchdog { first_running = running; first_seen = first } in
      let c' : Scan = record c { watchdog = w; running = c.running ++ id ∷ [] } in
      let since = get_or first (key id) seen in
      let t = get_or running (key id) now in
      let a = age (or_else w.ages []) known.branches now (since - stamp_resolution) in
      let grown : Grows c.watchdog w = record {
        cfg = refl;
        ages = refl;
        by_id = refl;
        seen = λ k v h. get-set_default_kept c.watchdog.first_seen (key id) k seen v h;
        running = λ k v h. get-set_default_kept c.watchdog.first_running (key id) k now v h;
      } in
      let kept : All (Evidence R w now) c.stale =
        All-mono (λ st e. Evidence-Grows R now st grown e) c.stale old in
      let listed =
        judge_age-Evidence c' id known t a
          (λ late. record {
            reported = r;
            known = found;
            seen_at = since;
            seen = get-set_default_self c.watchdog.first_seen (key id) seen;
            first = t;
            running = get-set_default_self c.watchdog.first_running (key id) now;
            aged = refl;
            overdue = late;
          })
          kept in
      All-mono (λ st e. Evidence-Grows R now st (judge_age-Grows c' now id known t a) e) _ listed

  scan_job-Evidence :
      (c : Scan) (seen : ℕ) (id : JobId) (d : Option JobData)
      → (reports_running d ≡ true → R id)
      → All (Evidence R c.watchdog now) c.stale
      → All (Evidence R (scan_job c now seen id d).watchdog now) (scan_job c now seen id d).stale
  unfolding scan_job
  scan_job-Evidence c seen id d r old = elim (Bool-cases (reports_running d)) [
    | inl on ↦ rw on (elim (Option-cases (get c.watchdog.by_id (key id))) [
      | inl unknown ↦ simp unknown old
      | inr (known, found) ↦ simp found (scan_known-Evidence c seen id known (r on) found old)
    ])
    | inr off ↦ rw off old
  ]

  pub scan-Evidence :
      (c : Scan) (seen : ℕ) (result : Dict JobId (Option JobData))
      → All (λ e. reports_running e.1 ≡ true → R e.0) result
      → All (Evidence R c.watchdog now) c.stale
      → All (Evidence R (scan c now seen result).watchdog now) (scan c now seen result).stale
  unfolding scan
  scan-Evidence c seen [] r old = old
  scan-Evidence c seen ((id, d) ∷ result) r old =
      scan-Evidence (scan_job c now seen id d) seen result r.1
        (scan_job-Evidence c seen id d r.0 old)

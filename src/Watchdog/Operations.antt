-- ===== src/Watchdog/Operations.antt =====
-- dsprod/watchdog.py: `StallWatchdog` judges the jobs of a poll.
use dsprod.Common.{
  ℕ, ◌+◌, ◌-◌, Bool, false, ◌&&◌, List, [], ◌∷◌, ◌++◌, map, Option, none, some, ltb, leb, nat_beq,
  is_some, or_else, if◌then◌else◌, length, maximum, sort, elem, add, discard, nat_eq, string_eq,
  str, text_leb,
}
use dsprod.Common.Dict.{Dict, get, get_or, put, set_default, pop}
use dsprod.Common.Ratio.{floor_times}
use dsprod.Jobs.{JobId, JobData, key, key_eq, job_id_eq, is_running}
use dsprod.Watchdog.Config.{Config, interval_seconds, stale_seconds}
use dsprod.Watchdog.Types.{
  gone, cap, dry, note_eq, Reason, flag_gone, storage_fault, interval_full, branch_spent,
  would_fail, Known, StallWatchdog,
}
use dsprod.Watchdog.Listing.{publish, note, age}

-- An entry of the list `stale`.
pub record Stale : Type 0 where
  pub job_id : JobId
  pub job_num : ℕ
  pub branches : List ℕ
  pub age : Option ℕ

-- The variables of the first loop of `verdicts`.
pub record Scan : Type 0 where
  pub watchdog : StallWatchdog
  pub running : List JobId
  pub stale : List Stale

abbrev pub stamp_resolution : ℕ
stamp_resolution = 60

abbrev pub grace : Config → ℕ
grace cfg = stale_seconds cfg + interval_seconds cfg

-- The branches on `age` at the end of the loop's body. The grace is over when
-- `now - first_running >= grace`.
unfoldable pub judge_age : Scan → ℕ → JobId → Known → ℕ → Option ℕ → Scan
unfolding note
judge_age c now id known first_running (some a) =
    let w = record c.watchdog { seen_flag = add (key id) c.watchdog.seen_flag } in
    let entry : Stale = record {
      job_id = id;
      job_num = known.job_num;
      branches = known.branches;
      age = some a;
    } in
    record c {
      watchdog = w;
      stale = if leb (stale_seconds w.cfg) a then c.stale ++ entry ∷ [] else c.stale;
    }
judge_age c now id known first_running none =
    let w = c.watchdog in
    let entry : Stale = record {
      job_id = id;
      job_num = known.job_num;
      branches = known.branches;
      age = none;
    } in
    if elem (key id) w.seen_flag
    then record c { watchdog = note w (gone (key id)) (flag_gone known.job_num) }
    else if leb (first_running + grace w.cfg) now
    then record c { stale = c.stale ++ entry ∷ [] }
    else c

-- The body of the loop for a job that is running and known. `now` is the time of the listing, `seen`
-- that of the query.
unfoldable pub scan_known : Scan → ℕ → ℕ → JobId → Known → Scan
scan_known c now seen id known =
    let running = set_default c.watchdog.first_running (key id) now in
    let first = set_default c.watchdog.first_seen (key id) seen in
    let w = record c.watchdog { first_running = running; first_seen = first } in
    let since = get_or first (key id) seen - stamp_resolution in
    judge_age (record c { watchdog = w; running = c.running ++ id ∷ [] }) now id known
      (get_or running (key id) now) (age (or_else w.ages []) known.branches now since)

-- `data.get("status") != "running"`, also for what is no dictionary.
abbrev pub reports_running : Option JobData → Bool
reports_running none = false
reports_running (some d) = is_running d.status

unfoldable pub scan_job : Scan → ℕ → ℕ → JobId → Option JobData → Scan
scan_job c now seen id d =
    let judged : Scan = elim (get c.watchdog.by_id (key id)) [
      | none ↦ c
      | some known ↦ scan_known c now seen id known
    ] in
    if reports_running d then judged else c

unfoldable pub scan : Scan → ℕ → ℕ → Dict JobId (Option JobData) → Scan
scan c now seen [] = c
scan c now seen ((id, d) ∷ result) = scan (scan_job c now seen id d) now seen result

abbrev pub min_running_for_fault_guard : ℕ
min_running_for_fault_guard = 10

abbrev pub is_storage_fault : Config → ℕ → ℕ → Bool
is_storage_fault cfg n_running n_stale =
    leb min_running_for_fault_guard n_running
    && ltb (floor_times cfg.max_stale_fraction n_running) n_stale

-- `for b in branches: self._per_branch[b] = self._per_branch.get(b, 0) + 1`
unfoldable pub spend : Dict ℕ ℕ → List ℕ → Dict ℕ ℕ
spend per_branch [] = per_branch
spend per_branch (b ∷ bs) = spend (put per_branch b (get_or per_branch b 0 + 1)) bs

abbrev pub reason_for : Config → Stale → Reason
reason_for cfg st = record { age = st.age; threshold = stale_seconds cfg }

abbrev pub repeats : StallWatchdog → Stale → ℕ
repeats w st = maximum (map (λ b. get_or w.per_branch b 0) st.branches)

abbrev pub Verdicts : Type 0
Verdicts = Dict JobId Reason

-- The body of the second loop, below its `break`.
unfoldable pub issue_one : StallWatchdog → Verdicts → Stale → StallWatchdog × Verdicts
unfolding note spend
issue_one w out st =
    let reason = reason_for w.cfg st in
    let spent = record w {
      per_branch = spend w.per_branch st.branches;
      issued_this_interval = w.issued_this_interval + 1;
    } in
    if leb w.cfg.max_per_branch (repeats w st)
    then (note w (cap st.branches) (branch_spent st.branches (repeats w st + 1)), out)
    else if w.cfg.dry_run
    then (note w (dry (key st.job_id)) (would_fail st.job_num reason), out)
    else (spent, put out st.job_id reason)

unfoldable pub issue : StallWatchdog → Verdicts → List Stale → StallWatchdog × Verdicts
issue w out [] = (w, out)
issue w out (st ∷ sts) =
    let (w', out') = issue_one w out st in
    let rest = issue w' out' sts in
    if leb w.cfg.max_per_interval w.issued_this_interval
    then (publish w (interval_full w.cfg.max_per_interval), out)
    else rest

abbrev pub by_job_num : Stale → Stale → Bool
by_job_num a b = text_leb (str a.job_num) (str b.job_num)

-- What `verdicts` does with the two lists.
unfoldable pub decide : Scan → StallWatchdog × Verdicts
decide c =
    let w = c.watchdog in
    if nat_beq (length c.stale) 0
    then (w, [])
    else if is_storage_fault w.cfg (length c.running) (length c.stale)
    then (publish w (storage_fault (length c.stale) (length c.running)), [])
    else issue w [] (sort by_job_num c.stale)

-- `verdicts`. `now` is the caller's, `clock` what `utcnow` returns.
unfoldable pub verdicts :
    StallWatchdog → Dict JobId (Option JobData) → Option ℕ → ℕ → StallWatchdog × Verdicts
verdicts w result now clock =
    let seen = or_else now clock in
    let at = or_else now (or_else w.listed_at seen) in
    let c = scan (record { watchdog = w; running = []; stale = [] }) at seen result in
    if w.cfg.enabled && w.listed && is_some w.ages then decide c else (w, [])

-- `forget`
unfoldable pub forget : StallWatchdog → JobId → StallWatchdog
forget w id = record w {
  first_running = pop w.first_running (key id);
  first_seen = pop w.first_seen (key id);
  seen_flag = discard (key id) w.seen_flag;
  reported = discard (dry (key id)) (discard (gone (key id)) w.reported);
}

-- ===== src/Waves/Submission.antt =====
-- dsprod/crab.py: `submit`, with the brake of dsprod/tools.py that comes before it.
--
-- law's own `submit` and its test whether all outputs of a job exist are parameters; so is the result
-- of the probe of law's source tree.
use dsprod.Common.{
  ℕ, ◌+◌, ◌*◌, Bool, true, false, ◌||◌, not, List, [], ◌∷◌, Option, some, none, ltb, leb, nat_beq,
  if◌then◌else◌, length, filter, nat_eq,
}
use dsprod.Common.Dict.{Dict, get, put, pop}
use dsprod.Jobs.{missing_outputs}
use dsprod.Waves.Types.{JobRow, Jobs, JobTable, Proxy}
use dsprod.Waves.Gate.{update_clock, should_submit}

-- Whether the record of a job has law's error for outputs that are no longer there.
unfoldable pub lost_outputs : Option JobRow → Bool
lost_outputs none = false
lost_outputs (some row) = elim row.error [
  | none ↦ false
  | some e ↦ elim e [ missing_outputs ↦ true | _ ↦ false ]
]

unfoldable pub count_missing : Dict ℕ JobRow → Jobs → ℕ
unfolding lost_outputs
count_missing jobs [] = 0
count_missing jobs ((job_num, branches) ∷ retries) =
    let rest = count_missing jobs retries in
    if lost_outputs (get jobs job_num) then rest + 1 else rest

-- law's `JobData.__len__`, which counts the unsubmitted jobs too
abbrev pub n_jobs : JobTable → ℕ
n_jobs t = length t.jobs + length t.unsubmitted_jobs

-- Whether `stop_on_mass_initial_retry` raises: more than a tenth of the jobs.
unfoldable pub is_mass_retry : Proxy → Jobs → Bool
unfolding count_missing
is_mass_retry p retries =
    let missing = count_missing p.table.jobs retries in
    if nat_beq (length retries) 0 || not p.submitted
    then false
    else not (ltb missing 2 || leb (10 * missing) (n_jobs p.table))

-- `d.update(e)`
unfoldable pub update : Jobs → Jobs → Jobs
update d [] = d
update d ((k, v) ∷ e) = update (put d k v) e

unfoldable pub pop_all : Dict ℕ JobRow → Jobs → Dict ℕ JobRow
pop_all jobs [] = jobs
pop_all jobs ((k, v) ∷ e) = pop_all (pop jobs k) e

module _ (can_skip : ℕ → List ℕ → Bool) where
  abbrev pub is_kept : ℕ × List ℕ → Bool
  is_kept e = not (can_skip e.0 e.1)

  -- `_park_retries`
  unfoldable pub park_retries : Proxy → ℕ → Jobs → Proxy
  unfolding update pop_all
  park_retries p time retries =
      let parked = filter is_kept retries in
      let table = record p.table {
        jobs = pop_all p.table.jobs parked;
        unsubmitted_jobs = update parked p.table.unsubmitted_jobs;
      } in
      if nat_beq (length parked) 0 then p else update_clock (record p { table = table }) time false

  -- `_drop_complete_backlog`
  unfoldable pub drop_complete_backlog : Proxy → Proxy
  drop_complete_backlog p = record p {
    table = record p.table { unsubmitted_jobs = filter is_kept p.table.unsubmitted_jobs };
  }

-- What a call of `submit` comes to: it returns the jobs that it submitted, or raises.
pub data Outcome : Type 0 where
  returns : Proxy → Jobs → Outcome
  mass_retry : ℕ → ℕ → Outcome

module _ (can_skip : ℕ → List ℕ → Bool) (law_submit : Proxy → Jobs → Proxy × Jobs) where
  -- The mixin's `submit`, and the clock that is set after it.
  unfoldable pub submit_wave : Proxy → ℕ → Jobs → Outcome
  submit_wave p time retries =
      let (after, sent) = law_submit p retries in
      if is_mass_retry p retries
      then mass_retry (count_missing p.table.jobs retries) (n_jobs p.table)
      else returns (update_clock after time true) sent

  -- What `submit` does when the wave gate is closed.
  unfoldable pub hold_back : Proxy → ℕ → Jobs → Outcome
  hold_back p time retries =
      let p' = park_retries can_skip p time retries in
      if nat_beq (length retries) 0
      then returns p []
      else returns (record p' { saved = p'.table }) []

  unfoldable pub submit : Proxy → ℕ → Bool → Jobs → Outcome
  submit p time readable retries =
      let p' = update_clock p time false in
      if is_mass_retry p retries
      then mass_retry (count_missing p.table.jobs retries) (n_jobs p.table)
      else if not readable
      then returns (park_retries can_skip p time retries) []
      else if should_submit p' time (length p.table.unsubmitted_jobs) (length retries)
      then submit_wave p' time retries
      else hold_back p' time retries

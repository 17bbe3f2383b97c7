-- ===== src/Steps/Chain.antt =====
-- dsprod/run_step.py: `run_step`, `assert_step_events`, `run_chain` and `run_nano`.
--
-- Whether the command of a step succeeds, and what the counting script then reports of a file, are
-- arguments; the text of the command is not modelled.
use dsprod.Common.{
  ℕ, ◌+◌, ◌-◌, Bool, not, List, [], ◌∷◌, ◌++◌, Option, none, some, String, nat_beq, if◌then◌else◌,
  take, drop, length, codes, string_eq, ◌==◌,
}
use dsprod.Common.Dict.{Dict, get}
use dsprod.Storage.Paths.{Uri, join, basename}
use dsprod.Steps.Params.{
  Params, Conditions, unknown_era, unknown_step, failed_process, short_step, uncounted, StepResult,
  ok, raise, resolve_step_params,
}
use dsprod.Steps.Counts.{read_event_counts}

-- What CMSSW does in a job.
pub record Cms : Type 0 where
  -- whether the command of a step succeeds, by its step, parameters, input and output
  pub succeeds : String → Params → Option Uri → Uri → Bool
  -- what the counting script reports for a file
  pub counts : Uri → Option (Dict Uri ℕ)

-- A command that was run.
pub record Ran : Type 0 where
  pub step : String
  pub filein : Option Uri
  pub fileout : Uri

-- The commands of a job, the last of which may have failed, and what it returns or raises.
pub record Log {ℓ} (A : Type ℓ) : Type ℓ where
  pub ran : List Ran
  pub result : StepResult A

abbrev pub judge_count : String → ℕ → StepResult (List ℕ) → StepResult (Unit {0})
judge_count step n_evt (raise e) = raise e
judge_count step n_evt (ok []) = raise (uncounted 0 0 [])
judge_count step n_evt (ok (produced ∷ ns)) =
    if nat_beq produced n_evt then ok tt else raise (short_step step n_evt produced)

unfoldable pub assert_step_events : Cms → Uri → String → Uri → ℕ → StepResult (Unit {0})
assert_step_events cms work_dir step fileout n_evt =
    judge_count step n_evt
      (read_event_counts (cms.counts (join work_dir fileout)) (join work_dir fileout ∷ []))

unfoldable pub run_step : Cms → Uri → ℕ → String → Params → Option Uri → Uri → StepResult (Unit {0})
unfolding assert_step_events
run_step cms work_dir n_evt step params filein fileout =
    if not (cms.succeeds step params filein fileout)
    then raise (failed_process step)
    else (if nat_beq n_evt 0 then ok tt else assert_step_events cms work_dir step fileout n_evt)

-- `f"{step}.root"`
abbrev pub output_of : String → Uri
output_of step = codes step ++ codes ".root"

abbrev pub after_step {ℓ} : {A : Type ℓ} → Ran → StepResult (Unit {0}) → Log A → Log A
after_step r (raise e) rest = record { ran = r ∷ []; result = raise e }
after_step r (ok _) rest = record rest { ran = r ∷ rest.ran }

abbrev pub with_params {ℓ} : {A : Type ℓ} → StepResult Params → (Params → Log A) → Log A
with_params (raise e) k = record { ran = []; result = raise e }
with_params (ok params) k = k params

-- The loop over the steps; `prev` is the input of the next, and `last_out` what is returned.
unfoldable pub chain_from :
    Cms → Conditions → String → Uri → ℕ → Option Uri → Option Uri → List String → Log (Option Uri)
unfolding run_step
chain_from cms c era work_dir n_evt prev last_out [] = record { ran = []; result = ok last_out }
chain_from cms c era work_dir n_evt prev last_out (step ∷ steps) =
    let out = output_of step in
    let rest = chain_from cms c era work_dir n_evt (some out) (some (join work_dir out)) steps in
    with_params (resolve_step_params c era step none) (λ params.
      after_step (record { step = step; filein = prev; fileout = out })
        (run_step cms work_dir n_evt step params prev out) rest)

-- `steps.index(step)`
abbrev pub index_of : String → List String → Option ℕ
index_of step [] = none
index_of step (s ∷ steps) =
    let later = index_of step steps in
    if s == step then some 0 else elim later [ none ↦ none | some i ↦ some (i + 1) ]

-- Where a step stands that is named, or the default.
abbrev pub place_of : Option String → ℕ → List String → StepResult ℕ
place_of none i steps = ok i
place_of (some step) i steps = elim (index_of step steps) [
  | none ↦ raise (unknown_step step)
  | some j ↦ ok j
]

abbrev pub slice : StepResult ℕ → StepResult ℕ → List String → StepResult (List String)
slice (ok first) (ok last) steps = ok (drop first (take (last + 1) steps))
slice (raise e) last steps = raise e
slice (ok first) (raise e) steps = raise e

-- The steps of a chain; `none` as a step is `None` or an empty name.
unfoldable pub chain_steps :
    Conditions → String → Option String → Option String → StepResult (List String)
chain_steps c era first last = elim (get c.eras era) [
  | none ↦ raise (unknown_era era)
  | some e ↦
      slice (place_of first 0 e.prod_steps) (place_of last (length e.prod_steps - 1) e.prod_steps)
        e.prod_steps
]

abbrev pub with_steps {ℓ} : {A : Type ℓ} → StepResult (List String) → (List String → Log A) → Log A
with_steps (raise e) k = record { ran = []; result = raise e }
with_steps (ok steps) k = k steps

unfoldable pub run_chain :
    Cms
    → Conditions
    → String
    → Option String
    → Option String
    → ℕ
    → Uri
    → Option Uri
    → Log (Option Uri)
unfolding chain_from
run_chain cms c era first last n_evt work_dir previous =
    with_steps (chain_steps c era first last) (chain_from cms c era work_dir n_evt previous none)

-- `run_nano`, on the shared file in the directory of the job.
unfoldable pub run_nano : Cms → Conditions → String → String → ℕ → Uri → Uri → Log Uri
unfolding run_step
run_nano cms c era version n_evt work_dir miniaod =
    let out = codes "NANO_" ++ (codes version ++ codes ".root") in
    with_params (resolve_step_params c era "NANO" (some version)) (λ params.
      after_step (record { step = "NANO"; filein = some (basename miniaod); fileout = out })
        (run_step cms work_dir n_evt "NANO" params (some (basename miniaod)) out)
        (record { ran = []; result = ok (join work_dir out) }))

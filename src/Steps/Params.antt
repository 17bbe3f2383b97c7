-- ===== src/Steps/Params.antt =====
-- dsprod/run_step.py: the parameters of a step, merged from the layers of the conditions.
use dsprod.Common.{
  ℕ, Bool, true, false, not, List, [], ◌∷◌, Option, none, some, String, or_else, if◌then◌else◌,
  string_eq, ◌==◌,
}
use dsprod.Common.Dict.{Dict, get, get_or, put}

-- The values of the parameters; a number is kept as it is written.
pub data Value : Type 0 where
  text : String → Value
  texts : List String → Value

abbrev pub Params : Type 0
Params = Dict String Value

-- What an era says of a step; `versions` is there for the steps that have them.
pub record StepConditions : Type 0 where
  pub own : Params
  pub versions : Option (Dict String Params)

pub record EraConditions : Type 0 where
  pub default : Params
  pub steps : Dict String StepConditions
  pub prod_steps : List String

pub record Conditions : Type 0 where
  pub default : Params
  pub default_step : Dict String Params
  pub eras : Dict String EraConditions

pub data StepError : Type 0 where
  unknown_era : String → StepError
  unknown_step : String → StepError
  unknown_version : String → String → String → StepError
  failed_process : String → StepError
  unreadable_counts : StepError
  uncounted : ℕ → ℕ → List ℕ → StepError
  short_step : String → ℕ → ℕ → StepError
  wrong_task : StepError
  not_staged : String → StepError
  not_recorded : String → StepError

pub data StepResult {ℓ} (A : Type ℓ) : Type ℓ where
  ok : A → StepResult A
  raise : StepError → StepResult A

-- `params.update(layer)`
abbrev pub update_with {ℓ} : {V : Type ℓ} → Dict String V → Dict String V → Dict String V
update_with params [] = params
update_with params ((k, v) ∷ layer) = update_with (put params k v) layer

-- `era_cond.get(step, {})`
abbrev pub step_conditions : EraConditions → String → StepConditions
step_conditions e step = or_else (get e.steps step) (record { own = []; versions = none })

-- What the era, the step and the defaults say.
abbrev pub unversioned : Conditions → EraConditions → String → Params
unversioned c e step =
    update_with
      (update_with (update_with (update_with [] c.default) (get_or c.default_step step []))
        e.default)
      (step_conditions e step).own

-- `versions[version]`
abbrev pub version_params : EraConditions → String → String → Option Params
version_params e step version = elim (step_conditions e step).versions [
  | none ↦ none
  | some versions ↦ get versions version
]

abbrev pub with_version :
    Conditions → EraConditions → String → String → Option String → StepResult Params
with_version c e era step none = ok (unversioned c e step)
with_version c e era step (some version) = elim (version_params e step version) [
  | none ↦ raise (unknown_version version era step)
  | some params ↦ ok (update_with (unversioned c e step) params)
]

unfoldable pub resolve_step_params :
    Conditions → String → String → Option String → StepResult Params
resolve_step_params c era step version = elim (get c.eras era) [
  | none ↦ raise (unknown_era era)
  | some e ↦ with_version c e era step version
]

-- `bool(params.get(key))`
abbrev pub is_given : Option Value → Bool
is_given none = false
is_given (some (text s)) = not (s == "")
is_given (some (texts [])) = false
is_given (some (texts (s ∷ ss))) = true

-- `params[key] = params[source]`, if that is given.
abbrev pub override : String → Option Value → Params → Params
override key none params = params
override key (some v) params = if is_given (some v) then put params key v else params

unfoldable pub merge_params : Params → Params
merge_params params =
    if is_given (get params "merge_CMSSW")
    then override "SCRAM_ARCH" (get params "merge_SCRAM_ARCH")
        (override "CMSSW" (get params "merge_CMSSW") params)
    else params

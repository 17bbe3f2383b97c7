-- ===== src/Steps/Layers.antt =====
-- dsprod/run_step.py: which layer of the conditions a parameter is taken from.
use dsprod.Common.{
  ◌≡◌, refl, ◌∙◌, ap, false, [], ◌∷◌, Option, none, some, String, arith, string_eq, ◌==◌,
  IsDistinct, elem, subst, eq_of_==, inl, inr, Bool-cases,
}
use dsprod.Common.Dict.{Dict, get, get_or, put, keys, get-put}
use dsprod.Steps.Params.{
  Value, Params, EraConditions, Conditions, ok, update_with, step_conditions, unversioned,
  version_params, with_version, resolve_step_params,
}

-- The first of two that is there.
abbrev pub first_of {ℓ} : {A : Type ℓ} → Option A → Option A → Option A
first_of (some a) b = some a
first_of none b = b

module _ {V : Type 0} where
  get_absent : (d : Dict String V) (k : String) → elem k (keys d) ≡ false → get d k ≡ none
  get_absent [] k h = refl
  get_absent ((j, v) ∷ d) k h = ground (arith, get_absent d k)

  -- The later of two layers wins.
  pub get-update_with :
      (params layer : Dict String V) (k : String)
      → IsDistinct (keys layer)
      → get (update_with params layer) k ≡ first_of (get layer k) (get params k)
  get-update_with params [] k h = refl
  get-update_with params ((j, v) ∷ layer) k h =
      get-update_with (put params j v) layer k h.1 ∙ elim (Bool-cases (j == k)) [
        | inl same ↦
            rw
              (
                get_absent layer k
                    (subst (λ i. elem i (keys layer) ≡ false) (eq_of_== j k same) h.0),
                get-put params j k v,
                same,
              )
              refl
        | inr other ↦ rw (get-put params j k v, other) refl
      ]

first_of-none : {A : Type 0} (a : Option A) → first_of a none ≡ a
first_of-none none = refl
first_of-none (some a) = refl

-- No layer names a parameter twice, as no `dict` does.
pub record AreDicts (c : Conditions) (e : EraConditions) (step : String) : Type 0 where
  pub default : IsDistinct (keys c.default)
  pub default_step : IsDistinct (keys (get_or c.default_step step []))
  pub era_default : IsDistinct (keys e.default)
  pub own : IsDistinct (keys (step_conditions e step).own)

-- The layers below a version: the era's on the step, the era's on all steps, the step's, and the
-- defaults, of which the first that has the parameter is taken.
abbrev pub below_version : Conditions → EraConditions → String → String → Option Value
below_version c e step k = first_of (get (step_conditions e step).own k) (
    first_of (get e.default k) (first_of (get (get_or c.default_step step []) k) (get c.default k)))

-- What a version adds to them.
abbrev pub of_version : EraConditions → String → Option String → Option Params
of_version e step none = some []
of_version e step (some version) = version_params e step version

unversioned-layers :
    (c : Conditions) (e : EraConditions) (step k : String)
    → AreDicts c e step
    → get (unversioned c e step) k ≡ below_version c e step k
unversioned-layers c e step k h =
    get-update_with _ (step_conditions e step).own k h.own
    ∙ ap (first_of _) (
        get-update_with _ e.default k h.era_default
        ∙ ap (first_of _) (
            get-update_with _ (get_or c.default_step step []) k h.default_step
            ∙ ap (first_of _) (get-update_with [] c.default k h.default ∙ first_of-none _)))

same_params : {a b : Params} → some a ≡ some b → a ≡ b
same_params h = cc

-- The parameters of a step are found, if the era and the version are there, and each is taken from
-- the most particular layer that has it: the version's, if one is asked for, the era's on the
-- step, the era's on all steps, the step's, and the defaults. No layer names a parameter twice.
pub resolve_step_params-layers :
    (c : Conditions) (e : EraConditions) (era step : String) (version : Option String)
    (own : Params)
    → get c.eras era ≡ some e
    → AreDicts c e step
    → of_version e step version ≡ some own
    → IsDistinct (keys own)
    → (params : Params) × (resolve_step_params c era step version ≡ ok params)
      × ((k : String) → get params k ≡ first_of (get own k) (below_version c e step k))
unfolding resolve_step_params
resolve_step_params-layers c e era step none own known dicts versioned distinct = (
  unversioned c e step,
  rw (resolve_step_params, known) refl,
  λ k.
      unversioned-layers c e step k dicts
      ∙ ap (λ o. first_of (get o k) (below_version c e step k)) (same_params versioned),
)
resolve_step_params-layers c e era step (some version) own known dicts versioned distinct = (
  update_with (unversioned c e step) own,
  rw (resolve_step_params, known, with_version, versioned) refl,
  λ k.
      get-update_with (unversioned c e step) own k distinct
      ∙ ap (first_of (get own k)) (unversioned-layers c e step k dicts),
)

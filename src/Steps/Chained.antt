-- ===== src/Steps/Chained.antt =====
-- dsprod/run_step.py: what a chain that returns has run.
use dsprod.Common.{
  ℕ, ◌≡◌, refl, sym, ◌⊎◌, true, false, List, [], ◌∷◌, map, ◌<◌, Option, none, some, String, arith,
  nat_beq, inl, inr, Bool-cases,
}
use dsprod.Common.Dict.{Dict, get}
use dsprod.Storage.Paths.{Uri, uri_eq, join}
use dsprod.Steps.Params.{Params, Conditions, StepError, StepResult, ok, raise, resolve_step_params}
use dsprod.Steps.Counts.{read_event_counts-cases}
use dsprod.Steps.Chain.{
  Cms, Ran, judge_count, assert_step_events, run_step, output_of, chain_from, chain_steps,
  run_chain,
}

-- The script has counted the events of a file.
abbrev pub HasEvents : Cms → Uri → ℕ → Type 0
HasEvents cms path n =
    (counts : Dict Uri ℕ) × (cms.counts path ≡ some counts) × (get counts path ≡ some n)

pub StepResult-cases {ℓ} :
    {A : Type ℓ} (r : StepResult A) → ((a : A) × (r ≡ ok a)) ⊎ ((e : StepError) × (r ≡ raise e))
StepResult-cases (ok a) = inl (a, refl)
StepResult-cases (raise e) = inr (e, refl)

pub raised_ok {ℓ} : {A : Type ℓ} {e : StepError} {a : A} → raise e ≡ ok a → ⊥
raised_ok h = cc

judge_count-ok :
    (step : String) (n_evt : ℕ) (ns : List ℕ)
    → judge_count step n_evt (ok ns) ≡ ok tt
    → (rest : List ℕ) × (ns ≡ n_evt ∷ rest)
judge_count-ok step n_evt [] h = cc
judge_count-ok step n_evt (n ∷ ns) h = (ns, ground arith)

first_count : (o : Option ℕ) (n : ℕ) (os : List (Option ℕ)) → o ∷ [] ≡ some n ∷ os → o ≡ some n
first_count o n os h = cc

assert_step_events-ok :
    (cms : Cms) (work_dir : Uri) (step : String) (fileout : Uri) (n_evt : ℕ)
    → assert_step_events cms work_dir step fileout n_evt ≡ ok tt
    → HasEvents cms (join work_dir fileout) n_evt
unfolding assert_step_events
assert_step_events-ok cms work_dir step fileout n_evt h =
    let path = join work_dir fileout in
    elim (read_event_counts-cases (cms.counts path) (path ∷ [])) [
      | inl (counts, ns, written, read, exact) ↦
          let (rest, same) = judge_count-ok step n_evt ns (rw (assert_step_events, read) at h) in
          (counts, written, first_count (get counts path) n_evt (map some rest) (rw same at exact))
      | inr (inl (unwritten, read)) ↦ absurd (raised_ok (rw (assert_step_events, read) at h))
      | inr (inr (counts, p, missing, written, some_missing, read)) ↦
          absurd (raised_ok (rw (assert_step_events, read) at h))
    ]

pub run_step-ok :
    (cms : Cms) (work_dir : Uri) (n_evt : ℕ) (step : String) (params : Params) (filein : Option Uri)
    (fileout : Uri)
    → run_step cms work_dir n_evt step params filein fileout ≡ ok tt
    → (cms.succeeds step params filein fileout ≡ true)
      × (0 < n_evt → HasEvents cms (join work_dir fileout) n_evt)
unfolding run_step
run_step-ok cms work_dir n_evt step params filein fileout h =
    elim (Bool-cases (cms.succeeds step params filein fileout)) [
      | inr fails ↦ absurd (raised_ok (rw (run_step, fails) at h))
      | inl works ↦ (
        works,
        λ pos. assert_step_events-ok cms work_dir step fileout n_evt (
            let some_events : nat_beq n_evt 0 ≡ false = ground arith in
            rw (run_step, works, some_events) at h),
      )
    ]

-- A step that was run, as it is asked for: with its own parameters, on `prev`, to the end, and with as
-- many events in its file as were asked for, if any were.
abbrev pub IsDone : Cms → Conditions → String → Uri → ℕ → Option Uri → String → Ran → Type 0
IsDone cms c era work_dir n_evt prev step r =
    (r ≡ record { step = step; filein = prev; fileout = output_of step })
    × ((params : Params) × (resolve_step_params c era step none ≡ ok params)
        × (cms.succeeds step params prev (output_of step) ≡ true))
    × (0 < n_evt → HasEvents cms (join work_dir (output_of step)) n_evt)

-- The commands are those of the steps, in order, each on the file of the one before.
abbrev pub IsChain :
    Cms → Conditions → String → Uri → ℕ → Option Uri → List String → List Ran → Type 0
IsChain cms c era work_dir n_evt prev [] [] = Unit
IsChain cms c era work_dir n_evt prev [] (r ∷ ran) = ⊥
IsChain cms c era work_dir n_evt prev (step ∷ steps) [] = ⊥
IsChain cms c era work_dir n_evt prev (step ∷ steps) (r ∷ ran) =
    IsDone cms c era work_dir n_evt prev step r
    × IsChain cms c era work_dir n_evt (some (output_of step)) steps ran

-- The file of the last step, or what there was before.
abbrev pub last_file : Uri → Option Uri → List String → Option Uri
last_file work_dir before [] = before
last_file work_dir before (step ∷ steps) =
    last_file work_dir (some (join work_dir (output_of step))) steps

unit_ok : (u : Unit {0}) → ok u ≡ ok tt
unit_ok u = refl

result_path : {a b : Option Uri} → ok a ≡ ok b → a ≡ b
result_path h = cc

chain_from-IsChain :
    (cms : Cms) (c : Conditions) (era : String) (work_dir : Uri) (n_evt : ℕ)
    (prev last_out file : Option Uri) (steps : List String)
    → (chain_from cms c era work_dir n_evt prev last_out steps).result ≡ ok file
    → IsChain cms c era work_dir n_evt prev steps
        (chain_from cms c era work_dir n_evt prev last_out steps).ran
      × (file ≡ last_file work_dir last_out steps)
unfolding chain_from
chain_from-IsChain cms c era work_dir n_evt prev last_out file [] h = (tt, sym (result_path h))
chain_from-IsChain cms c era work_dir n_evt prev last_out file (step ∷ steps) h =
    elim (StepResult-cases (resolve_step_params c era step none)) [
      | inr (e, unresolved) ↦ absurd (raised_ok (rw (chain_from, unresolved) at h))
      | inl (params, resolved) ↦
          elim (StepResult-cases (run_step cms work_dir n_evt step params prev (output_of step))) [
            | inr (e, fails) ↦ absurd (raised_ok (rw (chain_from, resolved, fails) at h))
            | inl (u, works) ↦
                let (succeeds, events) =
                  run_step-ok cms work_dir n_evt step params prev (output_of step) works in
                let (chain, last) =
                  chain_from-IsChain cms c era work_dir n_evt (some (output_of step))
                    (some (join work_dir (output_of step))) file steps
                    (rw (chain_from, resolved, works) at h) in
                rw (chain_from, resolved, works)
                  (((refl, (params, resolved, succeeds), events), chain), last)
          ]
    ]

-- A chain that returns has run exactly its steps, in order, each on the file of the one before and
-- the first on the file that the chain was given; each command succeeded, and CMSSW counted as
-- many events in each file as were asked for, if any were. It returns the file of the last step.
pub run_chain-IsChain :
    (cms : Cms) (c : Conditions) (era : String) (first last : Option String) (n_evt : ℕ)
    (work_dir : Uri) (previous file : Option Uri)
    → (run_chain cms c era first last n_evt work_dir previous).result ≡ ok file
    → (steps : List String) × (chain_steps c era first last ≡ ok steps)
      × IsChain cms c era work_dir n_evt previous steps
          (run_chain cms c era first last n_evt work_dir previous).ran
      × (file ≡ last_file work_dir none steps)
unfolding run_chain
run_chain-IsChain cms c era first last n_evt work_dir previous file h =
    elim (StepResult-cases (chain_steps c era first last)) [
      | inr (e, unknown) ↦ absurd (raised_ok (rw (run_chain, unknown) at h))
      | inl (steps, known) ↦
          let (chain, exact) =
            chain_from-IsChain cms c era work_dir n_evt previous none file steps
              (rw (run_chain, known) at h) in
          rw known (steps, refl, chain, exact)
    ]

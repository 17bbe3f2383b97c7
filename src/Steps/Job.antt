-- ===== src/Steps/Job.antt =====
-- dsprod/tasks.py: `RunProd.run`, from its guard to the records that it writes.
--
-- Whether an upload succeeds is an argument. The gridpack, the fragment and the premix list, which are
-- handed to the commands, are not modelled.
use dsprod.Common.{
  ℕ, ◌≡◌, ◌<◌, refl, ap, Bool, true, false, ◌&&◌, not, List, [], ◌∷◌, ◌++◌, Option, none, some,
  String, if◌then◌else◌, inl, inr, Bool-cases, codes, elem, string_eq, ◌==◌, ==-refl,
}
use dsprod.Storage.Paths.{Uri, join, basename}
use dsprod.Steps.Params.{
  Conditions, StepError, unknown_step, wrong_task, not_staged, not_recorded, StepResult, ok, raise,
  resolve_step_params,
}
use dsprod.Steps.Chain.{Cms, run_step, run_chain, run_nano}
use dsprod.Steps.Chained.{HasEvents, StepResult-cases, raised_ok, run_step-ok}

-- What a job does to the storage.
pub data Act : Type 0 where
  staged : String → Act
  recorded : String → Act

pub record Made : Type 0 where
  pub acts : List Act
  pub result : StepResult (Unit {0})

-- Which uploads succeed, of a version's nano file and of its record.
pub record Uploads : Type 0 where
  pub stages : String → Bool
  pub records : String → Bool

-- A job on a batch node that was submitted to run another task.
abbrev pub is_foreign : Bool → Option String → String → Bool
is_foreign on_batch_node none family = false
is_foreign on_batch_node (some submitted) family = on_batch_node && not (submitted == family)

abbrev pub failed_with : StepError → Made
failed_with e = record { acts = []; result = raise e }

abbrev pub deliver : Uploads → String → Made → Made
deliver u version rest =
    if not (u.stages version)
    then failed_with (not_staged version)
    else (if not (u.records version)
        then record { acts = staged version ∷ []; result = raise (not_recorded version) }
        else record rest { acts = staged version ∷ recorded version ∷ rest.acts })

-- The loop over the versions.
unfoldable pub make_versions :
    Cms → Conditions → Uploads → String → ℕ → Uri → Uri → List String → Made
make_versions cms c u era n_evt work_dir miniaod [] = record { acts = []; result = ok tt }
make_versions cms c u era n_evt work_dir miniaod (version ∷ versions) =
    let rest = make_versions cms c u era n_evt work_dir miniaod versions in
    elim (run_nano cms c era version n_evt work_dir miniaod).result [
      | raise e ↦ failed_with e
      | ok file ↦ deliver u version rest
    ]

-- `RunProd.run`; `None` as the chain's file cannot be passed on.
unfoldable pub runprod :
    Cms
    → Conditions
    → Uploads
    → Bool
    → Option String
    → String
    → String
    → Option String
    → ℕ
    → Uri
    → List String
    → Made
unfolding make_versions
runprod cms c u on_batch_node submitted family era first_step n_evt work_dir versions =
    if is_foreign on_batch_node submitted family
    then failed_with wrong_task
    else elim (run_chain cms c era first_step (some "MINIAOD") n_evt work_dir none).result [
      | raise e ↦ failed_with e
      | ok none ↦ failed_with (unknown_step "MINIAOD")
      | ok (some miniaod) ↦ make_versions cms c u era n_evt work_dir miniaod versions
    ]

-- `f"NANO_{version}.root"`
abbrev pub nano_output : String → Uri
nano_output version = codes "NANO_" ++ (codes version ++ codes ".root")

run_nano-ok :
    (cms : Cms) (c : Conditions) (era version : String) (n_evt : ℕ) (work_dir miniaod file : Uri)
    → (run_nano cms c era version n_evt work_dir miniaod).result ≡ ok file
    → 0 < n_evt
    → HasEvents cms (join work_dir (nano_output version)) n_evt
unfolding run_nano
run_nano-ok cms c era version n_evt work_dir miniaod file h pos =
    elim (StepResult-cases (resolve_step_params c era "NANO" (some version))) [
      | inr (e, unresolved) ↦ absurd (raised_ok (rw (run_nano, unresolved) at h))
      | inl (params, resolved) ↦
          elim (StepResult-cases (
            run_step cms work_dir n_evt "NANO" params (some (basename miniaod))
              (nano_output version))) [
                | inr (e, fails) ↦ absurd (raised_ok (rw (run_nano, resolved, fails) at h))
                | inl (u, works) ↦
                    (run_step-ok cms work_dir n_evt "NANO" params (some (basename miniaod))
                        (nano_output version) works).1
                      pos
              ]
    ]

-- A nano file is staged only with the events that were asked for, and a record is written only for a
-- version that was staged before; `seen` are those.
abbrev pub IsFaithful : Cms → Uri → ℕ → List String → List Act → Type 0
IsFaithful cms work_dir n_evt seen [] = Unit
IsFaithful cms work_dir n_evt seen (staged v ∷ acts) =
    (0 < n_evt → HasEvents cms (join work_dir (nano_output v)) n_evt)
    × IsFaithful cms work_dir n_evt (v ∷ seen) acts
IsFaithful cms work_dir n_evt seen (recorded v ∷ acts) =
    (elem v seen ≡ true) × IsFaithful cms work_dir n_evt seen acts

-- Each version staged and recorded.
abbrev pub all_made : List String → List Act
all_made [] = []
all_made (v ∷ versions) = staged v ∷ recorded v ∷ all_made versions

make_versions-IsFaithful :
    (cms : Cms) (c : Conditions) (u : Uploads) (era : String) (n_evt : ℕ) (work_dir miniaod : Uri)
    (versions seen : List String)
    → IsFaithful cms work_dir n_evt seen
        (make_versions cms c u era n_evt work_dir miniaod versions).acts
      × ((make_versions cms c u era n_evt work_dir miniaod versions).result ≡ ok tt
          → (make_versions cms c u era n_evt work_dir miniaod versions).acts ≡ all_made versions)
unfolding make_versions
make_versions-IsFaithful cms c u era n_evt work_dir miniaod [] seen = (tt, λ h. refl)
make_versions-IsFaithful cms c u era n_evt work_dir miniaod (v ∷ versions) seen =
    elim (StepResult-cases (run_nano cms c era v n_evt work_dir miniaod).result) [
      | inr (e, fails) ↦ rw (make_versions, fails) (tt, λ h. absurd (raised_ok h))
      | inl (file, works) ↦
          rw (make_versions, works)
            (elim (Bool-cases (u.stages v)) [
              | inr lost ↦ rw lost (tt, λ h. absurd (raised_ok h))
              | inl put ↦ rw put (elim (Bool-cases (u.records v)) [
                | inr lost ↦ rw lost (
                  (run_nano-ok cms c era v n_evt work_dir miniaod file works, tt),
                  λ h. absurd (raised_ok h),
                )
                | inl noted ↦
                    let (rest, all) =
                      make_versions-IsFaithful cms c u era n_evt work_dir miniaod versions
                        (v ∷ seen) in
                    rw noted (
                      (
                        run_nano-ok cms c era v n_evt work_dir miniaod file works,
                        (rw (==-refl v) refl, rest),
                      ),
                      λ h. ap (λ acts. staged v ∷ recorded v ∷ acts) (all h),
                    )
              ])
            ])
    ]

-- However a job ends, it writes the record of a version only after the nano file of that version
-- was staged, and stages a nano file only if CMSSW counted as many events in it as were asked for,
-- if any were. A job that returns was submitted for this task or does not run on a batch node, or
-- is not known to be, and has staged and recorded every version, in order.
pub runprod-IsFaithful :
    (cms : Cms) (c : Conditions) (u : Uploads) (on_batch_node : Bool) (submitted : Option String)
    (family era : String) (first_step : Option String) (n_evt : ℕ) (work_dir : Uri)
    (versions : List String)
    → IsFaithful cms work_dir n_evt []
        (runprod cms c u on_batch_node submitted family era first_step n_evt work_dir versions).acts
      × ((runprod cms c u on_batch_node submitted family era first_step n_evt work_dir
              versions).result
            ≡ ok tt
          → ((runprod cms c u on_batch_node submitted family era first_step n_evt work_dir
                versions).acts
              ≡ all_made versions)
            × (is_foreign on_batch_node submitted family ≡ false))
unfolding runprod
runprod-IsFaithful cms c u on_batch_node submitted family era first_step n_evt work_dir versions =
    elim (Bool-cases (is_foreign on_batch_node submitted family)) [
      | inl foreign ↦ rw (runprod, foreign) (tt, λ h. absurd (raised_ok h))
      | inr own ↦
          elim (StepResult-cases
            (run_chain cms c era first_step (some "MINIAOD") n_evt work_dir none).result) [
              | inr (e, fails) ↦ rw (runprod, own, fails) (tt, λ h. absurd (raised_ok h))
              | inl (none, empty) ↦ rw (runprod, own, empty) (tt, λ h. absurd (raised_ok h))
              | inl (some miniaod, chained) ↦
                  let (faithful, all) =
                    make_versions-IsFaithful cms c u era n_evt work_dir miniaod versions [] in
                  rw (runprod, own, chained) (faithful, λ h. (all h, refl))
            ]
    ]

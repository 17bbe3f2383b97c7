-- ===== src/Tests/Steps.antt =====
-- dsprod/run_step.py and the run of a `RunProd` job, at concrete inputs: an era of two steps.
use dsprod.Common.{
  length, ℕ, ◌≡◌, ◌⊎◌, refl, true, false, not, List, [], ◌∷◌, map, none, some, String, codes,
  filter, string_eq,
}
use dsprod.Common.Dict.{Dict, get, has}
use dsprod.Storage.Paths.{Uri, uri_eq, join}
use dsprod.Steps.Params.{
  text, Params, Conditions, EraConditions, unreadable_counts, uncounted, short_step, ok, raise,
  resolve_step_params, merge_params,
}
use dsprod.Steps.Layers.{resolve_step_params-layers, first_of, below_version}
use dsprod.Steps.Counts.{read_event_counts, read_event_counts-cases}
use dsprod.Steps.Chain.{
  Cms, run_chain, chain_steps, chain_from, run_step, assert_step_events, run_nano,
}
use dsprod.Steps.Chained.{IsChain, last_file, run_chain-IsChain}
use dsprod.Steps.Job.{
  Uploads, runprod, make_versions, IsFaithful, all_made, is_foreign, runprod-IsFaithful,
}

abbrev era_2022 : EraConditions
era_2022 = record {
  default = ("GlobalTag", text "tag_2022") ∷ [];
  steps =
      ("GEN", record { own = ("datatier", text "GEN-SIM") ∷ []; versions = none })
      ∷ (
        "NANO",
        record {
          own = ("datatier", text "NANOAOD") ∷ [];
          versions = some (
              ("v12", ("CMSSW", text "13X") ∷ ("merge_CMSSW", text "15X") ∷ []) ∷ ("v15", []) ∷ []);
        },
      )
      ∷ [];
  prod_steps = "GEN" ∷ "MINIAOD" ∷ [];
}

abbrev conditions : Conditions
conditions = record {
  default = ("CMSSW", text "12X") ∷ ("GlobalTag", text "any") ∷ [];
  default_step = ("GEN", ("beamspot", text "realistic") ∷ []) ∷ [];
  eras = ("2022", era_2022) ∷ [];
}

merged_release :
    merge_params (("CMSSW", text "13X") ∷ ("merge_CMSSW", text "15X") ∷ [])
    ≡ ("CMSSW", text "15X") ∷ ("merge_CMSSW", text "15X") ∷ []
unfolding merge_params
merged_release = refl

resolve_step_params-layers_example :
    (params : Params) × (resolve_step_params conditions "2022" "NANO" (some "v12") ≡ ok params)
    × ((k : String)
        → get params k
          ≡ first_of
              (get (("CMSSW", text "13X") ∷ ("merge_CMSSW", text "15X") ∷ []) k)
              (below_version conditions era_2022 "NANO" k))
resolve_step_params-layers_example =
    resolve_step_params-layers conditions era_2022 "2022" "NANO" (some "v12")
      (("CMSSW", text "13X") ∷ ("merge_CMSSW", text "15X") ∷ []) refl
      (record {
        default = (refl, (refl, tt));
        default_step = tt;
        era_default = (refl, tt);
        own = (refl, tt);
      })
      refl (refl, (refl, tt))

-- Every step makes ten events, and each count finds them.
abbrev cms : Cms
cms = record {
  succeeds = λ step params filein fileout. true;
  counts = λ path. some ((path, 10) ∷ []);
}

abbrev work : Uri
work = codes "/tmp/job"

run_chain-IsChain_example :
    (steps : List String) × (chain_steps conditions "2022" none (some "MINIAOD") ≡ ok steps)
    × IsChain cms conditions "2022" work 10 none steps
        (run_chain cms conditions "2022" none (some "MINIAOD") 10 work none).ran
    × (some (codes "/tmp/job/MINIAOD.root") ≡ last_file work none steps)
unfolding run_chain chain_steps chain_from run_step assert_step_events read_event_counts
    resolve_step_params join
run_chain-IsChain_example =
    run_chain-IsChain cms conditions "2022" none (some "MINIAOD") 10 work none
      (some (codes "/tmp/job/MINIAOD.root")) refl

-- Eleven events are asked for, and the first step is found short.
short :
    (run_chain cms conditions "2022" none (some "MINIAOD") 11 work none).result
    ≡ raise (short_step "GEN" 11 10)
unfolding run_chain chain_steps chain_from run_step assert_step_events read_event_counts
    resolve_step_params join
short = refl

abbrev one_count : Dict Uri ℕ
one_count = (codes "a", 3) ∷ []

read_event_counts-cases_example :
    ((counts : Dict Uri ℕ) × (ns : List ℕ) × (some one_count ≡ some counts)
      × (read_event_counts (some one_count) (codes "a" ∷ codes "b" ∷ []) ≡ ok ns)
      × (map (get counts) (codes "a" ∷ codes "b" ∷ []) ≡ map some ns))
    ⊎ (((some one_count ≡ none)
          × (read_event_counts (some one_count) (codes "a" ∷ codes "b" ∷ [])
              ≡ raise unreadable_counts))
        ⊎ ((counts : Dict Uri ℕ) × (p : Uri) × (missing : List Uri) × (some one_count ≡ some counts)
            × (filter (λ q. not (has counts q)) (codes "a" ∷ codes "b" ∷ []) ≡ p ∷ missing)
            × (read_event_counts (some one_count) (codes "a" ∷ codes "b" ∷ [])
                ≡ raise (uncounted (length (p ∷ missing)) 2 p))))
read_event_counts-cases_example =
    read_event_counts-cases (some one_count) (codes "a" ∷ codes "b" ∷ [])

abbrev uploads : Uploads
uploads = record { stages = λ v. true; records = λ v. true }

runprod-IsFaithful_example :
    IsFaithful cms work 10 []
      (runprod cms conditions uploads true
        (some "RunProd")
        "RunProd"
        "2022"
        none
        10
        work
        ("v12" ∷ "v15" ∷ [])).acts
    × ((runprod cms conditions uploads true
            (some "RunProd")
            "RunProd"
            "2022"
            none
            10
            work
            ("v12" ∷ "v15" ∷ [])).result
          ≡ ok tt
        → ((runprod cms conditions uploads true
              (some "RunProd")
              "RunProd"
              "2022"
              none
              10
              work
              ("v12" ∷ "v15" ∷ [])).acts
            ≡ all_made ("v12" ∷ "v15" ∷ []))
          × (is_foreign true (some "RunProd") "RunProd" ≡ false))
runprod-IsFaithful_example =
    runprod-IsFaithful cms conditions uploads true (some "RunProd") "RunProd" "2022" none 10 work
      ("v12" ∷ "v15" ∷ [])

returns :
    (runprod cms conditions uploads true
      (some "RunProd")
      "RunProd"
      "2022"
      none
      10
      work
      ("v12" ∷ "v15" ∷ [])).result
    ≡ ok tt
unfolding runprod make_versions run_nano run_chain chain_steps chain_from run_step
    assert_step_events read_event_counts resolve_step_params join
returns = refl

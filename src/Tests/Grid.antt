-- ===== src/Tests/Grid.antt =====
-- dsprod/crab.py, the list of sites and the job file, and dsprod/site_stats.py, a restart, at concrete inputs.
use dsprod.Common.{
  ℕ, zero, suc, ◌≡◌, ◌≤◌, refl, true, false, List, [], ◌∷◌, ◌++◌, All, none, some, String, codes,
  length, str, string_eq, ◌==◌,
}
use dsprod.Requests.Cric.{
  Payload, parse_cric_sites, CacheFile, processing_sites, processing_sites-IsFrom, IsFrom,
  cric_min_sites, check_sites,
}
use dsprod.Storage.Paths.{Uri}
use dsprod.Requests.JobFile.{
  IsTransferFree, rewrite_lines-drops_list, rewrite_lines, missing_law_source, no_outputs,
}
use dsprod.SiteStats.Types.{SiteStats, defaults, is_site}
use dsprod.SiteStats.Validity.{IsValid}
use dsprod.SiteStats.Persistence.{Numbers, load, save}
use dsprod.SiteStats.Restart.{load-save}

abbrev table : Payload
table = record {
  columns = "type" ∷ "alias" ∷ [];
  rows =
      ("psn" ∷ "T2_US_MIT" ∷ [])
      ∷ ("cms" ∷ "T2_FR" ∷ [])
      ∷ ("psn" ∷ "T1_DE_KIT" ∷ [])
      ∷ ("psn" ∷ "T2_US_MIT" ∷ [])
      ∷ [];
}

parsed : parse_cric_sites table ≡ "T1_DE_KIT" ∷ "T2_US_MIT" ∷ []
unfolding parse_cric_sites
parsed = refl

abbrev numbered : ℕ → List String
numbered zero = []
numbered (suc n) = str n ∷ numbered n

abbrev kept : CacheFile
kept = record { age = 90000; names = some (numbered 60) }

-- CRIC answers with a short table, so the older list is used.
processing_sites-IsFrom_example :
    (cric_min_sites ≤ length (numbered 60)) × IsFrom (some kept) (some table) (numbered 60)
unfolding processing_sites parse_cric_sites check_sites str
processing_sites-IsFrom_example =
    processing_sites-IsFrom (some kept) true (some table) (numbered 60) refl

abbrev job_file : List (List ℕ)
job_file =
    codes "cfg.General.transferOutputs = True\n"
    ∷ codes "cfg.JobType.outputFiles = [\n"
    ∷ codes "  'a.root',\n"
    ∷ codes "]\n"
    ∷ codes "cfg.Site.storageSite = 'T2'\n"
    ∷ []

rewritten : rewrite_lines false job_file ≡ no_outputs ∷ codes "cfg.Site.storageSite = 'T2'\n" ∷ []
unfolding rewrite_lines
rewritten = refl

abbrev site_line : Uri
site_line = codes "cfg.Site.storageSite = 'T2'\n"

abbrev opening : Uri
opening = codes "cfg.JobType.outputFiles = [\n"

abbrev output_file : Uri
output_file = codes "'out.root',\n"

abbrev closing : Uri
closing = codes "]\n"

rewrite_lines-drops_list_example :
    (rewrite_lines false
        ((site_line ∷ []) ++ (opening ∷ ((output_file ∷ []) ++ (closing ∷ site_line ∷ []))))
      ≡ (site_line ∷ []) ++ rewrite_lines false (site_line ∷ []))
    × All IsTransferFree (
        rewrite_lines false
          ((site_line ∷ []) ++ (opening ∷ ((output_file ∷ []) ++ (closing ∷ site_line ∷ [])))))
rewrite_lines-drops_list_example =
    rewrite_lines-drops_list (site_line ∷ []) opening (output_file ∷ []) closing (site_line ∷ [])
      ((refl, refl, refl), tt) (refl, refl, refl, refl) (((refl, refl, refl), refl), tt)
      (refl, refl, refl) refl

-- The second source does not appear in six attempts.
law_missing :
    missing_law_source (λ path n. path == "crab_wrapper.sh") 5 ("crab_wrapper.sh" ∷ "PSet.py" ∷ [])
    ≡ some "PSet.py"
unfolding missing_law_source
law_missing = refl

abbrev numbers : Numbers
numbers = record { float_of = λ s. none; int_of = λ s. none }

abbrev started : SiteStats
started = record { cfg = defaults; sites = []; in_flight = []; dirty = false }

abbrev at_end : SiteStats
at_end = record started {
  sites =
      (
        "T2_US_MIT",
        record {
          events = record { at = 100; ok = false } ∷ record { at = 200; ok = true } ∷ [];
          quarantined_until = 0;
          quarantines = 2;
          cleared_at = 50;
        },
      )
      ∷ [];
  dirty = true;
}

at_end-IsValid : IsValid at_end
unfolding is_site
at_end-IsValid = record { distinct = (refl, tt); recorded = (refl, tt); flying = tt }

load-save_example : load numbers (save at_end).1 started ≡ record started { sites = at_end.sites }
load-save_example = load-save numbers at_end started at_end-IsValid refl

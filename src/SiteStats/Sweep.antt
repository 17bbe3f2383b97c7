-- ===== src/SiteStats/Sweep.antt =====
-- dsprod/site_stats.py: the loop of `_quarantine` judges every site on the same evidence, although
-- it changes the records as it goes.
use mathlib.Core.List.{append_assoc, append-nil}
use dsprod.Common.{
  ℕ, ◌-◌, ◌*◌, max, ◌||◌, ◌≡◌, refl, sym, ap, ◌∙◌, Bool, true, false, [], ◌∷◌, ◌++◌, String,
  if◌then◌else◌, string_eq,
}
use dsprod.Common.Dict.{Dict}
use dsprod.SiteStats.Types.{Config, SiteRecord, SiteStats}
use dsprod.SiteStats.Judgement.{Tally, counts, ended_since, others}
use dsprod.SiteStats.Operations.{is_convicted, sentence, quarantine_from, quarantine}

-- Each record that `verdict` convicts is sentenced, and the others stay.
unfoldable pub sweep :
    Config → ℕ → (String → SiteRecord → Bool) → Dict String SiteRecord → Dict String SiteRecord
sweep cfg now verdict [] = []
sweep cfg now verdict ((site, rec) ∷ sites) =
    (site, if verdict site rec then sentence cfg now rec else rec) ∷ sweep cfg now verdict sites

others-replace :
    (tally : String → SiteRecord → Tally) (site name : String) (rec rec' : SiteRecord)
    (done todo : Dict String SiteRecord)
    → tally name rec ≡ tally name rec'
    → others tally site (done ++ (name, rec) ∷ todo)
      ≡ others tally site (done ++ (name, rec') ∷ todo)
unfolding others
others-replace tally site name rec rec' [] todo h = rw h
others-replace tally site name rec rec' ((x, r) ∷ done) todo h =
    rw (others-replace tally site name rec rec' done todo h)

-- A conviction does not touch the evidence.
is_convicted-replace :
    (s : SiteStats) (now : ℕ) (name : String) (rec : SiteRecord) (guilty : Bool)
    (done todo : Dict String SiteRecord) (b : Bool) (y : String) (q : SiteRecord)
    → is_convicted
        (record s {
          sites = (done ++ (name, if guilty then sentence s.cfg now rec else rec) ∷ []) ++ todo;
          dirty = b;
        })
        now
        y
        q
      ≡ is_convicted (record s { sites = done ++ (name, rec) ∷ todo }) now y q
unfolding is_convicted sentence
is_convicted-replace s now name rec true done todo b y q =
    let since = max (now - s.cfg.burst_minutes * 60) q.cleared_at in
    rw (
      append_assoc,
      ← others-replace (λ _ r. ended_since r since) y name rec (sentence s.cfg now rec) done todo
          refl,
      ← others-replace (λ x r. counts s x r 0) y name rec (sentence s.cfg now rec) done todo refl,
    )
is_convicted-replace s now name rec false done todo b y q = rw append_assoc

quarantine_from-sweep :
    (s : SiteStats) (now : ℕ) (done todo : Dict String SiteRecord)
    (verdict : String → SiteRecord → Bool)
    → ((y : String) (q : SiteRecord)
        → is_convicted (record s { sites = done ++ todo }) now y q ≡ verdict y q)
    → (quarantine_from s now done todo).sites ≡ done ++ sweep s.cfg now verdict todo
unfolding quarantine_from sweep
quarantine_from-sweep s now done [] verdict same = sym (append-nil _)
quarantine_from-sweep s now done ((x, r) ∷ todo) verdict same =
    let guilty = is_convicted (record s { sites = done ++ (x, r) ∷ todo }) now x r in
    let r' = if guilty then sentence s.cfg now r else r in
    quarantine_from-sweep (record s { dirty = s.dirty || guilty }) now (done ++ (x, r') ∷ []) todo
      verdict
      (λ y q. is_convicted-replace s now x r guilty done todo (s.dirty || guilty) y q ∙ same y q)
    ∙ append_assoc done ((x, r') ∷ []) _
    ∙ ap (λ b. done ++ (x, if b then sentence s.cfg now r else r) ∷ sweep s.cfg now verdict todo)
        (same x r)

-- Every site is judged on the records as they were before the sweep: the sites convicted earlier
-- in the same round change nobody's baseline.
pub quarantine-sweep :
    (s : SiteStats) (now : ℕ)
    → (quarantine s now).sites ≡ sweep s.cfg now (is_convicted s now) s.sites
unfolding quarantine quarantine_from
quarantine-sweep s now = quarantine_from-sweep s now [] s.sites (is_convicted s now) (λ y q. refl)

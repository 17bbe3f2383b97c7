-- ===== src/SiteStats/Bans.antt =====
-- dsprod/site_stats.py: what the upkeep of `blacklist` does to each record.
use mathlib.Core.Option
use dsprod.Common.{
  ℕ, ◌-◌, ◌*◌, ◌<◌, ◌≡◌, refl, inl, inr, ap, ◌∙◌, Bool, false, [], ◌∷◌, some, String, arith,
  if◌then◌else◌, lt→ltb, Bool-cases, ◌==◌, string_eq, eq_of_==,
}
use dsprod.Common.Dict.{Dict, get}
use dsprod.SiteStats.Types.{Config, SiteRecord, SiteStats}
use dsprod.SiteStats.Operations.{
  map_values, prune_record, prune, expire_record, expire, is_convicted, sentence, judge,
}
use dsprod.SiteStats.Sweep.{sweep, quarantine-sweep}

get-map_values :
    (f : SiteRecord → SiteRecord) (sites : Dict String SiteRecord) (site : String)
    → get (map_values f sites) site ≡ Option.map f (get sites site)
get-map_values f [] site = refl
get-map_values f ((x, r) ∷ sites) site = ground (arith, get-map_values f sites site)

get-sweep :
    (cfg : Config) (now : ℕ) (verdict : String → SiteRecord → Bool) (sites : Dict String SiteRecord)
    (site : String)
    → get (sweep cfg now verdict sites) site
      ≡ Option.map (λ r. if verdict site r then sentence cfg now r else r) (get sites site)
unfolding sweep
get-sweep cfg now verdict [] site = refl
get-sweep cfg now verdict ((x, r) ∷ sites) site = elim (Bool-cases (x == site)) [
  | inl same ↦ rw (same, eq_of_== x site same)
  | inr other ↦ rw other (get-sweep cfg now verdict sites site)
]

-- A record after the window has moved on and a ban that has run out is lifted.
abbrev pub kept_up : SiteStats → ℕ → SiteRecord → SiteRecord
kept_up s now rec = expire_record now (prune_record (now - s.cfg.window_hours * 3600) rec)

-- The upkeep, record by record: the site is sentenced if it is convicted on the evidence that is
-- left once every record is brought up to date.
abbrev pub judged : SiteStats → ℕ → String → SiteRecord → SiteRecord
judged s now site rec =
    if is_convicted (expire (prune s now) now) now site (kept_up s now rec)
    then sentence s.cfg now (kept_up s now rec)
    else kept_up s now rec

get-kept_up :
    (s : SiteStats) (now : ℕ) (site : String)
    → get (expire (prune s now) now).sites site ≡ Option.map (kept_up s now) (get s.sites site)
unfolding expire prune
get-kept_up s now site =
    get-map_values (expire_record now) _ site
    ∙ ap (Option.map (expire_record now)) (get-map_values (prune_record _) s.sites site)
    ∙ Option.map-map (expire_record now) (prune_record _) (get s.sites site)

expire-prune-cfg : (s : SiteStats) (now : ℕ) → (expire (prune s now) now).cfg ≡ s.cfg
unfolding expire prune
expire-prune-cfg s now = refl

pub get-judge :
    (s : SiteStats) (now : ℕ) (site : String)
    → get (judge s now).sites site ≡ Option.map (judged s now site) (get s.sites site)
unfolding judge expire prune
get-judge s now site =
    rw (quarantine-sweep, get-sweep, get-kept_up, expire-prune-cfg)
      (Option.map-map _ (kept_up s now) (get s.sites site))

is_convicted_running :
    (s : SiteStats) (now : ℕ) (site : String) (rec : SiteRecord)
    → now < rec.quarantined_until
    → is_convicted s now site rec ≡ false
unfolding is_convicted
is_convicted_running s now site rec h = rw (lt→ltb now rec.quarantined_until h)

kept_up_running :
    (s : SiteStats) (now : ℕ) (rec : SiteRecord)
    → now < rec.quarantined_until
    → ((kept_up s now rec).quarantined_until ≡ rec.quarantined_until)
      × ((kept_up s now rec).quarantines ≡ rec.quarantines)
kept_up_running s now rec h = ground arith

-- For a site that has a record, a ban that is running is neither ended, nor renewed, nor counted
-- again by a round of judgement.
pub judge-keeps_ban :
    (s : SiteStats) (now : ℕ) (site : String) (rec : SiteRecord)
    → get s.sites site ≡ some rec
    → now < rec.quarantined_until
    → (rec' : SiteRecord) × (get (judge s now).sites site ≡ some rec')
      × (rec'.quarantined_until ≡ rec.quarantined_until)
      × (rec'.quarantines ≡ rec.quarantines)
judge-keeps_ban s now site rec found running =
    let (same, count) = kept_up_running s now rec running in
    let free =
      is_convicted_running (expire (prune s now) now) now site (kept_up s now rec)
        (rw same running) in
    (kept_up s now rec, rw (get-judge, found, free), same, count)

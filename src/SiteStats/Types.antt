-- ===== src/SiteStats/Types.antt =====
-- dsprod/site_stats.py: the settings, the record of a site and the state of `SiteStats`.
--
-- Times are whole seconds and settings in hours or minutes whole numbers; the rates of the
-- settings are quotients of natural numbers. The floats of the source are exact at such values.
use dsprod.Common.{
  codes, ◌≡◌, refl, ℕ, Bool, true, false, ◌&&◌, ◌||◌, not, List, [], ◌∷◌, String, leb, nat_beq,
}
use dsprod.Common.Dict.{Dict}
use dsprod.Common.Ratio.{Ratio}

is_digit : ℕ → Bool
is_digit c = leb b'0' c && leb c b'9'

is_name_char : ℕ → Bool
unfolding is_digit
is_name_char c =
    leb b'A' c && leb c b'Z' || (leb b'a' c && leb c b'z') || is_digit c || nat_beq c b'_'

-- `[A-Za-z0-9_]*$`: `$` also matches before a newline that ends the text
name_rest : List ℕ → Bool
unfolding is_name_char
name_rest [] = true
name_rest (c ∷ []) = is_name_char c || nat_beq c 10
name_rest (c ∷ d ∷ cs) = is_name_char c && name_rest (d ∷ cs)

-- `^T\d_[A-Za-z0-9_]+$` over ASCII text
matches_site : List ℕ → Bool
unfolding name_rest
matches_site (t ∷ d ∷ u ∷ c ∷ cs) =
    nat_beq t b'T' && is_digit d && nat_beq u b'_' && is_name_char c && name_rest cs
matches_site _ = false

unfoldable pub is_site : String → Bool
unfolding matches_site
is_site name = matches_site (codes name)

pub record Config : Type 0 where
  pub enabled : Bool
  pub min_failures : ℕ
  pub min_failure_rate : Ratio
  pub relative_factor : Ratio
  pub min_baseline_jobs : ℕ
  pub quarantine_hours : ℕ
  pub max_quarantine_hours : ℕ
  pub burst_failures : ℕ
  pub burst_minutes : ℕ
  pub window_hours : ℕ
  pub max_sites : ℕ

abbrev pub defaults : Config
defaults = record {
  enabled = true;
  min_failures = 5;
  min_failure_rate = record { num = 1; den = 2 };
  relative_factor = record { num = 2; den = 1 };
  min_baseline_jobs = 20;
  quarantine_hours = 24;
  max_quarantine_hours = 768;
  burst_failures = 20;
  burst_minutes = 15;
  window_hours = 24;
  max_sites = 10;
}

-- An entry of the user's mapping; `other` is a key that `DEFAULTS` does not have.
pub data Setting : Type 0 where
  enabled : Bool → Setting
  min_failures : ℕ → Setting
  min_failure_rate : Ratio → Setting
  relative_factor : Ratio → Setting
  min_baseline_jobs : ℕ → Setting
  quarantine_hours : ℕ → Setting
  max_quarantine_hours : ℕ → Setting
  burst_failures : ℕ → Setting
  burst_minutes : ℕ → Setting
  window_hours : ℕ → Setting
  max_sites : ℕ → Setting
  other : String → Setting

-- What `crab.auto_blacklist` may hold: nothing, a Boolean, or a mapping.
pub data UserConfig : Type 0 where
  absent : UserConfig
  flag : Bool → UserConfig
  mapping : List Setting → UserConfig

update : Config → Setting → Config
update c (enabled b) = record c { enabled = b }
update c (min_failures n) = record c { min_failures = n }
update c (min_failure_rate r) = record c { min_failure_rate = r }
update c (relative_factor r) = record c { relative_factor = r }
update c (min_baseline_jobs n) = record c { min_baseline_jobs = n }
update c (quarantine_hours n) = record c { quarantine_hours = n }
update c (max_quarantine_hours n) = record c { max_quarantine_hours = n }
update c (burst_failures n) = record c { burst_failures = n }
update c (burst_minutes n) = record c { burst_minutes = n }
update c (window_hours n) = record c { window_hours = n }
update c (max_sites n) = record c { max_sites = n }
update c (other key) = c

update_all : Config → List Setting → Config
unfolding update
update_all c [] = c
update_all c (s ∷ ss) = update_all (update c s) ss

unfoldable pub resolve_config : UserConfig → Config
unfolding update_all
resolve_config absent = defaults
resolve_config (flag b) = record defaults { enabled = b }
resolve_config (mapping ss) = update_all defaults ss

-- One outcome: when it was recorded, and whether the job finished.
pub record Event : Type 0 where
  pub at : ℕ
  pub ok : Bool

pub record SiteRecord : Type 0 where
  pub events : List Event
  pub quarantined_until : ℕ
  pub quarantines : ℕ
  pub cleared_at : ℕ

abbrev pub new_record : SiteRecord
new_record = record { events = []; quarantined_until = 0; quarantines = 0; cleared_at = 0 }

pub record SiteStats : Type 0 where
  pub cfg : Config
  pub sites : Dict String SiteRecord
  pub in_flight : Dict String ℕ
  pub dirty : Bool

site_names :
    (is_site "T2_EE_Estonia"
      && not (is_site "Unknown")
      && not (is_site "T2_")
      && not (is_site "T2_DE-RWTH"))
    ≡ true
unfolding is_site
site_names = refl

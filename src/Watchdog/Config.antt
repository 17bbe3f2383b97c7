-- ===== src/Watchdog/Config.antt =====
-- dsprod/watchdog.py: the settings of the watchdog, and what `watchdog_config` refuses.
use native.Mathlib.Nat.{mul-le-mul_left}
use dsprod.Common.{
  ℕ, ◌+◌, ◌*◌, ◌≤◌, ◌<◌, ◌≡◌, Bool, true, false, List, [], ◌∷◌, String, arith, ltb, if◌then◌else◌,
}
use dsprod.Common.Ratio.{Ratio}

pub record Config : Type 0 where
  pub enabled : Bool
  pub interval_minutes : ℕ
  pub missed_checks : ℕ
  pub max_per_interval : ℕ
  pub max_per_branch : ℕ
  pub max_stale_fraction : Ratio
  pub dry_run : Bool

abbrev pub defaults : Config
defaults = record {
  enabled = true;
  interval_minutes = 30;
  missed_checks = 2;
  max_per_interval = 5;
  max_per_branch = 1;
  max_stale_fraction = record { num = 1; den = 2 };
  dry_run = false;
}

abbrev pub min_interval_minutes : ℕ
min_interval_minutes = 10

-- An entry of the user's mapping; `other` is a key that `DEFAULTS` does not have.
pub data Setting : Type 0 where
  enabled : Bool → Setting
  interval_minutes : ℕ → Setting
  missed_checks : ℕ → Setting
  max_per_interval : ℕ → Setting
  max_per_branch : ℕ → Setting
  max_stale_fraction : Ratio → Setting
  dry_run : Bool → Setting
  other : String → Setting

-- The `watchdog` entry of a backend's settings; an entry that is not there reads as `mapping []`.
pub data UserConfig : Type 0 where
  null : UserConfig
  flag : Bool → UserConfig
  mapping : List Setting → UserConfig

pub data ConfigError : Type 0 where
  unknown_settings : List String → ConfigError
  too_few_missed_checks too_short_interval : ConfigError

pub data Result : Type 0 where
  ok : Config → Result
  raise : ConfigError → Result

unknown_keys : List Setting → List String
unknown_keys [] = []
unknown_keys (other k ∷ ss) = k ∷ unknown_keys ss
unknown_keys (_ ∷ ss) = unknown_keys ss

update : Config → Setting → Config
update c (enabled b) = record c { enabled = b }
update c (interval_minutes n) = record c { interval_minutes = n }
update c (missed_checks n) = record c { missed_checks = n }
update c (max_per_interval n) = record c { max_per_interval = n }
update c (max_per_branch n) = record c { max_per_branch = n }
update c (max_stale_fraction r) = record c { max_stale_fraction = r }
update c (dry_run b) = record c { dry_run = b }
update c (other k) = c

update_all : Config → List Setting → Config
unfolding update
update_all c [] = c
update_all c (s ∷ ss) = update_all (update c s) ss

checked : Config → Result
checked cfg =
    if ltb cfg.missed_checks 2
    then raise too_few_missed_checks
    else if ltb cfg.interval_minutes min_interval_minutes
    then raise too_short_interval
    else ok cfg

merged : List String → List Setting → Result
unfolding checked update_all
merged [] ss = checked (update_all defaults ss)
merged (k ∷ ks) ss = raise (unknown_settings (k ∷ ks))

unfoldable pub watchdog_config : UserConfig → Result
unfolding merged unknown_keys
watchdog_config null = ok (record defaults { enabled = false })
watchdog_config (flag false) = ok (record defaults { enabled = false })
watchdog_config (flag true) = ok defaults
watchdog_config (mapping ss) = merged (unknown_keys ss) ss

abbrev pub interval_seconds : Config → ℕ
interval_seconds cfg = cfg.interval_minutes * 60

abbrev pub stale_seconds : Config → ℕ
stale_seconds cfg = interval_seconds cfg * cfg.missed_checks

-- `Heartbeat.write_timeout_seconds`
abbrev pub write_timeout_seconds : ℕ
write_timeout_seconds = 300

merged-bounds :
    (unknown : List String) (ss : List Setting) {cfg : Config}
    → merged unknown ss ≡ ok cfg
    → (2 ≤ cfg.missed_checks) × (10 ≤ cfg.interval_minutes)
unfolding merged
merged-bounds [] ss h = ground arith
merged-bounds (k ∷ ks) ss h = ground arith

-- With any settings that `watchdog_config` accepts, a flag that was beaten one interval ago, took
-- its whole time-out to write and was rounded down by a minute is still not stale.
pub watchdog_config-margin :
    (raw : UserConfig) {cfg : Config}
    → watchdog_config raw ≡ ok cfg
    → interval_seconds cfg + write_timeout_seconds + 60 < stale_seconds cfg
unfolding watchdog_config
watchdog_config-margin null h = ground arith
watchdog_config-margin (flag b) h = ground arith
watchdog_config-margin (mapping ss) {cfg} h =
    let (missed, interval) = merged-bounds (unknown_keys ss) ss h in
    omega (arith, mul-le-mul_left (cfg.interval_minutes * 60) missed)

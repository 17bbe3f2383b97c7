-- ===== src/Production/Setup.antt =====
-- dsprod/processes/base.py: `Point`, and dsprod/tasks.py: the selections and the checks of a setup.
--
-- A number of events below 0 produces nothing, as 0 does, so they are natural numbers. What a point
-- hands to its process (`params`) is not read here.
use dsprod.Common.{
  ℕ, Bool, ◌||◌, not, List, [], ◌∷◌, map, String, ltb, nat_beq, if◌then◌else◌, length, filter, any,
  elem, string_eq, nat_eq, fnmatch, or_else,
}
use dsprod.Common.Dict.{Dict, keys, values, get, get_or, put, set_default}
use dsprod.Common.Ratio.{ceil_div}

pub record Point : Type 0 where
  pub process : String
  pub name : String
  pub events_total : Dict String ℕ
  pub events_per_job : ℕ

unfoldable pub n_events : Point → String → ℕ
n_events p era = get_or p.events_total era 0

unfoldable pub n_jobs : Point → String → ℕ
n_jobs p era =
    if nat_beq (n_events p era) 0 || nat_beq p.events_per_job 0
    then 0
    else ceil_div (n_events p era) p.events_per_job

-- `events_total` of a setup: a number for every era, or a mapping.
pub data EventsTotal : Type 0 where
  every_era : ℕ → EventsTotal
  by_era : Dict String ℕ → EventsTotal

pub data SetupError : Type 0 where
  unknown_eras : List String → SetupError
  matches_nothing : List String → SetupError
  produces_nothing : SetupError
  resized_points : List String → SetupError
  partial_files : List (String × String) → SetupError
  no_version : String → SetupError
  zero_division : SetupError

pub data Checked {ℓ} (A : Type ℓ) : Type ℓ where
  ok : A → Checked A
  raise : SetupError → Checked A

-- `{era: f(era) for era in eras}`
abbrev pub table_of {ℓ} : {A : Type ℓ} → (String → A) → Dict String A → List String → Dict String A
table_of f d [] = d
table_of f d (era ∷ eras) = table_of f (put d era (f era)) eras

unfoldable pub events_per_era : EventsTotal → List String → Checked (Dict String ℕ)
events_per_era (every_era n) eras = ok (table_of (λ era. n) [] eras)
events_per_era (by_era totals) eras =
    let unknown = filter (λ era. not (elem era eras)) (keys totals) in
    if nat_beq (length unknown) 0
    then ok (table_of (λ era. get_or totals era 0) [] eras)
    else raise (unknown_eras unknown)

-- `select_by_pattern`; `key` is what a pattern is matched with.
unfoldable pub select_by_pattern {ℓ} :
    {A : Type ℓ} → (A → String) → List A → List String → Checked (List A)
select_by_pattern key values patterns =
    let selected = filter (λ v. any (λ p. fnmatch (key v) p) patterns) values in
    if nat_beq (length patterns) 0
    then ok values
    else if nat_beq (length selected) 0
    then raise (matches_nothing patterns)
    else ok selected

abbrev pub is_produced : List String → Point → Bool
is_produced eras p = any (λ era. ltb 0 (n_events p era)) eras

-- `{era: self.test for era, n in p.events_total.items() if n > 0}`
abbrev pub shortened : ℕ → Point → Point
shortened test p = record p {
  events_total = map (λ e. (e.0, test)) (filter (λ e. ltb 0 e.1) p.events_total);
  events_per_job = test;
}

abbrev narrowed : List String → ℕ → Checked (List Point) → Checked (List Point)
narrowed eras test (raise e) = raise e
narrowed eras test (ok points) =
    let produced = filter (is_produced eras) points in
    if nat_beq (length produced) 0
    then raise produces_nothing
    else if ltb 0 test
    then ok (map (shortened test) produced)
    else ok produced

-- `_select_points`
unfoldable pub select_points : List String → List String → ℕ → List Point → Checked (List Point)
unfolding select_by_pattern
select_points eras patterns test points =
    narrowed eras test (select_by_pattern (λ p. p.name) points patterns)

-- `nano_versions` of a setup: one list for every era, or a mapping with a default.
pub data NanoVersions : Type 0 where
  for_all : List String → NanoVersions
  per_era : Dict String (List String) → NanoVersions

abbrev offered : NanoVersions → String → List String
offered (for_all versions) era = versions
offered (per_era table) era = or_else (get table era) (or_else (get table "default") [])

-- `era_nano_versions`; `wanted` is `--nano-versions`.
unfoldable pub era_nano_versions : NanoVersions → List String → String → Checked (List String)
era_nano_versions setup wanted era =
    let selected = filter (λ v. elem v wanted) (offered setup era) in
    if nat_beq (length wanted) 0
    then ok (offered setup era)
    else if nat_beq (length selected) 0
    then raise (no_version era)
    else ok selected

-- `gridpack_points`, with the process's name for the gridpack of a point.
abbrev seen_from : (Point → String) → Dict String Point → List Point → Dict String Point
seen_from gridpack_name seen [] = seen
seen_from gridpack_name seen (p ∷ ps) =
    seen_from gridpack_name (set_default seen (gridpack_name p) p) ps

unfoldable pub gridpack_points : (Point → String) → List Point → List Point
gridpack_points gridpack_name points = values (seen_from gridpack_name [] points)

-- ===== src/Production/Granularity.antt =====
-- dsprod/tasks.py: `_validate_merge_granularity` accepts only setups whose samples fill whole files.
use native.Mathlib.Nat.{
  le_of_mul-le-mul_right, zero-mul, mod-add-div', zero-mod, mul_assoc, mul_comm,
}
use dsprod.Common.{
  ℕ, zero, suc, ◌+◌, ◌*◌, ◌/◌, ◌%◌, ◌≡◌, ◌≤◌, ◌<◌, refl, sym, ◌∙◌, ap, Bool, false, ◌&&◌, ◌||◌, not,
  List, [], ◌∷◌, ◌++◌, map, Option, none, some, String, arith, ltb, nat_beq, if◌then◌else◌, length,
  filter, any, All, All-mono, none_filtered, length-append, length-map, ◌==◌, Bool-cases, inl, inr,
  nat_eq, string_eq,
}
use dsprod.Common.Dict.{Dict, get_or}
use dsprod.Common.Ratio.{ceil_div, ceil_div-covers, ceil_div-le}
use dsprod.Production.Setup.{
  Point, n_events, n_jobs, SetupError, resized_points, partial_files, zero_division,
}
use dsprod.Production.Numbering.{range_from, seeds_of, groups_from, merge_groups}
use dsprod.Production.Groups.{groups_from-full}

abbrev is_resized : ℕ → Point → Bool
is_resized wanted p = not (nat_beq p.events_per_job wanted)

-- `n and n % per_file`, for a positive `per_file`
abbrev is_partial : ℕ → String × ℕ → Bool
is_partial per_file e = not (nat_beq e.1 0) && not (nat_beq (e.1 % per_file) 0)

abbrev any_events : List Point → Bool
any_events points = any (λ p. any (λ e. not (nat_beq e.1 0)) p.events_total) points

-- The samples that would end in a short file.
unfoldable pub partial_samples : ℕ → List Point → List (String × String)
partial_samples per_file [] = []
partial_samples per_file (p ∷ points) =
    map (λ e. (p.name, e.0)) (filter (is_partial per_file) p.events_total)
    ++ partial_samples per_file points

-- `_validate_merge_granularity`, with `events_per_job` and `files_per_merge` of the setup: what it raises.
unfoldable pub validate_merge_granularity : ℕ → ℕ → List Point → Option SetupError
unfolding partial_samples
validate_merge_granularity wanted files points =
    let resized = filter (is_resized wanted) points in
    let bad = partial_samples (wanted * files) points in
    if ltb 0 (length resized)
    then some (resized_points (map (λ p. p.name) resized))
    else if nat_beq (wanted * files) 0 && any_events points
    then some zero_division
    else if ltb 0 (length bad)
    then some (partial_files bad)
    else none

-- What a setup that is accepted guarantees of a point.
abbrev pub Fills : ℕ → ℕ → Point → Type 0
Fills wanted files p =
    (p.events_per_job ≡ wanted) × All (λ e. e.1 % (wanted * files) ≡ 0) p.events_total

no_partial :
    (per_file : ℕ) (points : List Point)
    → length (partial_samples per_file points) ≡ 0
    → All (λ p. All (λ e. is_partial per_file e ≡ false) p.events_total) points
unfolding partial_samples
no_partial per_file [] h = tt
no_partial per_file (p ∷ points) h =
    let bad = filter (is_partial per_file) p.events_total in
    let shown = map (λ e. (p.name, e.0)) bad in
    let sizes = length-append shown (partial_samples per_file points) in
    let name_in : String × ℕ → String × String = λ e. (p.name, e.0) in
    let same = length-map name_in bad in
    (
      none_filtered (is_partial per_file) p.events_total (omega (arith, sizes, same)),
      no_partial per_file points (omega (arith, sizes)),
    )

whole_of : (per_file : ℕ) (e : String × ℕ) → is_partial per_file e ≡ false → e.1 % per_file ≡ 0
whole_of per_file e h = ground (arith, zero-mod per_file)

fills :
    (wanted files : ℕ) (points : List Point)
    → All (λ p. is_resized wanted p ≡ false) points
    → All (λ p. All (λ e. is_partial (wanted * files) e ≡ false) p.events_total) points
    → All (Fills wanted files) points
fills wanted files [] sized whole = tt
fills wanted files (p ∷ points) sized whole = (
  (ground arith, All-mono (whole_of (wanted * files)) p.events_total whole.0),
  fills wanted files points sized.1 whole.1,
)

accepted :
    (wanted files : ℕ) (points : List Point)
    → validate_merge_granularity wanted files points ≡ none
    → (length (filter (is_resized wanted) points) ≡ 0)
      × (length (partial_samples (wanted * files) points) ≡ 0)
unfolding validate_merge_granularity
accepted wanted files points h = ground arith

pub validate_merge_granularity-Fills :
    (wanted files : ℕ) (points : List Point)
    → validate_merge_granularity wanted files points ≡ none
    → All (Fills wanted files) points
validate_merge_granularity-Fills wanted files points h =
    let (sized, whole) = accepted wanted files points h in
    fills wanted files points (none_filtered (is_resized wanted) points sized)
      (no_partial (wanted * files) points whole)

entry_of :
    (Q : ℕ → Type 0) (d : Dict String ℕ) (era : String)
    → Q 0
    → All (λ e. Q e.1) d
    → Q (get_or d era 0)
entry_of Q [] era z h = z
entry_of Q ((k, n) ∷ d) era z h = elim (Bool-cases (k == era)) [
  | inl here ↦ rw here h.0
  | inr there ↦ rw there (entry_of Q d era z h.1)
]

ceil_div_exact : (k w : ℕ) → 0 < w → ceil_div (k * w) w ≡ k
ceil_div_exact k w pos =
    let up =
      le_of_mul-le-mul_right {m = k} {n = ceil_div (k * w) w} {k = w}
        (ceil_div-covers (k * w) w pos) pos in
    omega (arith, up, ceil_div-le (k * w) w k pos (omega arith))

jobs_of :
    (n w k : ℕ) → 0 < w → n ≡ k * w → (if nat_beq n 0 || nat_beq w 0 then 0 else ceil_div n w) ≡ k
jobs_of n w k pos e = elim (Bool-cases (nat_beq n 0 || nat_beq w 0)) [
  | inl nothing ↦
      let zero_events : k * w ≤ 0 * w = ground (arith, zero-mul w) in
      rw nothing (omega (arith, le_of_mul-le-mul_right {m = k} {n = 0} {k = w} zero_events pos))
  | inr something ↦ rw something (rw e (ceil_div_exact k w pos))
]

whole_jobs :
    (wanted files : ℕ) (p : Point) (era : String)
    → 0 < wanted
    → Fills wanted files p
    → (k : ℕ) × (n_jobs p era ≡ k * files)
unfolding n_jobs n_events
whole_jobs wanted files p era pos (sized, whole) =
    let n = get_or p.events_total era 0 in
    let per_file = wanted * files in
    let none_over : n % per_file ≡ 0 =
      entry_of (λ m. m % per_file ≡ 0) p.events_total era (zero-mod per_file) whole in
    let m = n / per_file in
    let e : n ≡ m * files * wanted =
      sym (mod-add-div' n per_file)
      ∙ rw none_over (
          omega (arith, mul_assoc m files wanted, ap (λ (t : ℕ). m * t) (mul_comm wanted files))) in
    (m, rw sized (jobs_of n wanted (m * files) pos e))

length-range_from : (start n : ℕ) → length (range_from start n) ≡ n
length-range_from start zero = refl
length-range_from start (suc n) = omega (arith, length-range_from (start + 1) n)

full_groups :
    (wanted files : ℕ) (p : Point) (era : String)
    → 0 < wanted
    → 0 < files
    → Fills wanted files p
    → (groups : List (ℕ × List ℕ)) × (merge_groups (seeds_of p era) files ≡ some groups)
      × All (λ g. length g.1 * p.events_per_job ≡ wanted * files) groups
unfolding merge_groups
full_groups wanted files p era pw pf full =
    let (k, jobs) = whole_jobs wanted files p era pw full in
    let seeds = seeds_of p era in
    let sizes =
      groups_from-full (length seeds) 0 files k seeds pf
        (length-range_from 1 (n_jobs p era) ∙ jobs) in
    (
      groups_from (length seeds) 0 files seeds,
      (let positive : nat_beq files 0 ≡ false = ground arith in rw positive refl),
      All-mono (λ g size. rw (size, full.0) (mul_comm files wanted))
          (groups_from (length seeds) 0 files seeds) sizes,
    )

-- In a setup that `_validate_merge_granularity` accepts, with jobs of at least one event and
-- merges of at least one file, no merged file of any sample is short: each group of seeds that is
-- merged amounts to `events_per_job * files_per_merge` events.
pub validate_merge_granularity-full :
    (wanted files : ℕ) (points : List Point)
    → 0 < wanted
    → 0 < files
    → validate_merge_granularity wanted files points ≡ none
    → All
        (λ p.
          (era : String)
          → (groups : List (ℕ × List ℕ)) × (merge_groups (seeds_of p era) files ≡ some groups)
            × All (λ g. length g.1 * p.events_per_job ≡ wanted * files) groups)
        points
validate_merge_granularity-full wanted files points pw pf h =
    All-mono (λ p full era. full_groups wanted files p era pw pf full) points
      (validate_merge_granularity-Fills wanted files points h)

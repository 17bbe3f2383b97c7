-- ===== src/SiteStats/Judgement.antt =====
-- dsprod/site_stats.py: when a site is judged to be failing, and for how long it is held out.
use dsprod.Common.{
  ℕ, ◌+◌, ◌-◌, ◌*◌, ◌^◌, min, max, Bool, false, ◌||◌, not, [], ◌∷◌, String, leb, ltb, nat_beq,
  if◌then◌else◌, length, filter, count, ◌==◌, string_eq,
}
use dsprod.Common.Dict.{Dict, get_or}
use dsprod.Common.Ratio.{Ratio, ratio_or_zero, times, ratio_lt, ratio_ge}
use dsprod.SiteStats.Types.{Config, Event, SiteRecord, SiteStats}

-- How many outcomes, and how many failures among them.
pub record Tally : Type 0 where
  pub n : ℕ
  pub n_fail : ℕ

abbrev pub is_failure : Event → Bool
is_failure e = not e.ok

abbrev pub recorded_since : ℕ → Event → Bool
recorded_since since e = leb since e.at

-- `_counts`: `if since` is false at 0
unfoldable pub counts : SiteStats → String → SiteRecord → ℕ → Tally
counts s site rec since =
    let events = if nat_beq since 0 then rec.events else filter (recorded_since since) rec.events in
    record { n = length events + get_or s.in_flight site 0; n_fail = count is_failure events }

-- `_ended_since`
unfoldable pub ended_since : SiteRecord → ℕ → Tally
ended_since rec since =
    let events = filter (recorded_since since) rec.events in
    record { n = length events; n_fail = count is_failure events }

-- The loops of `_burst_baseline` and `_baseline`: the sum of a tally over every other site.
unfoldable pub others : (String → SiteRecord → Tally) → String → Dict String SiteRecord → Tally
others tally site [] = record { n = 0; n_fail = 0 }
others tally site ((name, rec) ∷ sites) =
    let rest = others tally site sites in
    let own = tally name rec in
    if name == site then rest else record { n = own.n + rest.n; n_fail = own.n_fail + rest.n_fail }

abbrev pub rate : Tally → Ratio
rate t = ratio_or_zero t.n_fail t.n

unfoldable pub burst_baseline : SiteStats → String → ℕ → Tally
unfolding others ended_since
burst_baseline s site since = others (λ _ rec. ended_since rec since) site s.sites

unfoldable pub baseline : SiteStats → String → Tally
unfolding others counts
baseline s site = others (λ name rec. counts s name rec 0) site s.sites

-- The tests that `_is_burst` and `_is_failing` make of a site's tally and of its baseline: enough
-- failures, a high enough rate, enough jobs elsewhere, and a rate well above theirs.
unfoldable pub exceeds : Config → ℕ → Tally → Tally → Bool
exceeds cfg least own other =
    if nat_beq own.n 0 || ltb own.n_fail least
    then false
    else if ratio_lt (record { num = own.n_fail; den = own.n }) cfg.min_failure_rate
    then false
    else if ltb other.n cfg.min_baseline_jobs
    then false
    else ratio_ge (record { num = own.n_fail; den = own.n })
        (times cfg.relative_factor (rate other))

-- The start of the window of `_is_burst`. Times are natural numbers, so a window that reaches below 0
-- starts at 0.
abbrev pub burst_since : SiteStats → SiteRecord → ℕ → ℕ
burst_since s rec now = max (now - s.cfg.burst_minutes * 60) rec.cleared_at

unfoldable pub is_burst : SiteStats → String → SiteRecord → ℕ → Bool
unfolding exceeds ended_since burst_baseline
is_burst s site rec now =
    let since = burst_since s rec now in
    exceeds s.cfg s.cfg.burst_failures (ended_since rec since) (burst_baseline s site since)

unfoldable pub is_failing : SiteStats → String → SiteRecord → Bool
unfolding exceeds counts baseline
is_failing s site rec =
    exceeds s.cfg s.cfg.min_failures (counts s site rec rec.cleared_at) (baseline s site)

unfoldable pub quarantine_seconds : Config → SiteRecord → ℕ
quarantine_seconds cfg rec =
    let doublings = min rec.quarantines 20 in
    min (cfg.quarantine_hours * 2 ^ doublings) cfg.max_quarantine_hours * 3600

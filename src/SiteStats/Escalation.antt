-- ===== src/SiteStats/Escalation.antt =====
-- dsprod/site_stats.py: how long bans last, and the second chance after each.
use native.Mathlib.Nat.{mul-le-mul_left, pow-le-pow_right, pow-suc}
use native.Mathlib.Decide.{dec_le}
use native.Mathlib.Numerals.{add-one}
use dsprod.Common.{
  ap, ℕ, ◌+◌, ◌*◌, ◌^◌, ◌≤◌, ◌<◌, min, ◌≡◌, true, false, List, [], String, arith, filter, All,
  All-mono, filter_none,
}
use dsprod.SiteStats.Types.{Config, Event, SiteRecord, SiteStats}
use dsprod.SiteStats.Judgement.{
  Tally, counts, ended_since, exceeds, baseline, burst_baseline, burst_since, recorded_since,
  quarantine_seconds,
}
use dsprod.SiteStats.Operations.{is_convicted, sentence, has_run_out, expire_record}

-- From 20 on a power of two is at least 2 ^ 20, so the clamp of the exponent changes nothing.
clamp_free : (h m k : ℕ) → m ≤ h * 2 ^ 20 → min (h * 2 ^ min k 20) m ≡ min (h * 2 ^ k) m
clamp_free h m k enough = elim (dec_le k 20) [
  | yes small ↦ let e : min k 20 ≡ k = omega arith in rw e
  | no large ↦
      let e : min k 20 ≡ 20 = omega arith in
      let power : 2 ^ 20 ≤ 2 ^ k = pow-le-pow_right (omega arith) {i = 20} {j = k} (omega arith) in
      rw e (omega (arith, mul-le-mul_left h power))
]

-- Under a ceiling that 20 doublings reach, the n-th ban lasts the base duration doubled n times, cut
-- at the ceiling.
pub quarantine_seconds_lem :
    (cfg : Config) (rec : SiteRecord)
    → cfg.max_quarantine_hours ≤ cfg.quarantine_hours * 2 ^ 20
    → quarantine_seconds cfg rec
      ≡ min (cfg.quarantine_hours * 2 ^ rec.quarantines) cfg.max_quarantine_hours * 3600
unfolding quarantine_seconds
quarantine_seconds_lem cfg rec enough =
    rw (clamp_free cfg.quarantine_hours cfg.max_quarantine_hours rec.quarantines enough)

-- Each ban lasts twice as long as the one before it, up to the ceiling, if 20 doublings of the
-- base duration reach the ceiling.
pub quarantine_seconds-sentence :
    (cfg : Config) (now : ℕ) (rec : SiteRecord)
    → cfg.max_quarantine_hours ≤ cfg.quarantine_hours * 2 ^ 20
    → quarantine_seconds cfg (sentence cfg now rec)
      ≡ min (2 * quarantine_seconds cfg rec) (cfg.max_quarantine_hours * 3600)
unfolding sentence
quarantine_seconds-sentence cfg now rec enough =
    rw
      (
        quarantine_seconds_lem cfg rec enough,
        quarantine_seconds_lem cfg (sentence cfg now rec) enough,
      )
      (omega (arith, ap (λ (t : ℕ). cfg.quarantine_hours * t) doubled))
  where
    doubled : 2 ^ (rec.quarantines + 1) ≡ 2 ^ rec.quarantines * 2
    doubled = rw add-one (pow-suc 2 rec.quarantines)

-- With no outcome left in its window a site exceeds no threshold but 0.
exceeds_none :
    (cfg : Config) (least : ℕ) (own other : Tally)
    → own.n_fail ≡ 0
    → 0 < least
    → exceeds cfg least own other ≡ false
unfolding exceeds
exceeds_none cfg least own other none_failed positive = ground arith

no_failures :
    (since : ℕ) (events : List Event)
    → All (λ e. e.at < since) events
    → filter (recorded_since since) events ≡ []
no_failures since events old =
    filter_none (recorded_since since) events (All-mono (λ e h. ground arith) events old)

counts_old :
    (s : SiteStats) (site : String) (rec : SiteRecord) (since : ℕ)
    → 0 < since
    → All (λ e. e.at < since) rec.events
    → (counts s site rec since).n_fail ≡ 0
unfolding counts
counts_old s site rec since positive old = ground (arith, no_failures since rec.events old)

ended_since_old :
    (rec : SiteRecord) (start since : ℕ)
    → since ≤ start
    → All (λ e. e.at < since) rec.events
    → (ended_since rec start).n_fail ≡ 0
unfolding ended_since
ended_since_old rec start since later old =
    rw (no_failures start rec.events (All-mono (λ e h. omega arith) rec.events old))

acquitted :
    (s : SiteStats) (now : ℕ) (site : String) (rec : SiteRecord)
    → 0 < rec.cleared_at
    → All (λ e. e.at < rec.cleared_at) rec.events
    → 0 < s.cfg.min_failures
    → 0 < s.cfg.burst_failures
    → is_convicted s now site rec ≡ false
unfolding is_convicted
acquitted s now site rec positive old hm hb =
    let since = burst_since s rec now in
    let burst =
      exceeds_none s.cfg s.cfg.burst_failures (ended_since rec since) (burst_baseline s site since)
        (ended_since_old rec since rec.cleared_at (omega arith) old) hb in
    let failing =
      exceeds_none s.cfg s.cfg.min_failures (counts s site rec rec.cleared_at) (baseline s site)
        (counts_old s site rec rec.cleared_at positive old) hm in
    rw (burst, failing) (ground arith)

-- A site whose ban has run out, with no outcome recorded since its end, is not convicted on the
-- outcomes that the ban was served for, provided that both tests want at least one failure.
pub second_chance :
    (s : SiteStats) (now : ℕ) (site : String) (rec : SiteRecord)
    → has_run_out now rec ≡ true
    → All (λ e. e.at < rec.quarantined_until) rec.events
    → 0 < s.cfg.min_failures
    → 0 < s.cfg.burst_failures
    → is_convicted s now site (expire_record now rec) ≡ false
second_chance s now site rec over old hm hb =
    let expired = record rec { cleared_at = rec.quarantined_until; quarantined_until = 0 } in
    let e : expire_record now rec ≡ expired = rw over in
    rw e (acquitted s now site expired (ground arith) old hm hb)

-- ===== src/Polling/Once.antt =====
-- dsprod/crab.py: `harvest_site_stats` over several polls, and what it remembers.
use dsprod.Common.{
  ℕ, ◌≡◌, refl, sym, ◌∙◌, ap, true, false, List, [], ◌∷◌, elem, arith, All-mono, Option, none, some,
  String, nat_beq, length, All, Bool-cases, inl, inr, string_eq, nat_eq,
}
use dsprod.Common.Dict.{Dict}
use dsprod.SiteStats.Types.{SiteStats, SiteRecord}
use dsprod.SiteStats.Operations.{set_in_flight}
use dsprod.Polling.Types.{Manager, PollResult, Seen, seen_eq}
use dsprod.Polling.Harvest.{Tallied, tally_all, harvest_into, with_stats, harvest}
use dsprod.Polling.Tallying.{
  counted, tally_all-counted, tally_all-stats, tally_all-grows, kept_entry,
}

none_or_some : {stats : SiteStats} → none ≡ some stats → ⊥
none_or_some h = cc

-- The records of the sites.
abbrev pub records : Option SiteStats → Option (Dict String SiteRecord)
records none = none
records (some stats) = some stats.sites

set_in_flight-sites :
    (stats : SiteStats) (counts : Dict String ℕ) → (set_in_flight stats counts).sites ≡ stats.sites
unfolding set_in_flight
set_in_flight-sites stats counts = refl

-- What the loop makes of the records that the manager holds.
abbrev tallied : Manager → SiteStats → ℕ → PollResult → Tallied
tallied m stats now result =
    tally_all (record { stats = stats; seen = m.stats_seen; flying = [] }) now result

records-harvest_into :
    (m : Manager) (stats : SiteStats) (now : ℕ) (proj : String) (result : PollResult)
    → (records (harvest_into m stats now proj result).site_stats
        ≡ some (tallied m stats now result).stats.sites)
      × ((harvest_into m stats now proj result).stats_seen ≡ (tallied m stats now result).seen)
      × ((stats' : SiteStats) × ((harvest_into m stats now proj result).site_stats ≡ some stats'))
unfolding harvest_into
records-harvest_into m stats now proj result = (ap some (set_in_flight-sites _ _), refl, (_, refl))

with_some :
    (m : Manager) (found : Option SiteStats) (now : ℕ) (proj : String) (result : PollResult)
    → nat_beq (length result) 0 ≡ false
    → m.site_stats ≡ found
    → harvest m now proj result ≡ with_stats m found (λ stats. harvest_into m stats now proj result)
unfolding harvest
with_some m found now proj result some_jobs e =
    rw some_jobs (ap (λ o. with_stats m o (λ stats. harvest_into m stats now proj result)) e)

empty_harvest :
    (m : Manager) (now : ℕ) (proj : String) (result : PollResult)
    → nat_beq (length result) 0 ≡ true
    → harvest m now proj result ≡ m
unfolding harvest
empty_harvest m now proj result nothing = rw nothing refl

-- The calls of `harvest_site_stats` between two polls.
pub record Harvesting : Type 0 where
  pub now : ℕ
  pub proj : String
  pub result : PollResult

unfoldable pub harvests : Manager → List Harvesting → Manager
harvests m [] = m
harvests m (p ∷ ps) = harvests (harvest m p.now p.proj p.result) ps

-- What is remembered, and whether there is a record of the sites, is kept.
record Remembers (m m' : Manager) : Type 0 where
  grows : (s : Seen) → elem s m.stats_seen ≡ true → elem s m'.stats_seen ≡ true
  off : m.site_stats ≡ none → m' ≡ m

harvest_from :
    (m : Manager) (found : Option SiteStats) (p : Harvesting)
    → m.site_stats ≡ found
    → Remembers m (with_stats m found (λ stats. harvest_into m stats p.now p.proj p.result))
harvest_from m none p e = record { grows = λ s h. h; off = λ o. refl }
harvest_from m (some stats) p e = record {
  grows = λ s h. rw (records-harvest_into m stats p.now p.proj p.result).1 (
      tally_all-grows (record { stats = stats; seen = m.stats_seen; flying = [] }) p.now p.result s
        h);
  off = λ o. absurd (none_or_some (sym o ∙ e));
}

harvest-Remembers : (m : Manager) (p : Harvesting) → Remembers m (harvest m p.now p.proj p.result)
harvest-Remembers m p = elim (Bool-cases (nat_beq (length p.result) 0)) [
  | inl nothing ↦
      rw (empty_harvest m p.now p.proj p.result nothing)
        (record { grows = λ s h. h; off = λ o. refl })
  | inr some_jobs ↦
      rw (with_some m m.site_stats p.now p.proj p.result some_jobs refl)
        (harvest_from m m.site_stats p refl)
]

harvests-Remembers : (m : Manager) (ps : List Harvesting) → Remembers m (harvests m ps)
unfolding harvests
harvests-Remembers m [] = record { grows = λ s h. h; off = λ o. refl }
harvests-Remembers m (p ∷ ps) =
    let once = harvest-Remembers m p in
    let next = harvest m p.now p.proj p.result in
    let rest = harvests-Remembers next ps in
    record {
      grows = λ s h. rest.grows s (once.grows s h);
      off = λ o. rest.off (ap (λ (n : Manager). n.site_stats) (once.off o) ∙ o) ∙ once.off o;
    }

-- A poll whose outcomes are all remembered changes no record.
harvest_known :
    (m : Manager) (found : Option SiteStats) (p : Harvesting)
    → m.site_stats ≡ found
    → All (λ e. counted m.stats_seen e ≡ true) p.result
    → records (harvest m p.now p.proj p.result).site_stats ≡ records m.site_stats
harvest_known m found p e known = elim (Bool-cases (nat_beq (length p.result) 0)) [
  | inl nothing ↦ rw (empty_harvest m p.now p.proj p.result nothing) refl
  | inr some_jobs ↦
      ap (λ (n : Manager). records n.site_stats)
        (with_some m found p.now p.proj p.result some_jobs e)
      ∙ into found e
]
  where
    into :
        (found : Option SiteStats)
        → m.site_stats ≡ found
        → records
            (with_stats m found (λ stats. harvest_into m stats p.now p.proj p.result)).site_stats
          ≡ records m.site_stats
    into none e = refl
    into (some stats) e =
        (records-harvest_into m stats p.now p.proj p.result).0
        ∙ ap (λ (s : SiteStats). some s.sites)
            (tally_all-stats (record { stats = stats; seen = m.stats_seen; flying = [] }) p.now
              p.result known)
        ∙ sym (ap records e)

-- After a poll, all its outcomes are remembered.
harvest_counted :
    (m : Manager) (stats : SiteStats) (p : Harvesting)
    → m.site_stats ≡ some stats
    → All (λ e. counted (harvest m p.now p.proj p.result).stats_seen e ≡ true) p.result
harvest_counted m stats p e = elim (Bool-cases (nat_beq (length p.result) 0)) [
  | inl nothing ↦ none_in p.result nothing
  | inr some_jobs ↦
      rw
        (
          with_some m (some stats) p.now p.proj p.result some_jobs e,
          (records-harvest_into m stats p.now p.proj p.result).1,
        )
        (tally_all-counted (record { stats = stats; seen = m.stats_seen; flying = [] }) p.now
          p.result)
]
  where
    none_in :
        (result : PollResult)
        → nat_beq (length result) 0 ≡ true
        → All (λ e. counted (harvest m p.now p.proj p.result).stats_seen e ≡ true) result
    none_in [] h = tt
    none_in (r ∷ rs) h = ground arith

harvests-again :
    (m : Manager) (found : Option SiteStats) (p later : Harvesting) (ps : List Harvesting)
    → m.site_stats ≡ found
    → later.result ≡ p.result
    → let m' = harvests (harvest m p.now p.proj p.result) ps in
      records (harvest m' later.now later.proj later.result).site_stats ≡ records m'.site_stats
harvests-again m none p later ps e same =
    let first = harvest m p.now p.proj p.result in
    let m' = harvests first ps in
    let here = (harvest-Remembers m p).off e in
    let still = (harvests-Remembers first ps).off (ap (λ (n : Manager). n.site_stats) here ∙ e) in
    ap (λ (n : Manager). records n.site_stats)
      ((harvest-Remembers m' later).off (ap (λ (n : Manager). n.site_stats) (still ∙ here) ∙ e))
harvests-again m (some stats) p later ps e same =
    let first = harvest m p.now p.proj p.result in
    let m' = harvests first ps in
    let grows = (harvests-Remembers first ps).grows in
    harvest_known m' m'.site_stats later refl (
      rw same (
        All-mono (λ e c. kept_entry first.stats_seen m'.stats_seen e grows c) p.result
          (harvest_counted m stats p e)))

-- Each outcome is recorded once: a poll that reports again what an earlier one reported changes
-- the record of no site, whichever polls come between the two.
pub harvest-once :
    (m : Manager) (p later : Harvesting) (between : List Harvesting)
    → later.result ≡ p.result
    → let m' = harvests (harvest m p.now p.proj p.result) between in
      records (harvest m' later.now later.proj later.result).site_stats ≡ records m'.site_stats
harvest-once m p later between same = harvests-again m m.site_stats p later between refl same

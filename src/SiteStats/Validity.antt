-- ===== src/SiteStats/Validity.antt =====
-- dsprod/site_stats.py: the invariant of the state, and the list that `blacklist` returns.
use dsprod.Common.{
  ◌||◌, ◌++◌, ℕ, ◌≡◌, refl, inl, inr, ap, Bool, true, false, [], ◌∷◌, String, arith, if◌then◌else◌,
  Bool-cases, filter, All, string_eq, IsDistinct,
}
use dsprod.Common.Dict.{Dict, keys, put-IsDistinct, All-keys-put}
use dsprod.SiteStats.Types.{Config, SiteRecord, SiteStats, is_site}
use dsprod.SiteStats.Operations.{
  map_values, prune, expire, sentence, quarantine, quarantine_from, set_in_flight, record_outcome,
  judge, blacklist, is_convicted,
}
use dsprod.SiteStats.Sweep.{sweep, quarantine-sweep}

abbrev pub IsSite : String → Type 0
IsSite name = is_site name ≡ true

-- A record stands under each name once, and every name is that of a CMS site.
pub record IsValid (s : SiteStats) : Type 0 where
  pub distinct : IsDistinct (keys s.sites)
  pub recorded : All IsSite (keys s.sites)
  pub flying : All IsSite (keys s.in_flight)

keys-map_values :
    (f : SiteRecord → SiteRecord) (sites : Dict String SiteRecord)
    → keys (map_values f sites) ≡ keys sites
keys-map_values f [] = refl
keys-map_values f ((x, r) ∷ sites) = ap (◌∷◌ x) (keys-map_values f sites)

keys-sweep :
    (cfg : Config) (now : ℕ) (verdict : String → SiteRecord → Bool) (sites : Dict String SiteRecord)
    → keys (sweep cfg now verdict sites) ≡ keys sites
unfolding sweep
keys-sweep cfg now verdict [] = refl
keys-sweep cfg now verdict ((x, r) ∷ sites) = ap (◌∷◌ x) (keys-sweep cfg now verdict sites)

prune-IsValid : (s : SiteStats) (now : ℕ) → IsValid s → IsValid (prune s now)
unfolding prune
prune-IsValid s now v = record {
  distinct = rw keys-map_values v.distinct;
  recorded = rw keys-map_values v.recorded;
  flying = v.flying;
}

keys-judge : (s : SiteStats) (now : ℕ) → keys (judge s now).sites ≡ keys s.sites
unfolding judge expire prune
keys-judge s now = rw (quarantine-sweep, keys-sweep, keys-map_values, keys-map_values)

-- Recording an outcome keeps the invariant, if it held, whatever the name: each site has one
-- record, and every name is that of a CMS site.
pub record_outcome-IsValid :
    (s : SiteStats) (site : String) (ok : Bool) (now : ℕ)
    → IsValid s
    → IsValid (record_outcome s site ok now)
unfolding record_outcome
record_outcome-IsValid s site ok now v = elim (Bool-cases (is_site site)) [
  | inl real ↦ rw real (
      prune-IsValid _ now (record {
        distinct = put-IsDistinct s.sites site _ v.distinct;
        recorded = All-keys-put IsSite s.sites site _ real v.recorded;
        flying = v.flying;
      }))
  | inr placeholder ↦ rw placeholder v
]

-- A placeholder such as "Unknown" changes nothing.
pub record_outcome_placeholder :
    (s : SiteStats) (site : String) (ok : Bool) (now : ℕ)
    → is_site site ≡ false
    → record_outcome s site ok now ≡ s
unfolding record_outcome
record_outcome_placeholder s site ok now h = rw h

keys-filter_sites : (jobs : Dict String ℕ) → All IsSite (keys (filter (λ e. is_site e.0) jobs))
keys-filter_sites [] = tt
keys-filter_sites ((x, n) ∷ jobs) = ground (arith, keys-filter_sites jobs)

-- Setting the counts of the jobs in flight keeps the invariant, if it held, whatever names CRAB
-- reports.
pub set_in_flight-IsValid :
    (s : SiteStats) (jobs : Dict String ℕ) → IsValid s → IsValid (set_in_flight s jobs)
unfolding set_in_flight
set_in_flight-IsValid s jobs v = record {
  distinct = v.distinct;
  recorded = v.recorded;
  flying = keys-filter_sites jobs;
}

in_flight-quarantine_from :
    (s : SiteStats) (now : ℕ) (done todo : Dict String SiteRecord)
    → (quarantine_from s now done todo).in_flight ≡ s.in_flight
unfolding quarantine_from
in_flight-quarantine_from s now done [] = refl
in_flight-quarantine_from s now done ((x, r) ∷ todo) =
    let s' = record s { sites = done ++ (x, r) ∷ todo } in
    let guilty = is_convicted s' now x r in
    in_flight-quarantine_from (record s { dirty = s.dirty || guilty }) now
      (done ++ (x, if guilty then sentence s.cfg now r else r) ∷ []) todo

in_flight-judge : (s : SiteStats) (now : ℕ) → (judge s now).in_flight ≡ s.in_flight
unfolding judge expire prune quarantine
in_flight-judge s now = in_flight-quarantine_from _ now [] _

pub judge-IsValid : (s : SiteStats) (now : ℕ) → IsValid s → IsValid (judge s now)
judge-IsValid s now v = record {
  distinct = rw (keys-judge s now) v.distinct;
  recorded = rw (keys-judge s now) v.recorded;
  flying = rw (in_flight-judge s now) v.flying;
}

-- `blacklist` keeps the invariant, if it held, also when it is disabled.
pub blacklist-IsValid : (s : SiteStats) (now : ℕ) → IsValid s → IsValid (blacklist s now).0
unfolding blacklist
blacklist-IsValid s now v = ground (arith, judge-IsValid s now v)

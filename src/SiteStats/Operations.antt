-- ===== src/SiteStats/Operations.antt =====
-- dsprod/site_stats.py: recording outcomes, and the blacklist with the upkeep that precedes it.
use dsprod.Common.{
  ℕ, ◌+◌, ◌-◌, ◌*◌, Bool, true, ◌&&◌, ◌||◌, not, List, [], ◌∷◌, ◌++◌, map, String, leb, ltb,
  nat_beq, or_else, if◌then◌else◌, length, filter, any, take, sort, string_eq,
}
use dsprod.Common.Dict.{Dict, get, put, values}
use dsprod.SiteStats.Types.{Config, Event, SiteRecord, SiteStats, new_record, is_site}
use dsprod.SiteStats.Judgement.{counts, is_burst, is_failing, quarantine_seconds}

-- `for rec in self.sites.values(): …`, where the body changes the record.
abbrev pub map_values : (SiteRecord → SiteRecord) → Dict String SiteRecord → Dict String SiteRecord
map_values f [] = []
map_values f ((name, rec) ∷ sites) = (name, f rec) ∷ map_values f sites

abbrev pub is_recent : ℕ → Event → Bool
is_recent cutoff e = leb cutoff e.at

abbrev pub is_outdated : ℕ → SiteRecord → Bool
is_outdated cutoff rec =
    not (nat_beq (length (filter (is_recent cutoff) rec.events)) (length rec.events))

abbrev pub prune_record : ℕ → SiteRecord → SiteRecord
prune_record cutoff rec =
    if is_outdated cutoff rec
    then record rec { events = filter (is_recent cutoff) rec.events }
    else rec

-- `_prune`
unfoldable pub prune : SiteStats → ℕ → SiteStats
prune s now =
    let cutoff = now - s.cfg.window_hours * 3600 in
    record s {
      sites = map_values (prune_record cutoff) s.sites;
      dirty = s.dirty || any (is_outdated cutoff) (values s.sites);
    }

abbrev pub has_run_out : ℕ → SiteRecord → Bool
has_run_out now rec = ltb 0 rec.quarantined_until && leb rec.quarantined_until now

abbrev pub expire_record : ℕ → SiteRecord → SiteRecord
expire_record now rec =
    if has_run_out now rec
    then record rec { cleared_at = rec.quarantined_until; quarantined_until = 0 }
    else rec

-- `_expire`
unfoldable pub expire : SiteStats → ℕ → SiteStats
expire s now = record s {
  sites = map_values (expire_record now) s.sites;
  dirty = s.dirty || any (has_run_out now) (values s.sites);
}

-- Whether the body of the loop of `_quarantine` reaches its end.
unfoldable pub is_convicted : SiteStats → ℕ → String → SiteRecord → Bool
unfolding is_burst is_failing
is_convicted s now site rec =
    not (ltb now rec.quarantined_until) && (is_burst s site rec now || is_failing s site rec)

unfoldable pub sentence : Config → ℕ → SiteRecord → SiteRecord
unfolding quarantine_seconds
sentence cfg now rec = record rec {
  quarantined_until = now + quarantine_seconds cfg rec;
  quarantines = rec.quarantines + 1;
}

-- The loop of `_quarantine`: a site is judged on the records as the rounds before it left them.
unfoldable pub quarantine_from :
    SiteStats → ℕ → Dict String SiteRecord → Dict String SiteRecord → SiteStats
unfolding is_convicted sentence
quarantine_from s now done [] = record s { sites = done }
quarantine_from s now done ((site, rec) ∷ todo) =
    let s' = record s { sites = done ++ (site, rec) ∷ todo } in
    let guilty = is_convicted s' now site rec in
    quarantine_from (record s { dirty = s.dirty || guilty }) now
      (done ++ (site, if guilty then sentence s.cfg now rec else rec) ∷ []) todo

-- `_quarantine`
unfoldable pub quarantine : SiteStats → ℕ → SiteStats
quarantine s now = quarantine_from s now [] s.sites

unfoldable pub set_in_flight : SiteStats → Dict String ℕ → SiteStats
unfolding is_site
set_in_flight s jobs = record s { in_flight = filter (λ e. is_site e.0) jobs }

-- `now` is the clock's time if the caller gives none.
unfoldable pub record_outcome : SiteStats → String → Bool → ℕ → SiteStats
record_outcome s site ok now =
    let rec = or_else (get s.sites site) new_record in
    let rec' = record rec { events = rec.events ++ record { at = now; ok = ok } ∷ [] } in
    if is_site site then prune (record s { sites = put s.sites site rec'; dirty = true }) now else s

abbrev pub failures : SiteStats → String × SiteRecord → ℕ
failures s e = (counts s e.0 e.1 0).n_fail

-- Most failures first.
abbrev pub is_worse : SiteStats → String × SiteRecord → String × SiteRecord → Bool
is_worse s a b = leb (failures s b) (failures s a)

abbrev pub is_active : ℕ → String × SiteRecord → Bool
is_active now e = ltb now e.1.quarantined_until

abbrev pub ranked : SiteStats → ℕ → Dict String SiteRecord
ranked s now = sort (is_worse s) (filter (is_active now) s.sites)

-- The upkeep that `blacklist` does before it reads the records.
unfoldable pub judge : SiteStats → ℕ → SiteStats
judge s now = quarantine (expire (prune s now) now) now

unfoldable pub blacklist : SiteStats → ℕ → SiteStats × List String
blacklist s now =
    let s' = judge s now in
    if s.cfg.enabled then (s', map (λ e. e.0) (take s.cfg.max_sites (ranked s' now))) else (s, [])

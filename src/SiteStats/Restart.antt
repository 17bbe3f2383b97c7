-- ===== src/SiteStats/Restart.antt =====
-- dsprod/site_stats.py: what a driver that starts again reads of what the last one has saved.
use dsprod.Common.{
  ℕ, zero, suc, ◌≡◌, refl, ap, true, not, List, [], ◌∷◌, Option, some, String, arith, nat_beq, All,
}
use dsprod.Common.Dict.{Dict, keys}
use dsprod.SiteStats.Types.{Event, SiteRecord, SiteStats}
use dsprod.SiteStats.Validity.{IsSite, IsValid}
use dsprod.SiteStats.Persistence.{
  num, arr, nil, Numbers, to_number, given_or, items_of, read_events, read_record, read_sites, load,
  entry_record, elements_of, bit, write_events, write_record, write_sites, save, elements_events,
}

number_back :
    (parse : String → Option ℕ) (k : ℕ) → to_number parse (given_or (some (num k)) (num 0)) ≡ some k
number_back parse zero = refl
number_back parse (suc k) = ground arith

event_back : (e : Event) → record e { ok = not (nat_beq (bit e.ok) 0) } ≡ e
event_back e = ground arith

events_back : (n : Numbers) (es : List Event) → read_events n (items_of (write_events es)) ≡ some es
unfolding read_events
events_back n [] = refl
events_back n (e ∷ es) = rw (events_back n es) (ap (λ r. some (r ∷ es)) (event_back e))

list_back :
    (n : Numbers) (es : List Event)
    → elements_events n (elements_of (given_or (some (arr (write_events es))) (arr nil))) ≡ some es
list_back n [] = events_back n []
list_back n (e ∷ es) = events_back n (e ∷ es)

record_back : (n : Numbers) (r : SiteRecord) → entry_record n (write_record r) ≡ some r
unfolding read_record
record_back n r =
    rw
      (
        list_back n r.events,
        number_back n.float_of r.quarantined_until,
        number_back n.int_of r.quarantines,
        number_back n.float_of r.cleared_at,
      )
      refl

sites_back :
    (n : Numbers) (sites : Dict String SiteRecord)
    → All IsSite (keys sites)
    → read_sites n (write_sites sites) ≡ sites
unfolding read_sites
sites_back n [] h = refl
sites_back n ((name, r) ∷ sites) h = rw (record_back n r, sites_back n sites h.1) (rw (h.0) refl)

-- A driver that starts again has the outcomes and the bans of the last one, if that one saved them
-- in a valid state: reading what `save` writes gives the same record of every site, and leaves the
-- rest of the state alone. Something was to be saved, and JSON gives back what it was given.
pub load-save :
    (n : Numbers) (s fresh : SiteStats)
    → IsValid s
    → s.dirty ≡ true
    → load n (save s).1 fresh ≡ record fresh { sites = s.sites }
unfolding load save
load-save n s fresh valid dirty =
    rw (save, dirty)
      (ap (λ sites. record fresh { sites = sites }) (sites_back n s.sites valid.recorded))

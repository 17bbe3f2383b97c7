-- ===== src/Polling/Harvest.antt =====
-- dsprod/crab.py: `harvest_site_stats`, which feeds the record of the sites.
use dsprod.Common.{
  ℕ, ◌+◌, ◌-◌, Bool, true, false, List, [], ◌∷◌, Option, none, some, String, leb, nat_beq,
  if◌then◌else◌, length, filter, elem, add, last?, is_some, string_eq, nat_eq,
}
use dsprod.Common.Dict.{Dict, get_or, put}
use dsprod.Jobs.{JobId, JobData, pending, running, finished, failed}
use dsprod.SiteStats.Types.{SiteStats}
use dsprod.SiteStats.Operations.{record_outcome, set_in_flight}
use dsprod.Polling.Types.{Manager, PollResult, Seen, outcome, seen_eq, Harvested}

-- The variables of the loop.
pub record Tallied : Type 0 where
  pub stats : SiteStats
  pub seen : List Seen
  pub flying : Dict String ℕ

-- What the status of a job says of its site.
pub data Verdict : Type 0 where
  ended : Bool → Verdict
  nothing_said : Verdict
  in_the_air : Verdict

unfoldable pub judge_job : JobData → Verdict
judge_job d = elim d.status [
  | finished ↦ ended true
  | failed ↦ if is_some d.code then ended false else nothing_said
  | pending ↦ in_the_air
  | running ↦ in_the_air
]

-- The rest of the loop's body, for a job with a site.
unfoldable pub tally : Tallied → ℕ → JobId → String → Verdict → Tallied
tally t now id site (ended ok) =
    if elem (outcome id ok) t.seen
    then t
    else record t { seen = add (outcome id ok) t.seen; stats = record_outcome t.stats site ok now }
tally t now id site nothing_said = t
tally t now id site in_the_air = record t {
  flying = put t.flying site (get_or t.flying site 0 + 1);
}

unfoldable pub tally_at : Tallied → ℕ → JobId → JobData → Option String → Tallied
tally_at t now id d none = t
tally_at t now id d (some site) = tally t now id site (judge_job d)

unfoldable pub tally_job : Tallied → ℕ → JobId → Option JobData → Tallied
tally_job t now id none = t
tally_job t now id (some d) = tally_at t now id d (last? d.site_history)

unfoldable pub tally_all : Tallied → ℕ → PollResult → Tallied
tally_all t now [] = t
tally_all t now ((id, d) ∷ result) = tally_all (tally_job t now id d) now result

-- `combined.update(counts)` of a `Counter`
abbrev pub add_counts : Dict String ℕ → Dict String ℕ → Dict String ℕ
add_counts c [] = c
add_counts c ((site, n) ∷ counts) = add_counts (put c site (get_or c site 0 + n)) counts

abbrev pub combine : Dict String ℕ → Dict String Harvested → Dict String ℕ
combine c [] = c
combine c ((proj, h) ∷ projects) = combine (add_counts c h.counts) projects

abbrev pub in_flight_stale_seconds : ℕ
in_flight_stale_seconds = 3600

abbrev pub is_current : ℕ → String × Harvested → Bool
is_current now e = leb (now - in_flight_stale_seconds) e.1.at

-- The body below the first test, for the record `stats`.
unfoldable pub harvest_into : Manager → SiteStats → ℕ → String → PollResult → Manager
harvest_into m stats now proj result =
    let t = tally_all (record { stats = stats; seen = m.stats_seen; flying = [] }) now result in
    let projects =
      filter (is_current now) (put m.in_flight proj (record { at = now; counts = t.flying })) in
    record m {
      stats_seen = t.seen;
      in_flight = projects;
      site_stats = some (set_in_flight t.stats (combine [] projects));
    }

abbrev pub with_stats : Manager → Option SiteStats → (SiteStats → Manager) → Manager
with_stats m none f = m
with_stats m (some stats) f = f stats

-- `harvest_site_stats`
unfoldable pub harvest : Manager → ℕ → String → PollResult → Manager
harvest m now proj result =
    if nat_beq (length result) 0
    then m
    else with_stats m m.site_stats (λ stats. harvest_into m stats now proj result)

-- ===== src/Repairs/Prune.antt =====
-- dsprod/tasks.py: `PruneProducedRecords`, one unit and the whole run.
--
-- The share of stale records is compared exactly. What the removal of a record comes to is an
-- argument; the threads that remove, and those that check, are pools whose order does not matter.
use dsprod.Common.{
  ℕ, ◌+◌, Bool, true, false, ◌&&◌, not, List, [], ◌∷◌, String, nat_beq, length, Option, none, some,
  if◌then◌else◌, elem, nat_eq, string_eq, filter,
}
use dsprod.Common.Ratio.{Ratio, ratio_lt}
use dsprod.Production.Numbering.{merge_groups}
use dsprod.Repairs.Accounts.{root_name, Listings, merged_seeds}
use dsprod.Repairs.Backfill.{Sample, recorded}

pub record PruneSettings : Type 0 where
  pub prune : Bool
  pub max_stale_fraction : Ratio
  pub files_per_merge : ℕ

pub data PruneError : Type 0 where
  unreadable : PruneError
  zero_step : PruneError
  too_stale : List ℕ → ℕ → PruneError
  not_removed : List ℕ → PruneError

-- What a unit comes to: a number of records that were dropped, or what it raises.
pub data UnitOutcome : Type 0 where
  dropped : ℕ → UnitOutcome
  raises : PruneError → UnitOutcome

-- The records that are gone after a unit, and what it comes to.
pub record Swept : Type 0 where
  pub deleted : List ℕ
  pub outcome : UnitOutcome

abbrev pub untouched : UnitOutcome → Swept
untouched o = record { deleted = []; outcome = o }

unfoldable pub stale : String → Listings → List ℕ → List ℕ → List ℕ
stale version l covered records =
    filter (λ s. not (elem s covered) && not (elem (root_name version s) l.staged)) records

-- What `remove(silent=False)` of a record comes to. `unseen` is the removal that gfal-stat does not answer:
-- it removes nothing, and says that it did.
pub data RecordRemoval : Type 0 where
  removed : RecordRemoval
  unseen : RecordRemoval
  fails_to_remove : RecordRemoval

abbrev pub is_removed : RecordRemoval → Bool
is_removed removed = true
is_removed _ = false

abbrev pub raises_error : RecordRemoval → Bool
raises_error fails_to_remove = true
raises_error _ = false

-- `pool.map(drop, stale)`: every removal is tried, and one that fails raises.
unfoldable pub drop_all : (ℕ → RecordRemoval) → List ℕ → Swept
drop_all removes seeds =
    let failed = filter (λ s. raises_error (removes s)) seeds in
    record {
      deleted = filter (λ s. is_removed (removes s)) seeds;
      outcome =
          if nat_beq (length failed) 0 then dropped (length seeds) else raises (not_removed failed);
    }

-- What follows the listings.
unfoldable pub prune_stale : PruneSettings → (ℕ → RecordRemoval) → List ℕ → List ℕ → Swept
unfolding drop_all
prune_stale settings removes records gone =
    if nat_beq (length gone) 0
    then untouched (dropped 0)
    else (if ratio_lt settings.max_stale_fraction
          (record { num = length gone; den = length records })
        then untouched (raises (too_stale gone (length records)))
        else (if settings.prune then drop_all removes gone else untouched (dropped 0)))

unfoldable pub check_listed :
    String → PruneSettings → (ℕ → RecordRemoval) → List ℕ → Listings → Swept
unfolding prune_stale stale
check_listed version settings removes seeds l = elim (merge_groups seeds settings.files_per_merge) [
  | none ↦ untouched (raises zero_step)
  | some groups ↦
      let records = filter (recorded version l) seeds in
      prune_stale settings removes records
        (stale version l (merged_seeds version l.merged groups) records)
]

-- `_check_and_prune`, on what `_names` made of the three directories, in the order of the source.
unfoldable pub check_and_prune :
    String
    → PruneSettings
    → (ℕ → RecordRemoval)
    → List ℕ
    → Option (List String)
    → Option (List String)
    → Option (List String)
    → Swept
unfolding check_listed
check_and_prune version settings removes seeds (some records) (some staged) (some merged) =
    check_listed version settings removes seeds
      (record { records = records; staged = staged; merged = merged })
check_and_prune version settings removes seeds _ _ _ = untouched (raises unreadable)

-- The loop of `run`: the numbers of `dropped`, and the units that raised.
pub record Swath : Type 0 where
  pub n_pruned : ℕ
  pub failures : List (Sample × PruneError)

abbrev pub count_in : Sample → UnitOutcome → Swath → Swath
count_in unit (dropped n) rest = record rest { n_pruned = n + rest.n_pruned }
count_in unit (raises e) rest = record rest { failures = (unit, e) ∷ rest.failures }

unfoldable pub check_units : (Sample → Swept) → List Sample → Swath
check_units check [] = record { n_pruned = 0; failures = [] }
check_units check (unit ∷ units) = count_in unit (check unit).outcome (check_units check units)

-- `run` raises if any unit did, after all were checked.
pub data Run : Type 0 where
  pruned : ℕ → Run
  fails : ℕ → List (Sample × PruneError) → Run

unfoldable pub run : (Sample → Swept) → List Sample → Run
unfolding check_units
run check units =
    let all = check_units check units in
    if nat_beq (length all.failures) 0 then pruned all.n_pruned else fails all.n_pruned all.failures

-- ===== src/Repairs/Deletions.antt =====
-- dsprod/tasks.py: which records `PruneProducedRecords` deletes.
use dsprod.Common.{
  ℕ, ◌≡◌, ◌≢◌, refl, inl, inr, Bool-cases, ap, sym, ◌∙◌, Bool, true, false, ◌&&◌, not, List, [],
  ◌∷◌, String, arith, nat_beq, length, elem-filter, some, elem, nat_eq, string_eq, filter,
}
use dsprod.Common.Ratio.{ratio_lt}
use dsprod.Production.Numbering.{merge_groups}
use dsprod.Repairs.Accounts.{root_name, Listings, merged_seeds}
use dsprod.Repairs.Backfill.{accounted, recorded}
use dsprod.Repairs.Prune.{
  RecordRemoval, removed, unseen, fails_to_remove, is_removed, raises_error, PruneSettings, dropped,
  stale, drop_all, prune_stale, check_listed,
}

-- A seed with a record that nothing accounts for.
abbrev pub IsStale : String → Listings → List (ℕ × List ℕ) → ℕ → Type 0
IsStale version l groups seed =
    (recorded version l seed ≡ true)
    × (accounted version l (merged_seeds version l.merged groups) seed ≡ false)

-- The share of stale records is one that the settings allow.
abbrev pub IsTolerated : PruneSettings → ℕ → ℕ → Type 0
IsTolerated settings gone records =
    ratio_lt settings.max_stale_fraction (record { num = gone; den = records }) ≡ false

prune_stale-deleted :
    (settings : PruneSettings) (removes : ℕ → RecordRemoval) (records gone : List ℕ) (seed : ℕ)
    → elem seed (prune_stale settings removes records gone).deleted ≡ true
    → (elem seed gone ≡ true)
      × (settings.prune ≡ true)
      × IsTolerated settings (length gone) (length records)
unfolding prune_stale drop_all
prune_stale-deleted settings removes records gone seed h =
    ground (arith, elem-filter (λ s. is_removed (removes s)) gone seed)

elem-stale :
    (version : String) (l : Listings) (groups : List (ℕ × List ℕ)) (seeds : List ℕ) (seed : ℕ)
    → elem seed
        (stale version l (merged_seeds version l.merged groups) (filter (recorded version l) seeds))
      ≡ true
    → (elem seed seeds ≡ true) × IsStale version l groups seed
unfolding stale
elem-stale version l groups seeds seed h =
    let covered = merged_seeds version l.merged groups in
    let lonely : ℕ → Bool =
      λ s. not (elem s covered) && not (elem (root_name version s) l.staged) in
    ground (
      arith,
      elem-filter lonely (filter (recorded version l) seeds) seed,
      elem-filter (recorded version l) seeds seed,
    )

-- Whatever the settings, and however the removals end, a record is deleted only if the settings
-- ask for it, and only if the record is stale: it is there, its seed is one of the sample, no
-- merged file covers the seed, and the seed's staged file is not there.
pub check_listed-deleted :
    (version : String) (settings : PruneSettings) (removes : ℕ → RecordRemoval) (seeds : List ℕ)
    (l : Listings) (groups : List (ℕ × List ℕ)) (seed : ℕ)
    → merge_groups seeds settings.files_per_merge ≡ some groups
    → elem seed (check_listed version settings removes seeds l).deleted ≡ true
    → (settings.prune ≡ true) × (elem seed seeds ≡ true) × IsStale version l groups seed
unfolding check_listed
check_listed-deleted version settings removes seeds l groups seed grouped h =
    let records = filter (recorded version l) seeds in
    let (among, asked, allowed) =
      prune_stale-deleted settings removes records
        (stale version l (merged_seeds version l.merged groups) records) seed
        (rw (check_listed, grouped) at h) in
    let (inside, lost) = elem-stale version l groups seeds seed among in (asked, inside, lost)

removed_of : (r : RecordRemoval) → r ≢ unseen → raises_error r ≡ false → is_removed r ≡ true
removed_of removed seen quiet = refl
removed_of unseen seen quiet = absurd (seen refl)
removed_of fails_to_remove seen quiet = cc

removed_all :
    (removes : ℕ → RecordRemoval) (gone : List ℕ)
    → ((s : ℕ) → removes s ≢ unseen)
    → nat_beq (length (filter (λ s. raises_error (removes s)) gone)) 0 ≡ true
    → filter (λ s. is_removed (removes s)) gone ≡ gone
removed_all removes [] seen h = refl
removed_all removes (s ∷ gone) seen h = elim (Bool-cases (raises_error (removes s))) [
  | inl loud ↦ let some_left = rw loud at h in ground arith
  | inr quiet ↦
      rw (removed_of (removes s) (seen s) quiet)
        (ap (λ l. s ∷ l) (removed_all removes gone seen (rw quiet at h)))
]

-- A pruning that ends well has deleted all that it found stale, and says how many.
prune_stale-dropped :
    (settings : PruneSettings) (removes : ℕ → RecordRemoval) (records gone : List ℕ) (n : ℕ)
    → ((s : ℕ) → removes s ≢ unseen)
    → settings.prune ≡ true
    → (prune_stale settings removes records gone).outcome ≡ dropped n
    → ((prune_stale settings removes records gone).deleted ≡ gone) × (n ≡ length gone)
unfolding prune_stale drop_all
prune_stale-dropped settings removes records [] n seen asked h = (refl, ground arith)
prune_stale-dropped settings removes records (s ∷ gone) n seen asked h =
    ground (arith, removed_all removes (s ∷ gone) seen)

elem-stale_eq :
    (version : String) (l : Listings) (covered seeds : List ℕ) (seed : ℕ)
    → elem seed (stale version l covered (filter (recorded version l) seeds))
      ≡ (elem seed seeds && (recorded version l seed && not (accounted version l covered seed)))
unfolding stale
elem-stale_eq version l covered seeds seed =
    let lonely : ℕ → Bool =
      λ s. not (elem s covered) && not (elem (root_name version s) l.staged) in
    ground (
      arith,
      elem-filter lonely (filter (recorded version l) seeds) seed,
      elem-filter (recorded version l) seeds seed,
    )

-- A pruning that is asked for and ends well has deleted the records of exactly those seeds of the
-- sample that have one, no merged file that covers them, and no staged file; it says how many. It
-- is assumed that gfal-stat answers for each record whose removal is tried: a removal for which it
-- does not deletes nothing, and is counted.
pub check_listed-exact :
    (version : String) (settings : PruneSettings) (removes : ℕ → RecordRemoval) (seeds : List ℕ)
    (l : Listings) (groups : List (ℕ × List ℕ)) (n seed : ℕ)
    → merge_groups seeds settings.files_per_merge ≡ some groups
    → ((s : ℕ) → removes s ≢ unseen)
    → settings.prune ≡ true
    → (check_listed version settings removes seeds l).outcome ≡ dropped n
    → (elem seed (check_listed version settings removes seeds l).deleted ≡ (
        elem seed seeds
        && (recorded version l seed
            && not (accounted version l (merged_seeds version l.merged groups) seed))))
      × (n ≡ length (check_listed version settings removes seeds l).deleted)
unfolding check_listed
check_listed-exact version settings removes seeds l groups n seed grouped seen asked h =
    let records = filter (recorded version l) seeds in
    let gone = stale version l (merged_seeds version l.merged groups) records in
    let (all, counted) =
      prune_stale-dropped settings removes records gone n seen asked
        (rw (check_listed, grouped) at h) in
    rw (check_listed, grouped)
      (
        ap (elem seed) all
            ∙ elem-stale_eq version l (merged_seeds version l.merged groups) seeds seed,
        counted ∙ sym (ap length all),
      )

-- ===== src/Repairs/Backfilled.antt =====
-- dsprod/tasks.py: which seeds have a record after `BackfillProducedRecords`.
use dsprod.Common.{
  ℕ, ◌≡◌, refl, Bool, true, false, ◌&&◌, ◌||◌, not, List, [], ◌∷◌, ◌<◌, All, All-mono, elem_self,
  map, filter, inl, inr, Bool-cases, elem-append, elem-filter, String, arith, some, elem, nat_eq,
  string_eq,
}
use dsprod.Production.Numbering.{merge_groups}
use dsprod.Production.Groups.{merge_groups-partition}
use dsprod.Repairs.Accounts.{
  record_name, root_name, Listings, merged_seeds, elem-map, record_name_injective,
}
use dsprod.Repairs.Backfill.{
  plan, backfill, Listable, names_if, heard, with_records, accounted, recorded,
}

todo-plan :
    (version : String) (l : Listings) (covered seeds : List ℕ)
    → (plan version l covered seeds).todo
      ≡ filter (λ s. not (recorded version l s) && accounted version l covered s) seeds
unfolding plan
todo-plan version l covered [] = refl
todo-plan version l covered (seed ∷ seeds) =
    elim (Bool-cases (elem (record_name version seed) l.records)) [
      | inl old ↦ rw old (todo-plan version l covered seeds)
      | inr new ↦ rw new (ground (arith, todo-plan version l covered seeds))
    ]

elem-names_if :
    (answers : Bool) (names : List String) (n : String)
    → elem n (names_if answers names) ≡ (answers && elem n names)
elem-names_if true names n = refl
elem-names_if false names n = refl

covered_by_none :
    (version : String) (groups : List (ℕ × List ℕ)) (seed : ℕ)
    → elem seed (merged_seeds version [] groups) ≡ false
unfolding merged_seeds
covered_by_none version [] seed = refl
covered_by_none version ((g, seeds) ∷ groups) seed = covered_by_none version groups seed

elem-merged_seeds :
    (version : String) (answers : Bool) (merged : List String) (groups : List (ℕ × List ℕ))
    (seed : ℕ)
    → elem seed (merged_seeds version (names_if answers merged) groups)
      ≡ (answers && elem seed (merged_seeds version merged groups))
elem-merged_seeds version true merged groups seed = refl
elem-merged_seeds version false merged groups seed = covered_by_none version groups seed

-- What a seed's record depends on: whether it was there, the upload, the merged and the staged file, each
-- with whether its directory can be listed.
-- A record that is there stays; a due one is there if its upload succeeds.
or_known :
    (inside answers there known up : Bool)
    → inside ≡ true
    → (((inside && (not (answers && there) && known)) && up) || there) ≡ (there || (up && known))
or_known inside answers there known up h = ground arith

recorded-after :
    (version : String) (uploads : ℕ → Bool) (a : Listable) (l : Listings)
    (groups : List (ℕ × List ℕ)) (seeds : List ℕ) (seed : ℕ)
    → elem seed seeds ≡ true
    → let covered = merged_seeds version (heard a l).merged groups in
      recorded version
        (with_records version l (filter uploads (plan version (heard a l) covered seeds).todo))
        seed
      ≡ (recorded version l seed
          || (uploads seed
              && ((a.merged && elem seed (merged_seeds version l.merged groups))
                  || (a.staged && elem (root_name version seed) l.staged))))
recorded-after version uploads a l groups seeds seed inside =
    let covered = merged_seeds version (heard a l).merged groups in
    let due : ℕ → Bool =
      λ s. not (recorded version (heard a l) s) && accounted version (heard a l) covered s in
    rw
      (
        elem-append
            (map (record_name version)
              (filter uploads (plan version (heard a l) covered seeds).todo))
            l.records (record_name version seed),
        elem-map (record_name version) (record_name_injective version) seed
            (filter uploads (plan version (heard a l) covered seeds).todo),
        elem-filter uploads (plan version (heard a l) covered seeds).todo seed,
        todo-plan version (heard a l) covered seeds,
        elem-filter due seeds seed,
        elem-names_if a.records l.records (record_name version seed),
        elem-merged_seeds version a.merged l.merged groups seed,
        elem-names_if a.staged l.staged (root_name version seed),
      )
      (or_known _ a.records (recorded version l seed) _ (uploads seed) inside)

-- With groups of at least one file, and whichever listings and uploads fail: after the backfill a
-- seed of the sample has a record exactly if it had one, or if its upload succeeds and a listing
-- that answers shows a merged file that covers it, or its staged file.
pub backfill-recorded :
    (version : String) (files : ℕ) (uploads : ℕ → Bool) (a : Listable) (l : Listings)
    (seeds : List ℕ)
    → 0 < files
    → (groups : List (ℕ × List ℕ)) × (merge_groups seeds files ≡ some groups)
      × All
          (λ seed.
            recorded version
              (with_records version l (backfill version files uploads (heard a l) seeds).written)
              seed
            ≡ (recorded version l seed
                || (uploads seed
                    && ((a.merged && elem seed (merged_seeds version l.merged groups))
                        || (a.staged && elem (root_name version seed) l.staged)))))
          seeds
unfolding backfill
backfill-recorded version files uploads a l seeds pos =
    let (groups, found, _, _) = merge_groups-partition seeds files pos in
    (
      groups,
      found,
      rw (backfill, found)
          (All-mono (λ seed inside. recorded-after version uploads a l groups seeds seed inside)
            seeds (elem_self seeds)),
    )

-- ===== src/Tests/Repairs.antt =====
-- dsprod/tasks.py, the repairs and the merge of a group, at concrete inputs: a sample of two seeds.
use dsprod.Common.{
  ℕ, ◌≡◌, ◌⊎◌, ◌||◌, ◌&&◌, not, refl, true, false, List, [], ◌∷◌, Option, none, some, String, arith,
  map, elem, or_else, All, length, nat_eq, string_eq, str,
}
use dsprod.Production.Numbering.{merge_groups, groups_from}
use dsprod.Production.Merging.{Merger, nano_merge, nano_merge-cases, IsUntouched, IsWhole}
use dsprod.Repairs.Listings.{Directories, names, names-holds, IsTree, IsTruthful, climb}
use dsprod.Repairs.Accounts.{
  record_name, root_name, Listings, merged_seeds, elem-map, record_name_injective,
  root_name_injective,
}
use dsprod.Repairs.Backfill.{backfill, plan, Listable, heard, with_records, recorded, accounted}
use dsprod.Repairs.Backfilled.{backfill-recorded}
use dsprod.Repairs.Prune.{
  removed, unseen, dropped, PruneSettings, check_and_prune, check_listed, prune_stale, drop_all,
  stale,
}
use dsprod.Repairs.Deletions.{check_listed-exact}
use dsprod.Repairs.Lifecycle.{Storage, produce, publish, consume, Reach, here, next, IsAccounted}
use dsprod.Repairs.Concurrent.{Places, IsMoment, check_and_prune-spares}
use dsprod.Repairs.Rounds.{Core, Answers, Pass, passes, run_pass, is_refused, after_sweep, done}
use dsprod.Repairs.Ending.{passes_end}

data Place : Type 0 where
  base : Place
  produced : Place
  staging : Place
  merged_files : Place

abbrev base_of : Place → Option Place
base_of base = none
base_of _ = some base

abbrev name_of : Place → String
name_of base = "store"
name_of produced = "produced"
name_of staging = "staging"
name_of merged_files = "nanoAOD_v12"

abbrev directories : Directories
directories = record { Target = Place; parent = base_of; basename = name_of }

abbrev held : Storage → Place → Option (List String)
held st base = some ("produced" ∷ "staging" ∷ "nanoAOD_v12" ∷ [])
held st produced = some (map (record_name "v12") st.records)
held st staging = some (map (root_name "v12") st.staged)
held st merged_files = some (map (root_name "v12") st.merged)

base_listed :
    (st : Storage) (t above : Place) (found : List String)
    → base_of t ≡ some above
    → held st above ≡ some found
    → elem (name_of t) found ≡ false
    → held st t ≡ none
base_listed st base above found up h lost = cc
base_listed st produced base found up h lost = ground arith
base_listed st staging base found up h lost = ground arith
base_listed st merged_files base found up h lost = ground arith
base_listed st _ _ found up h lost = cc

held_orphan :
    (st : Storage) (t above : Place)
    → base_of t ≡ some above
    → held st above ≡ none
    → held st t ≡ none
held_orphan st t base up h = cc
held_orphan st t produced up h = cc
held_orphan st t staging up h = cc
held_orphan st t merged_files up h = cc

abbrev before_runs : Storage
before_runs = record { records = 1 ∷ []; staged = 2 ∷ 1 ∷ []; merged = [] }

abbrev after_produce : Storage
after_produce = record before_runs { records = 2 ∷ 1 ∷ [] }

abbrev after_merge : Storage
after_merge = record after_produce { merged = 0 ∷ []; staged = 2 ∷ [] }

abbrev settings : PruneSettings
settings = record {
  prune = true;
  max_stale_fraction = record { num = 1; den = 2 };
  files_per_merge = 2;
}

tree : (st : Storage) → IsTree directories (held st)
tree st = record { orphan = held_orphan st; unlisted = base_listed st }

abbrev places : Places directories
places = record { records = produced; staged = staging; merged = merged_files }

-- A moment at which everything can be listed.
moment : (st : Storage) → IsMoment directories places "v12" st (held st)
moment st = record {
  holds = held st;
  true_to = λ t found h. h;
  tree = tree st;
  records_named = λ s. elem-map (record_name "v12") (record_name_injective "v12") s st.records;
  staged_named = λ s. elem-map (root_name "v12") (root_name_injective "v12") s st.staged;
  merged_named = λ g. elem-map (root_name "v12") (root_name_injective "v12") g st.merged;
}

-- A listing of the staged files that fails, while the base answers.
abbrev blinking : Place → Option (List String)
blinking staging = none
blinking t = held before_runs t

blinking_true : IsTruthful directories (held before_runs) blinking
blinking_true base found h = h
blinking_true produced found h = h
blinking_true staging found h = cc
blinking_true merged_files found h = h

refuses : names directories blinking staging ≡ none
unfolding names climb
refuses = refl

names-holds_example : or_else (held before_runs produced) [] ≡ map (record_name "v12") (1 ∷ [])
unfolding names
names-holds_example =
    names-holds directories (held before_runs) blinking blinking_true (tree before_runs) produced
      (map (record_name "v12") (1 ∷ [])) refl

abbrev groups : List (ℕ × List ℕ)
groups = (0, 1 ∷ 2 ∷ []) ∷ []

begins-IsAccounted : IsAccounted "v12" groups before_runs
unfolding merged_seeds
begins-IsAccounted seed h = ground arith

runs : Reach "v12" groups before_runs after_produce
runs = next here (produce before_runs 2 refl)

merges : Reach "v12" groups after_produce after_merge
unfolding merged_seeds root_name str
merges = next (next here (publish after_produce 0)) (consume _ 1 refl)

check_and_prune-spares_example :
    elem 1
      (check_and_prune "v12" settings
        (λ s. removed)
        (1 ∷ 2 ∷ [])
        (names directories (held before_runs) produced)
        (names directories (held after_produce) staging)
        (names directories (held after_merge) merged_files)).deleted
    ≡ false
unfolding merge_groups groups_from
check_and_prune-spares_example =
    check_and_prune-spares directories places "v12" settings (λ s. removed) (1 ∷ 2 ∷ []) groups
      before_runs after_produce after_merge (held before_runs) (held after_produce)
      (held after_merge) refl begins-IsAccounted runs merges (moment before_runs)
      (moment after_produce) (moment after_merge) 1

-- One record of three is stale: its staged file is lost.
abbrev lossy : Listings
lossy = record {
  records = map (record_name "v12") (1 ∷ 2 ∷ 3 ∷ []);
  staged = map (root_name "v12") (3 ∷ []);
  merged = [];
}

abbrev one_by_one : PruneSettings
one_by_one = record settings { files_per_merge = 1 }

-- Two of three are refused, above the half that is allowed.
refused_share : (check_listed "v12" one_by_one (λ s. removed) (1 ∷ 2 ∷ 3 ∷ []) lossy).deleted ≡ []
unfolding check_listed prune_stale stale merge_groups groups_from merged_seeds record_name root_name
    str drop_all
refused_share = refl

abbrev one_lost : Listings
one_lost = record lossy { staged = map (root_name "v12") (3 ∷ 1 ∷ []) }

abbrev singles : List (ℕ × List ℕ)
singles = (0, 1 ∷ []) ∷ (1, 2 ∷ []) ∷ (2, 3 ∷ []) ∷ []

abbrev unrecorded : Listings
unrecorded = record lossy { records = [] }

-- The directory of the merged files cannot be listed.
abbrev no_merged : Listable
no_merged = record { records = true; staged = true; merged = false }

backfill-recorded_example :
    (gs : List (ℕ × List ℕ)) × (merge_groups (2 ∷ 3 ∷ []) 2 ≡ some gs)
    × All
        (λ seed.
          recorded "v12"
            (with_records "v12" unrecorded
              (backfill "v12" 2 (λ s. true) (heard no_merged unrecorded) (2 ∷ 3 ∷ [])).written)
            seed
          ≡ (recorded "v12" unrecorded seed
              || (true
                  && ((false && elem seed (merged_seeds "v12" unrecorded.merged gs))
                      || (true && elem (root_name "v12" seed) unrecorded.staged)))))
        (2 ∷ 3 ∷ [])
backfill-recorded_example =
    backfill-recorded "v12" 2 (λ s. true) no_merged unrecorded (2 ∷ 3 ∷ []) (omega arith)

written_seed :
    (backfill "v12" 2 (λ s. true) (heard no_merged unrecorded) (2 ∷ 3 ∷ [])).written ≡ 3 ∷ []
unfolding backfill plan merge_groups groups_from merged_seeds record_name root_name str
written_seed = refl

check_listed-exact_example :
    (elem 2 (check_listed "v12" one_by_one (λ s. removed) (1 ∷ 2 ∷ 3 ∷ []) one_lost).deleted ≡ (
      elem {A = ℕ} 2 (1 ∷ 2 ∷ 3 ∷ [])
      && (recorded "v12" one_lost 2
          && not (accounted "v12" one_lost (merged_seeds "v12" one_lost.merged singles) 2))))
    × (1 ≡ length (check_listed "v12" one_by_one (λ s. removed) (1 ∷ 2 ∷ 3 ∷ []) one_lost).deleted)
unfolding check_listed prune_stale stale merge_groups groups_from merged_seeds record_name root_name
    str drop_all
check_listed-exact_example =
    check_listed-exact "v12" one_by_one (λ s. removed) (1 ∷ 2 ∷ 3 ∷ []) one_lost singles 1 2 refl
      (λ s h. cc) refl refl

abbrev one_process : Core
one_process = record { workers = 1; worker_timeout = 0; task_timeout = 0 }

-- A pass that deletes two records, one that finds all produced and nothing stale, and one that finds
-- the merge complete.
abbrev pass_1 : Answers
pass_1 = record {
  produced = true;
  merged = false;
  pruned = some 2;
  produced_again = false;
  merged_last = false;
}

abbrev pass_2 : Answers
pass_2 = record pass_1 { pruned = some 0 }

abbrev pass_3 : Answers
pass_3 = record pass_1 { merged = true; merged_last = true }

repaired : passes 2 one_process 0 (pass_1 ∷ pass_2 ∷ pass_3 ∷ pass_3 ∷ pass_3 ∷ []) ≡ some done
unfolding passes run_pass is_refused after_sweep
repaired = refl

passes_end_example :
    (p : Pass) × (passes 2 one_process 0 (pass_1 ∷ pass_2 ∷ pass_3 ∷ pass_3 ∷ pass_3 ∷ []) ≡ some p)
unfolding run_pass is_refused after_sweep
passes_end_example =
    passes_end 2 one_process 0 (pass_1 ∷ pass_2 ∷ pass_3 ∷ pass_3 ∷ pass_3 ∷ [])
      (refl, ((refl, refl, refl), (tt, (tt, tt)))) (omega arith)

abbrev merger : Merger
merger = record {
  exists = λ s. true;
  load = λ s. some 500;
  n_out = 1000;
  n_in = λ s. 500;
  uploads = true;
  removes = λ s. true;
}

nano_merge-cases_example :
    IsUntouched (nano_merge 0 500 merger (1 ∷ 2 ∷ []))
    ⊎ (All (λ s. merger.exists s ≡ true) (1 ∷ 2 ∷ [])
        × (◌≡◌ {A = ℕ} 0 0 → All (λ s. merger.load s ≡ some 500) (1 ∷ 2 ∷ []))
        × IsWhole 0 500 merger (1 ∷ 2 ∷ []))
nano_merge-cases_example = nano_merge-cases 0 500 merger (1 ∷ 2 ∷ [])

-- A removal during an outage of gfal-stat: nothing is deleted, and one record is reported.
blind_pruning :
    check_listed "v12" one_by_one (λ s. unseen) (1 ∷ 2 ∷ 3 ∷ []) one_lost
    ≡ record { deleted = []; outcome = dropped 1 }
unfolding check_listed prune_stale stale merge_groups groups_from merged_seeds record_name root_name
    str drop_all
blind_pruning = refl

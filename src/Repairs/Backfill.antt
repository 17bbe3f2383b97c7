-- ===== src/Repairs/Backfill.antt =====
-- dsprod/tasks.py: `BackfillProducedRecords`, a branch for each era, point and version.
use dsprod.Common.{
  ℕ, ◌+◌, nat_beq, length, Bool, ◌||◌, not, List, [], ◌∷◌, ◌++◌, map, filter, String, none, some,
  if◌then◌else◌, elem, nat_eq, string_eq,
}
use dsprod.Production.Setup.{Point}
use dsprod.Production.Numbering.{merge_groups}
use dsprod.Repairs.Accounts.{record_name, root_name, Listings, merged_seeds}

-- The data of a branch, and of a unit of the pruning.
pub record Sample : Type 0 where
  pub era : String
  pub point : ℕ
  pub version : String

abbrev pub sample : String → ℕ → String → Sample
sample era pi version = record { era = era; point = pi; version = version }

-- `for pi, _ in enumerate(self.prod_points): for version in …`
abbrev pub point_samples : String → List String → ℕ → List Point → List Sample
point_samples era versions pi [] = []
point_samples era versions pi (p ∷ points) =
    map (sample era pi) versions ++ point_samples era versions (pi + 1) points

-- `create_branch_map`, and the units of the pruning; a branch's number is its place in the list.
-- `versions` is what `era_nano_versions` returns.
unfoldable pub samples : (String → List String) → List String → List Point → List Sample
samples versions [] points = []
samples versions (era ∷ eras) points =
    point_samples era (versions era) 0 points ++ samples versions eras points

-- What the loop over the seeds has found.
pub record Plan : Type 0 where
  pub todo : List ℕ
  pub skipped : ℕ
  pub staged_seen : ℕ

abbrev pub first_in : ℕ → Bool → Bool → Bool → Plan → Plan
first_in seed recorded merged staged rest =
    if recorded
    then record rest { skipped = rest.skipped + 1 }
    else (if merged
        then record rest { todo = seed ∷ rest.todo }
        else (if staged
            then record rest { todo = seed ∷ rest.todo; staged_seen = rest.staged_seen + 1 }
            else rest))

unfoldable pub plan : String → Listings → List ℕ → List ℕ → Plan
plan version l covered [] = record { todo = []; skipped = 0; staged_seen = 0 }
plan version l covered (seed ∷ seeds) =
    first_in seed (elem (record_name version seed) l.records) (elem seed covered)
      (elem (root_name version seed) l.staged) (plan version l covered seeds)

pub data BackfillOutcome : Type 0 where
  done : Plan → BackfillOutcome
  upload_raises : BackfillOutcome
  zero_step : BackfillOutcome

-- The seeds whose records were written, and what the run comes to.
pub record Backfilled : Type 0 where
  pub written : List ℕ
  pub outcome : BackfillOutcome

-- The pool: `uploads` says which records it writes. One that raises, or that is cancelled behind one that
-- raised, is not written.
abbrev pub write_all : (ℕ → Bool) → Plan → Backfilled
write_all uploads p = record {
  written = filter uploads p.todo;
  outcome =
      if nat_beq (length (filter (λ s. not (uploads s)) p.todo)) 0 then done p else upload_raises;
}

-- `run`, on what `_names` made of the three directories. A step of 0 between the groups is refused by
-- `range`.
unfoldable pub backfill : String → ℕ → (ℕ → Bool) → Listings → List ℕ → Backfilled
unfolding plan
backfill version files_per_merge uploads l seeds = elim (merge_groups seeds files_per_merge) [
  | none ↦ record { written = []; outcome = zero_step }
  | some groups ↦ write_all uploads (plan version l (merged_seeds version l.merged groups) seeds)
]

-- Which of the three directories can be listed.
pub record Listable : Type 0 where
  pub records : Bool
  pub staged : Bool
  pub merged : Bool

-- `_names`: a directory that cannot be listed is taken for empty.
abbrev pub names_if : Bool → List String → List String
names_if answers names = if answers then names else []

abbrev pub heard : Listable → Listings → Listings
heard a l = record {
  records = names_if a.records l.records;
  staged = names_if a.staged l.staged;
  merged = names_if a.merged l.merged;
}

-- What is in the directories, once the records of some seeds are written.
abbrev pub with_records : String → Listings → List ℕ → Listings
with_records version l seeds = record l { records = map (record_name version) seeds ++ l.records }

-- What accounts for the nano file of a seed: a merged file or its own staged file.
abbrev pub accounted : String → Listings → List ℕ → ℕ → Bool
accounted version l covered seed = elem seed covered || elem (root_name version seed) l.staged

abbrev pub recorded : String → Listings → ℕ → Bool
recorded version l seed = elem (record_name version seed) l.records

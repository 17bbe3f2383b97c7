-- ===== src/Repairs/Concurrent.antt =====
-- dsprod/tasks.py: `_check_and_prune` against jobs that run while it lists the three directories.
use dsprod.Common.{
  ℕ, ◌≡◌, refl, sym, ◌∙◌, Bool, true, false, List, [], ◌∷◌, String, Option, none, some, elem,
  nat_eq, string_eq, or_else, inl, inr, Bool-cases, impossible,
}
use dsprod.Production.Numbering.{merge_groups}
use dsprod.Repairs.Listings.{Directories, names, names-holds, Contents, IsTruthful, IsTree}
use dsprod.Repairs.Accounts.{
  record_name, root_name, Listings, merged_seeds, elem-map, root_name_injective,
}
use dsprod.Repairs.Backfill.{recorded, accounted}
use dsprod.Repairs.Prune.{check_and_prune, check_listed, PruneSettings, RecordRemoval}
use dsprod.Repairs.Deletions.{check_listed-deleted}
use dsprod.Repairs.Lifecycle.{
  Storage, covered, names_in, Reach, IsAccounted, Reach-grows, Reach-IsAccounted, either_left,
}

-- The three directories.
pub record Places (d : Directories) : Type 0 where
  pub records : d.Target
  pub staged : d.Target
  pub merged : d.Target

-- What can be listed at one moment, of a storage in the state `st`: listings are true where they
-- answer, and a seed's record, its staged file and a group's merged file stand in their directories
-- under their names. Other files may stand there too.
pub record IsMoment (d : Directories) (at : Places d) (version : String) (st : Storage)
    (listdir : d.Target → Option (List String)) : Type 0 where
  pub holds : Contents d
  pub true_to : IsTruthful d holds listdir
  pub tree : IsTree d holds
  pub records_named :
      (s : ℕ) → elem (record_name version s) (or_else (holds at.records) []) ≡ elem s st.records
  pub staged_named :
      (s : ℕ) → elem (root_name version s) (or_else (holds at.staged) []) ≡ elem s st.staged
  pub merged_named :
      (g : ℕ) → elem (root_name version g) (or_else (holds at.merged) []) ≡ elem g st.merged

-- Only whether the groups' names are listed matters.
merged_seeds-same :
    (version : String) (xs ys : List String) (groups : List (ℕ × List ℕ))
    → ((g : ℕ) → elem (root_name version g) xs ≡ elem (root_name version g) ys)
    → merged_seeds version xs groups ≡ merged_seeds version ys groups
unfolding merged_seeds
merged_seeds-same version xs ys [] same = refl
merged_seeds-same version xs ys ((g, seeds) ∷ groups) same =
    rw (same g) (rw (merged_seeds-same version xs ys groups same) refl)

module _ (version : String) (groups : List (ℕ × List ℕ)) (st₀ st₁ st₂ : Storage)
    (accounted_for : IsAccounted version groups st₀) (before : Reach version groups st₀ st₁)
    (after : Reach version groups st₁ st₂) (l : Listings)
    (of_records : (s : ℕ) → elem (record_name version s) l.records ≡ elem s st₀.records)
    (of_staged : (s : ℕ) → elem (root_name version s) l.staged ≡ elem s st₁.staged)
    (of_merged : (g : ℕ) → elem (root_name version g) l.merged ≡ elem g st₂.merged) where
  listed-covered : merged_seeds version l.merged groups ≡ covered version groups st₂
  listed-covered = merged_seeds-same version l.merged (names_in version st₂).merged groups (λ g.
      of_merged g ∙ sym (elem-map (root_name version) (root_name_injective version) g st₂.merged))

  listed-accounted :
      (seed : ℕ)
      → recorded version l seed ≡ true
      → accounted version l (merged_seeds version l.merged groups) seed ≡ true
  listed-accounted seed h =
      let there : elem seed st₁.records ≡ true =
        (Reach-grows seed before).0 (sym (of_records seed) ∙ h) in
      rw (listed-covered, of_staged seed)
        (either_left _ (elem seed st₁.staged) _ (Reach-grows seed after).1
          (Reach-IsAccounted accounted_for before seed there))

  listed-spared :
      (settings : PruneSettings) (removes : ℕ → RecordRemoval) (seeds : List ℕ) (seed : ℕ)
      → merge_groups seeds settings.files_per_merge ≡ some groups
      → elem seed (check_listed version settings removes seeds l).deleted ≡ false
  listed-spared settings removes seeds seed grouped =
      elim (Bool-cases (elem seed (check_listed version settings removes seeds l).deleted)) [
        | inl gone ↦
            let (_, _, (was, lonely)) =
              check_listed-deleted version settings removes seeds l groups seed grouped gone in
            absurd (impossible (sym lonely ∙ listed-accounted seed was))
        | inr kept ↦ kept
      ]

-- What is known of a directory that could be listed.
abbrev Named : (ℕ → String) → (ℕ → Bool) → Option (List String) → Type 0
Named name inside answer =
    (found : List String) → answer ≡ some found → (k : ℕ) → elem (name k) found ≡ inside k

names-Named :
    (d : Directories) (at : d.Target) (listdir : d.Target → Option (List String))
    (holds : Contents d)
    → IsTruthful d holds listdir
    → IsTree d holds
    → (name : ℕ → String) (inside : ℕ → Bool)
    → ((k : ℕ) → elem (name k) (or_else (holds at) []) ≡ inside k)
    → Named name inside (names d listdir at)
names-Named d at listdir holds true_to tree name inside known found h k =
    rw (← names-holds d holds listdir true_to tree at found h) (known k)

module _ (version : String) (settings : PruneSettings) (removes : ℕ → RecordRemoval)
    (seeds : List ℕ) (groups : List (ℕ × List ℕ)) (st₀ st₁ st₂ : Storage)
    (grouped : merge_groups seeds settings.files_per_merge ≡ some groups)
    (ok : IsAccounted version groups st₀) (before : Reach version groups st₀ st₁)
    (after : Reach version groups st₁ st₂) (seed : ℕ) where
  answers-spared :
      (o₀ o₁ o₂ : Option (List String))
      → Named (record_name version) (λ k. elem k st₀.records) o₀
      → Named (root_name version) (λ k. elem k st₁.staged) o₁
      → Named (root_name version) (λ k. elem k st₂.merged) o₂
      → elem seed (check_and_prune version settings removes seeds o₀ o₁ o₂).deleted ≡ false
  unfolding check_and_prune
  answers-spared none o₁ o₂ h₀ h₁ h₂ = refl
  answers-spared (some r) none o₂ h₀ h₁ h₂ = refl
  answers-spared (some r) (some s) none h₀ h₁ h₂ = refl
  answers-spared (some r) (some s) (some m) h₀ h₁ h₂ =
      listed-spared version groups st₀ st₁ st₂ ok before after
        (record { records = r; staged = s; merged = m }) (h₀ r refl) (h₁ s refl) (h₂ m refl)
        settings removes seeds seed grouped

-- A pruning deletes no record while jobs run, if every record was accounted for when it began:
-- seeds may be staged and recorded, groups be merged and their staged files be removed at any time
-- between the listings. Listings that answer are true, each may fail, and a directory stands in
-- its parent.
pub check_and_prune-spares :
    (d : Directories) (at : Places d) (version : String) (settings : PruneSettings)
    (removes : ℕ → RecordRemoval) (seeds : List ℕ) (groups : List (ℕ × List ℕ))
    (st₀ st₁ st₂ : Storage) (l₀ l₁ l₂ : d.Target → Option (List String))
    → merge_groups seeds settings.files_per_merge ≡ some groups
    → IsAccounted version groups st₀
    → Reach version groups st₀ st₁
    → Reach version groups st₁ st₂
    → IsMoment d at version st₀ l₀
    → IsMoment d at version st₁ l₁
    → IsMoment d at version st₂ l₂
    → (seed : ℕ)
    → elem seed
        (check_and_prune version settings removes seeds
          (names d l₀ at.records)
          (names d l₁ at.staged)
          (names d l₂ at.merged)).deleted
      ≡ false
check_and_prune-spares d at version settings removes seeds groups st₀ st₁ st₂ l₀ l₁ l₂ grouped ok
      before after m₀ m₁ m₂ seed =
    answers-spared version settings removes seeds groups st₀ st₁ st₂ grouped ok before after seed
      (names d l₀ at.records) (names d l₁ at.staged) (names d l₂ at.merged)
      (names-Named d at.records l₀ m₀.holds m₀.true_to m₀.tree _ _ m₀.records_named)
      (names-Named d at.staged l₁ m₁.holds m₁.true_to m₁.tree _ _ m₁.staged_named)
      (names-Named d at.merged l₂ m₂.holds m₂.true_to m₂.tree _ _ m₂.merged_named)

-- ===== src/Repairs/Lifecycle.antt =====
-- dsprod/tasks.py, what happens to the storage of one (era, point, version) while the pruning lists
-- it: `RunProd.run` stages a file and then writes its record, `NanoMergeTask.run` uploads a merged
-- file and then removes the files that it merged.
use dsprod.Common.{
  ℕ, ◌≡◌, refl, Bool, true, false, ◌||◌, List, [], ◌∷◌, map, String, arith, elem, discard, nat_eq,
  string_eq, inl, inr, Bool-cases, ◌==◌, eq_of_==, elem-append, or_right, or_left, subst,
}
use dsprod.Repairs.Accounts.{record_name, root_name, Listings, merged_seeds}

-- The seeds with a record, those with a staged file, and the groups with a merged file.
pub record Storage : Type 0 where
  pub records : List ℕ
  pub staged : List ℕ
  pub merged : List ℕ

-- The files' names.
abbrev pub names_in : String → Storage → Listings
names_in version st = record {
  records = map (record_name version) st.records;
  staged = map (root_name version) st.staged;
  merged = map (root_name version) st.merged;
}

-- The seeds behind the merged files.
abbrev pub covered : String → List (ℕ × List ℕ) → Storage → List ℕ
covered version groups st = merged_seeds version (names_in version st).merged groups

-- One act of a job; `groups` are those of the sample.
pub data Step (version : String) (groups : List (ℕ × List ℕ)) : Storage → Storage → Type 0 where
  -- `shutil.copy(nano_out, …)`
  stage :
      (st : Storage) (seed : ℕ) → Step version groups st (record st { staged = seed ∷ st.staged })
  -- `_write_produced_record`, of a file that is staged
  produce :
      (st : Storage) (seed : ℕ)
      → elem seed st.staged ≡ true
      → Step version groups st (record st { records = seed ∷ st.records })
  -- the upload of a merged file
  publish :
      (st : Storage) (group : ℕ) → Step version groups st (record st { merged = group ∷ st.merged })
  -- `t.remove()`, of a file behind a merged one
  consume :
      (st : Storage) (seed : ℕ)
      → elem seed (covered version groups st) ≡ true
      → Step version groups st (record st { staged = discard seed st.staged })

pub data Reach (version : String) (groups : List (ℕ × List ℕ)) (st : Storage)
    : Storage → Type 0 where
  here : Reach version groups st st
  next :
      {u v : Storage}
      → Reach version groups st u
      → Step version groups u v
      → Reach version groups st v

-- Every seed with a record has a staged file or a merged one.
abbrev pub IsAccounted : String → List (ℕ × List ℕ) → Storage → Type 0
IsAccounted version groups st =
    (seed : ℕ)
    → elem seed st.records ≡ true
    → (elem seed (covered version groups st) || elem seed st.staged) ≡ true

merged_seeds-grow :
    (version : String) (old : List String) (name : String) (groups : List (ℕ × List ℕ)) (seed : ℕ)
    → elem seed (merged_seeds version old groups) ≡ true
    → elem seed (merged_seeds version (name ∷ old) groups) ≡ true
unfolding merged_seeds
merged_seeds-grow version old name [] seed h = h
merged_seeds-grow version old name ((g, seeds) ∷ groups) seed h = ground (
  arith,
  elem-append seeds (merged_seeds version old groups) seed,
  elem-append seeds (merged_seeds version (name ∷ old) groups) seed,
  merged_seeds-grow version old name groups seed,
)

elem-discard : (a b : ℕ) (xs : List ℕ) → (b == a) ≡ false → elem a (discard b xs) ≡ elem a xs
elem-discard a b [] h = refl
elem-discard a b (x ∷ xs) h =
    ground (arith, elem-discard a b xs h, nat_eq.test_path x b, nat_eq.test_path x a)

-- No act of a job takes a record away, or uncovers a seed.
pub Step-grows :
    {version : String} {groups : List (ℕ × List ℕ)} {u v : Storage} (seed : ℕ)
    → Step version groups u v
    → (elem seed u.records ≡ true → elem seed v.records ≡ true)
      × (elem seed (covered version groups u) ≡ true → elem seed (covered version groups v) ≡ true)
Step-grows seed (stage st s) = (λ h. h, λ h. h)
Step-grows seed (produce st s there) = (λ h. or_right (s == seed) (elem seed st.records) h, λ h. h)
Step-grows {version} {groups} seed (publish st g) =
    (λ h. h, λ h. merged_seeds-grow version _ (root_name version g) groups seed h)
Step-grows seed (consume st s merged) = (λ h. h, λ h. h)

pub either_left : (a b c : Bool) → (a ≡ true → c ≡ true) → (a || b) ≡ true → (c || b) ≡ true
either_left a b c f h = ground arith

pub Step-IsAccounted :
    {version : String} {groups : List (ℕ × List ℕ)} {u v : Storage}
    → Step version groups u v
    → IsAccounted version groups u
    → IsAccounted version groups v
Step-IsAccounted (stage st s) ok seed h = ground (arith, ok seed h)
Step-IsAccounted (produce st s there) ok seed h = elim (Bool-cases (s == seed)) [
  | inl same ↦
      or_right _ (elem seed st.staged)
        (subst (λ k. elem k st.staged ≡ true) (eq_of_== s seed same) there)
  | inr other ↦ ok seed (rw other at h)
]
Step-IsAccounted {version} {groups} (publish st g) ok seed h =
    either_left _ (elem seed st.staged) _
      (merged_seeds-grow version _ (root_name version g) groups seed) (ok seed h)
Step-IsAccounted {version} {groups} (consume st s merged) ok seed h =
    elim (Bool-cases (s == seed)) [
      | inl same ↦
          or_left _ _
            (subst (λ k. elem k (covered version groups st) ≡ true) (eq_of_== s seed same) merged)
      | inr other ↦ rw (elem-discard seed s st.staged other) (ok seed h)
    ]

pub Reach-grows :
    {version : String} {groups : List (ℕ × List ℕ)} {u v : Storage} (seed : ℕ)
    → Reach version groups u v
    → (elem seed u.records ≡ true → elem seed v.records ≡ true)
      × (elem seed (covered version groups u) ≡ true → elem seed (covered version groups v) ≡ true)
Reach-grows seed here = (λ h. h, λ h. h)
Reach-grows seed (next r st) =
    let (records, merged) = Reach-grows seed r in
    let (records', merged') = Step-grows seed st in
    (λ h. records' (records h), λ h. merged' (merged h))

pub Reach-IsAccounted :
    {version : String} {groups : List (ℕ × List ℕ)} {u v : Storage}
    → IsAccounted version groups u
    → Reach version groups u v
    → IsAccounted version groups v
Reach-IsAccounted ok here = ok
Reach-IsAccounted ok (next r st) = Step-IsAccounted st (Reach-IsAccounted ok r)

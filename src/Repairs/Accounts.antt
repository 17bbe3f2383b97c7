-- ===== src/Repairs/Accounts.antt =====
-- dsprod/tasks.py, what the backfill and the pruning read of one (era, point, version): the names of
-- its files, and the seeds that its merged files cover.
use text.Mathlib.TextLemmas.{append_cancel_left, append_cancel_right}
use Prim.Native.String.{◌++◌ as ◌⧺◌}
use dsprod.Common.{
  ℕ, ◌≡◌, refl, List, [], ◌∷◌, ◌++◌, String, arith, Eq, ◌==◌, eq_of_==, ==-refl, inl, inr,
  Bool-cases, impossible, map, elem, if◌then◌else◌, nat_eq, string_eq, str, str_injective,
}

-- `f"nano_{version}_{seed}.json"`
unfoldable pub record_name : String → ℕ → String
record_name version seed = "nano_" ⧺ (version ⧺ ("_" ⧺ (str seed ⧺ ".json")))

-- `f"nano_{version}_{number}.root"`, of a seed or of a group.
unfoldable pub root_name : String → ℕ → String
root_name version number = "nano_" ⧺ (version ⧺ ("_" ⧺ (str number ⧺ ".root")))

-- The three listings.
pub record Listings : Type 0 where
  pub records : List String
  pub staged : List String
  pub merged : List String

-- `merged_seeds`, from the groups whose merged file is there.
unfoldable pub merged_seeds : String → List String → List (ℕ × List ℕ) → List ℕ
merged_seeds version have_merged [] = []
merged_seeds version have_merged ((group, seeds) ∷ groups) =
    let rest = merged_seeds version have_merged groups in
    if elem (root_name version group) have_merged then seeds ++ rest else rest

pub record_name_injective :
    (version : String) (a b : ℕ) → record_name version a ≡ record_name version b → a ≡ b
unfolding record_name
record_name_injective version a b h = str_injective a b (
    append_cancel_right (str a) (str b) ".json" (
      append_cancel_left "_" _ _
        (append_cancel_left version _ _ (append_cancel_left "nano_" _ _ h))))

pub root_name_injective :
    (version : String) (a b : ℕ) → root_name version a ≡ root_name version b → a ≡ b
unfolding root_name
root_name_injective version a b h = str_injective a b (
    append_cancel_right (str a) (str b) ".root" (
      append_cancel_left "_" _ _
        (append_cancel_left version _ _ (append_cancel_left "nano_" _ _ h))))

module _ {ℓ κ} {A : Type ℓ} {B : Type κ} ⦃e : Eq A⦄ ⦃e' : Eq B⦄ (f : A → B)
    (injective : (a b : A) → f a ≡ f b → a ≡ b) where
  ==-map : (x a : A) → (f x == f a) ≡ (x == a)
  ==-map x a = elim (Bool-cases (x == a)) [
    | inl same ↦ rw same (rw (eq_of_== x a same) (==-refl (f a)))
    | inr other ↦ rw other (elim (Bool-cases (f x == f a)) [
      | inl clash ↦ absurd (
          impossible
            (rw other at ((e.test_path x a).1 (injective x a (eq_of_== (f x) (f a) clash)))))
      | inr apart ↦ apart
    ])
  ]

  -- An injective name is in a directory exactly if what it names is.
  pub elem-map : (a : A) (xs : List A) → elem (f a) (map f xs) ≡ elem a xs
  elem-map a [] = refl
  elem-map a (x ∷ xs) = ground (arith, ==-map x a, elem-map a xs)

test : record_name "v12" 7 ≡ "nano_v12_7.json"
unfolding record_name str
test = refl

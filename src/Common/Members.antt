-- ===== src/Common/Members.antt =====
-- Lemmas on `elem`, for lists over any type with an equality.
use native.Mathlib.Omega.{arith}
use mathlib.Core.Path.{◌≡◌, refl, ap}
use mathlib.Core.Logic.{inl, inr}
use mathlib.Core.Bool.{Bool, true, false, ◌&&◌, ◌||◌}
use mathlib.Core.List.{List, [], ◌∷◌, ◌++◌}
use dsprod.Common.Tests.{Bool-cases}
use dsprod.Common.Lists.{filter, All, All-mono}
use dsprod.Common.Keys.{Eq, ◌==◌, ==-refl, eq_of_==, elem}

pub impossible : false ≡ true → ⊥
impossible h = cc

pub or_right : (a b : Bool) → b ≡ true → (a || b) ≡ true
or_right a b h = ground arith

pub or_left : (a b : Bool) → a ≡ true → (a || b) ≡ true
or_left a b h = ground arith

module _ {ℓ} {A : Type ℓ} ⦃e : Eq A⦄ where
  pub elem-filter : (q : A → Bool) (xs : List A) (a : A) → elem a (filter q xs) ≡ (elem a xs && q a)
  elem-filter q [] a = refl
  elem-filter q (x ∷ xs) a = elim (Bool-cases (x == a)) [
    | inl same ↦ ground (arith, elem-filter q xs a, ap q (eq_of_== x a same))
    | inr other ↦ ground (arith, elem-filter q xs a)
  ]

  pub elem-append : (xs ys : List A) (a : A) → elem a (xs ++ ys) ≡ (elem a xs || elem a ys)
  elem-append [] ys a = refl
  elem-append (x ∷ xs) ys a = ground (arith, elem-append xs ys a)

  pub elem_self : (xs : List A) → All (λ x. elem x xs ≡ true) xs
  elem_self [] = tt
  elem_self (x ∷ xs) =
      (rw (==-refl x) refl, All-mono (λ y h. rw h (ground arith)) xs (elem_self xs))

  pub elem-append_left : (a : A) (xs ys : List A) → elem a xs ≡ true → elem a (xs ++ ys) ≡ true
  elem-append_left a xs ys h = rw (elem-append xs ys a, h) refl

  pub elem-append_right : (a : A) (xs ys : List A) → elem a ys ≡ true → elem a (xs ++ ys) ≡ true
  elem-append_right a xs ys h = rw (elem-append xs ys a, h) (ground arith)

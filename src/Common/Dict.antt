-- ===== src/Common/Dict.antt =====
-- Python's `dict`: an association list in insertion order, so iterating is reading the list.
use Prim.Native.Nat.{◌+◌, ◌≤◌}
use mathlib.Core.Path.{◌≡◌, refl, subst, sym, ap}
use mathlib.Core.Logic.{inl, inr}
use mathlib.Core.Bool.{Bool, true, false, not, ◌&&◌, ◌||◌}
use mathlib.Core.Option.{Option, none, some}
use mathlib.Core.List.{List, [], ◌∷◌, ◌++◌, append-nil}
use native.Mathlib.Omega.{arith}
use dsprod.Common.Tests.{if◌then◌else◌, or_else, Bool-cases}
use dsprod.Common.Lists.{length, All}
use dsprod.Common.Keys.{Eq, ◌==◌, ==-refl, eq_of_==, elem, IsDistinct}

abbrev pub Dict {ℓ κ} : Type ℓ → Type κ → Type (ℓ ⊔ κ)
Dict K V = List (K × V)

abbrev pub keys {ℓ κ} : {K : Type ℓ} {V : Type κ} → Dict K V → List K
keys [] = []
keys ((k, v) ∷ d) = k ∷ keys d

abbrev pub values {ℓ κ} : {K : Type ℓ} {V : Type κ} → Dict K V → List V
values [] = []
values ((k, v) ∷ d) = v ∷ values d

module _ {ℓ κ} {K : Type ℓ} {V : Type κ} ⦃e : Eq K⦄ where
  -- `d.get(k)`
  abbrev pub get : Dict K V → K → Option V
  get [] k = none
  get ((j, v) ∷ d) k = if j == k then some v else get d k

  -- `d.get(k, default)`
  abbrev pub get_or : Dict K V → K → V → V
  get_or d k v = or_else (get d k) v

  -- `d[k] = v`: an old key keeps its place, a new one goes to the end
  abbrev pub put : Dict K V → K → V → Dict K V
  put [] k v = (k, v) ∷ []
  put ((j, w) ∷ d) k v = let rest = put d k v in if j == k then (k, v) ∷ d else (j, w) ∷ rest

  -- `d.setdefault(k, v)`
  abbrev pub set_default : Dict K V → K → V → Dict K V
  set_default [] k v = (k, v) ∷ []
  set_default ((j, w) ∷ d) k v =
      let rest = set_default d k v in if j == k then (j, w) ∷ d else (j, w) ∷ rest

  -- `d.pop(k, None)`
  abbrev pub pop : Dict K V → K → Dict K V
  pop [] k = []
  pop ((j, w) ∷ d) k = let rest = pop d k in if j == k then rest else (j, w) ∷ rest

  -- `k in d`
  abbrev pub has : Dict K V → K → Bool
  has d k = elem k (keys d)

  pub get-put :
      (d : Dict K V) (k j : K) (v : V) → get (put d k v) j ≡ (if k == j then some v else get d j)
  get-put [] k j v = refl
  get-put ((i, w) ∷ d) k j v =
      ground (arith, get-put d k j v, e.test_path k j, e.test_path i k, e.test_path i j)

  pub get-pop : (d : Dict K V) (k j : K) → get (pop d k) j ≡ (if k == j then none else get d j)
  get-pop [] k j = ground arith
  get-pop ((i, w) ∷ d) k j =
      ground (arith, get-pop d k j, e.test_path k j, e.test_path i k, e.test_path i j)

  pub get-set_default :
      (d : Dict K V) (k j : K) (v : V)
      → get (set_default d k v) j ≡ (if k == j then some (get_or d k v) else get d j)
  get-set_default [] k j v = refl
  get-set_default ((i, w) ∷ d) k j v =
      ground (arith, get-set_default d k j v, e.test_path k j, e.test_path i k, e.test_path i j)

  -- A key that is there keeps its value.
  pub get-set_default_kept :
      (d : Dict K V) (k j : K) (v w : V) → get d j ≡ some w → get (set_default d k v) j ≡ some w
  get-set_default_kept [] k j v w h = cc
  get-set_default_kept ((i, u) ∷ d) k j v w h =
      let later : get d j ≡ some w → get (set_default d k v) j ≡ some w =
        get-set_default_kept d k j v w in
      elim (Bool-cases (i == k)) [
        | inl old ↦ rw old h
        | inr other ↦ rw other (elim (Bool-cases (i == j)) [
          | inl here ↦ rw here (rw here at h)
          | inr there ↦ rw there (later (rw there at h))
        ])
      ]

  pub get-set_default_self :
      (d : Dict K V) (k : K) (v : V)
      → get (set_default d k v) k ≡ some (get_or (set_default d k v) k v)
  get-set_default_self d k v = rw (get-set_default d k k v, ==-refl k)

  pub get-put_self : (d : Dict K V) (k : K) (v : V) → get (put d k v) k ≡ some v
  get-put_self d k v = rw (get-put d k k v, ==-refl k)

  pub get-put_ne : (d : Dict K V) (k j : K) (v : V) → (k == j) ≡ false → get (put d k v) j ≡ get d j
  get-put_ne d k j v h = rw (get-put d k j v, h)

  pub length-put-le : (d : Dict K V) (k : K) (v : V) → length (put d k v) ≤ length d + 1
  length-put-le [] k v = omega arith
  length-put-le ((j, w) ∷ d) k v = ground (arith, length-put-le d k v)

  pub elem-keys-put :
      (d : Dict K V) (k j : K) (v : V) → elem j (keys (put d k v)) ≡ (k == j || elem j (keys d))
  elem-keys-put [] k j v = refl
  elem-keys-put ((i, w) ∷ d) k j v =
      ground (arith, elem-keys-put d k j v, e.test_path k j, e.test_path i k, e.test_path i j)

  pub elem-keys-pop :
      (d : Dict K V) (k j : K) → elem j (keys (pop d k)) ≡ (not (k == j) && elem j (keys d))
  elem-keys-pop [] k j = ground arith
  elem-keys-pop ((i, w) ∷ d) k j =
      ground (arith, elem-keys-pop d k j, e.test_path k j, e.test_path i k, e.test_path i j)

  -- A new key makes a dictionary longer by one, an old one does not.
  pub length-put :
      (d : Dict K V) (k : K) (v : V)
      → length (put d k v) ≡ (if has d k then length d else length d + 1)
  length-put [] k v = omega arith
  length-put ((i, w) ∷ d) k v = ground (arith, length-put d k v)

  pub pop_absent : (d : Dict K V) (k : K) → has d k ≡ false → pop d k ≡ d
  pop_absent [] k h = refl
  pop_absent ((i, w) ∷ d) k h = ground (arith, pop_absent d k)

  pub length-pop :
      (d : Dict K V) (k : K)
      → IsDistinct (keys d)
      → has d k ≡ true
      → length (pop d k) + 1 ≡ length d
  length-pop [] k distinct h = cc
  length-pop ((i, w) ∷ d) k distinct h = elim (Bool-cases (i == k)) [
    | inl same ↦
        let absent : has d k ≡ false = rw (eq_of_== i k same) at distinct.0 in
        rw (same, pop_absent d k absent) (omega arith)
    | inr other ↦ rw other (omega (arith, length-pop d k distinct.1 (rw other at h)))
  ]

  pub pop-IsDistinct : (d : Dict K V) (k : K) → IsDistinct (keys d) → IsDistinct (keys (pop d k))
  pop-IsDistinct [] k h = tt
  pop-IsDistinct ((i, w) ∷ d) k h = ground (arith, pop-IsDistinct d k h.1, elem-keys-pop d k i)

  -- The keys that were there keep their places in front.
  pub keys-put_prefix :
      (d : Dict K V) (k : K) (v : V) → (new : List K) × (keys (put d k v) ≡ keys d ++ new)
  keys-put_prefix [] k v = (k ∷ [], refl)
  keys-put_prefix ((i, w) ∷ d) k v =
      let (new, e) = keys-put_prefix d k v in
      elim (Bool-cases (i == k)) [
        | inl same ↦ ([], rw (same, append-nil) (ap (λ j. j ∷ keys d) (sym (eq_of_== i k same))))
        | inr other ↦ (new, rw other (ap (◌∷◌ i) e))
      ]

  pub put-IsDistinct :
      (d : Dict K V) (k : K) (v : V) → IsDistinct (keys d) → IsDistinct (keys (put d k v))
  put-IsDistinct [] k v h = (refl, tt)
  put-IsDistinct ((i, w) ∷ d) k v h =
      ground
        (arith, put-IsDistinct d k v h.1, elem-keys-put d k i v, e.test_path i k, e.test_path k i)

  pub other_keys :
      (k : K) (d : Dict K V) → elem k (keys d) ≡ false → All (λ e. (k == e.0) ≡ false) d
  other_keys k [] h = tt
  other_keys k ((j, w) ∷ d) h = ground (arith, e.test_path j k, e.test_path k j, other_keys k d)

  get_skip :
      (k : K) (v : V) (d es : Dict K V)
      → All (λ e. (k == e.0) ≡ false) es
      → All (λ e. get d e.0 ≡ some e.1) es
      → All (λ e. get ((k, v) ∷ d) e.0 ≡ some e.1) es
  get_skip k v d [] h g = tt
  get_skip k v d (x ∷ es) h g = (rw (h.0) (g.0), get_skip k v d es h.1 g.1)

  -- Every entry is found under its key, if the keys are distinct.
  pub get-entries : (d : Dict K V) → IsDistinct (keys d) → All (λ e. get d e.0 ≡ some e.1) d
  get-entries [] h = tt
  get-entries ((k, v) ∷ d) h =
      (rw (==-refl k), get_skip k v d d (other_keys k d h.0) (get-entries d h.1))

  pub All-keys-put {μ} :
      (P : K → Type μ) (d : Dict K V) (k : K) (v : V)
      → P k
      → All P (keys d)
      → All P (keys (put d k v))
  All-keys-put P [] k v h hs = (h, tt)
  All-keys-put P ((j, w) ∷ d) k v h hs = ground (arith, All-keys-put P d k v h hs.1)

  pub All-put {μ} :
      (P : K × V → Type μ) (d : Dict K V) (k : K) (v : V) → P (k, v) → All P d → All P (put d k v)
  All-put P [] k v h hs = (h, tt)
  All-put P ((j, w) ∷ d) k v h hs = elim (Bool-cases (j == k)) [
    | inl same ↦ rw same (h, hs.1)
    | inr other ↦ rw other (hs.0, All-put P d k v h hs.1)
  ]

  -- A key that is there stands before a value of which `P` holds.
  pub All-has {μ} :
      (P : K × V → Type μ) (d : Dict K V) (k : K) → has d k ≡ true → All P d → (v : V) × P (k, v)
  All-has P [] k h hs = cc
  All-has P ((j, w) ∷ d) k h hs = elim (Bool-cases (j == k)) [
    | inl same ↦ (w, subst (λ i. P (i, w)) (eq_of_== j k same) hs.0)
    | inr other ↦ All-has P d k (rw other at h) hs.1
  ]

pub ruleset dict_laws = (get-put, get-pop, get-set_default)

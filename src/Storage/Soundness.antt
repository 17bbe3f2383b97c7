-- ===== src/Storage/Soundness.antt =====
-- dsprod/law_gfal.py: when the answers of `exists` agree with the storage.
use dsprod.Common.{
  ℕ, ◌≡◌, ◌≤◌, refl, sym, ◌∙◌, Bool, true, false, not, ◌&&◌, List, [], ◌∷◌, none, some, arith, elem,
  ◌==◌, All, inl, inr, Bool-cases, Option-cases, nat_eq,
}
use dsprod.Common.Dict.{Dict, get, pop, get-pop}
use dsprod.Storage.Paths.{Uri, uri_eq, iter_parents, join, ends_in_slash}
use dsprod.Storage.Listing.{LsAnswer, found, absent}
use dsprod.Storage.Cache.{Entry, PathCache, is_valid, lookup, infer}

-- What is on the storage.
abbrev pub World : Type 0
World = Uri → Bool

abbrev pub is_name : Uri → Bool
is_name [] = false
is_name (c ∷ n) = not (elem b'/' (c ∷ n))

-- A name of a directory's entry: it is not empty, and has no slash.
abbrev pub IsName : Uri → Type 0
IsName n = is_name n ≡ true

-- An address of a directory, without a slash at its end.
abbrev pub IsDirectory : Uri → Type 0
IsDirectory d = ends_in_slash d ≡ false

-- Whatever is there stands in directories that are there.
pub record IsTree (w : World) : Type 0 where
  pub ancestors : (p : Uri) → w p ≡ true → All (λ q. w q ≡ true) (iter_parents p)
  pub inside : (d n : Uri) → IsDirectory d → IsName n → w (join d n) ≡ true → w d ≡ true

-- gfal may fail to answer; if it answers it says what is there.
pub record IsTruthful (w : World) (ls : Uri → LsAnswer) : Type 0 where
  pub listing :
      (d : Uri) (names : List Uri)
      → ls d ≡ found names
      → IsDirectory d
      → (n : Uri) → IsName n
      → elem n names ≡ w (join d n)
  pub missing : (d : Uri) → ls d ≡ absent → w d ≡ false

-- A valid entry says what is there.
abbrev pub Agrees : ℕ → World → Dict Uri Entry → Type 0
Agrees now w cache =
    (p : Uri) (e : Entry) → get cache p ≡ some e → is_valid now e ≡ true → e.exists ≡ w p

-- Whatever is there in a directory whose listing is kept is known for as long as the listing.
abbrev pub IsComplete : ℕ → World → Dict Uri Entry → Type 0
IsComplete now w cache =
    (d n : Uri) (e : Entry)
    → get cache d ≡ some e
    → (is_valid now e && (e.exists && e.listed)) ≡ true
    → IsName n
    → w (join d n) ≡ true
    → (e' : Entry) × (get cache (join d n) ≡ some e') × (e.expiration_time ≤ e'.expiration_time)

pub still_valid :
    (now : ℕ) (e e' : Entry)
    → (is_valid now e && (e.exists && e.listed)) ≡ true
    → e.expiration_time ≤ e'.expiration_time
    → is_valid now e' ≡ true
still_valid now e e' h longer = ground arith

pub none_not_some : {b : Bool} → none ≡ some b → ⊥
none_not_some h = cc

some_same_false : {b : Bool} → some false ≡ some b → b ≡ false
some_same_false h = cc

pub pop-part :
    (cache : Dict Uri Entry) (p q : Uri) (e : Entry)
    → get (pop cache p) q ≡ some e
    → get cache q ≡ some e
pop-part cache p q e h = elim (Bool-cases (p == q)) [
  | inl same ↦ ground (arith, get-pop cache p q)
  | inr other ↦ ground (arith, get-pop cache p q)
]

-- The inference only forgets.
infer-part :
    (now : ℕ) (cache : Dict Uri Entry) (parents : List Uri) (q : Uri) (e : Entry)
    → get (infer now cache parents).0 q ≡ some e
    → get cache q ≡ some e
unfolding infer
infer-part now cache [] q e h = h
infer-part now cache (p ∷ parents) q e h = elim (Option-cases (get cache p)) [
  | inl unknown ↦ infer-part now cache parents q e (rw (infer, unknown) at h)
  | inr (e', known) ↦ elim (Bool-cases (is_valid now e')) [
    | inl valid ↦ elim (Bool-cases e'.exists) [
      | inl there ↦ rw (infer, known, valid, there) at h
      | inr gone ↦ rw (infer, known, valid, gone) at h
    ]
    | inr expired ↦
        pop-part cache p q e
          (infer-part now (pop cache p) parents q e (rw (infer, known, expired) at h))
  ]
]

-- No ancestor of what is there is taken for absent.
infer-none :
    (now : ℕ) (w : World) (cache : Dict Uri Entry) (parents : List Uri)
    → Agrees now w cache
    → All (λ q. w q ≡ true) parents
    → (infer now cache parents).1 ≡ none
unfolding infer
infer-none now w cache [] ok h = refl
infer-none now w cache (p ∷ parents) ok h = elim (Option-cases (get cache p)) [
  | inl unknown ↦ rw (infer, unknown) (infer-none now w cache parents ok h.1)
  | inr (e, known) ↦
      rw (infer, known)
        (elim (Bool-cases (is_valid now e)) [
          | inl valid ↦ rw (valid, ok p e known valid ∙ h.0) refl
          | inr expired ↦ rw expired (
              infer-none now w (pop cache p) parents
                (λ q e' k v. ok q e' (pop-part cache p q e' k) v) h.1)
        ])
]

infer-false :
    (now : ℕ) (cache : Dict Uri Entry) (parents : List Uri) (b : Bool)
    → (infer now cache parents).1 ≡ some b
    → b ≡ false
unfolding infer
infer-false now cache [] b h = cc
infer-false now cache (p ∷ parents) b h = elim (Option-cases (get cache p)) [
  | inl unknown ↦ infer-false now cache parents b (rw (infer, unknown) at h)
  | inr (e, known) ↦ elim (Bool-cases (is_valid now e)) [
    | inl valid ↦ elim (Bool-cases e.exists) [
      | inl there ↦ absurd (none_not_some (rw (infer, known, valid, there) at h))
      | inr gone ↦ some_same_false (rw (infer, known, valid, gone) at h)
    ]
    | inr expired ↦ infer-false now (pop cache p) parents b (rw (infer, known, expired) at h)
  ]
]

pub some_path : {a b : Bool} → some a ≡ some b → a ≡ b
some_path h = cc

some_not_none : {b : Bool} → some b ≡ none → ⊥
some_not_none h = cc

module _ (now : ℕ) (w : World) (tree : IsTree w) where
  absent_above :
      (cache : Dict Uri Entry) (p : Uri) (b : Bool)
      → Agrees now w cache
      → (infer now cache (iter_parents p)).1 ≡ some b
      → b ≡ w p
  absent_above cache p b ok h = elim (Bool-cases (w p)) [
    | inl there ↦ absurd (
        none_not_some
          (sym (infer-none now w cache (iter_parents p) ok (tree.ancestors p there)) ∙ h))
    | inr gone ↦ infer-false now cache (iter_parents p) b h ∙ sym gone
  ]

  -- A look-up that answers says what is there.
  pub lookup-Agrees :
      (c : PathCache) (p : Uri) (b : Bool)
      → Agrees now w c.cache
      → (lookup now p c).1 ≡ some b
      → b ≡ w p
  unfolding lookup
  lookup-Agrees c p b ok h = elim (Option-cases (get c.cache p)) [
    | inl unknown ↦ absent_above c.cache p b ok (rw (lookup, unknown) at h)
    | inr (e, known) ↦ elim (Bool-cases (is_valid now e)) [
      | inl valid ↦ sym (some_path (rw (lookup, known, valid) at h)) ∙ ok p e known valid
      | inr expired ↦
          absent_above (pop c.cache p) p b (λ q e' k v. ok q e' (pop-part c.cache p q e' k) v)
            (rw (lookup, known, expired) at h)
    ]
  ]

  -- A look-up that does not answer found no valid entry, and leaves none that was not there.
  pub lookup-unknown :
      (c : PathCache) (p : Uri) (e : Entry)
      → (lookup now p c).1 ≡ none
      → get c.cache p ≡ some e
      → is_valid now e ≡ false
  unfolding lookup
  lookup-unknown c p e h known = elim (Bool-cases (is_valid now e)) [
    | inl valid ↦ absurd (some_not_none (rw (lookup, known, valid) at h))
    | inr expired ↦ expired
  ]

  pub lookup-part :
      (c : PathCache) (p q : Uri) (e : Entry)
      → get (lookup now p c).0.cache q ≡ some e
      → get c.cache q ≡ some e
  unfolding lookup
  lookup-part c p q e h = elim (Option-cases (get c.cache p)) [
    | inl unknown ↦ infer-part now c.cache (iter_parents p) q e (rw (lookup, unknown) at h)
    | inr (e', known) ↦ elim (Bool-cases (is_valid now e')) [
      | inl valid ↦ rw (lookup, known, valid) at h
      | inr expired ↦
          pop-part c.cache p q e
            (infer-part now (pop c.cache p) (iter_parents p) q e (rw (lookup, known, expired) at h))
    ]
  ]

-- ===== src/Storage/Preservation.antt =====
-- dsprod/law_gfal.py: what `PathCache.set` and `set_exists` keep true of the cache.
use dsprod.Common.{
  ℕ, ◌+◌, ◌≡◌, ◌≤◌, refl, sym, ◌∙◌, ap, subst, Bool, true, false, ◌&&◌, ◌||◌, List, [], ◌∷◌, Option,
  none, some, arith, ◌==◌, inl, inr, Bool-cases, ◌⊎◌, impossible, nat_eq, eq_of_==, ==-refl,
}
use dsprod.Common.Dict.{Dict, get, put, pop, get-put, get-pop}
use dsprod.Storage.Paths.{Uri, uri_eq, join, iter_parents}
use dsprod.Storage.Cache.{
  Entry, PathCache, entry, is_valid, set, drop_absent, says_absent, was_there,
}
use dsprod.Storage.Soundness.{World, IsName, Agrees, IsComplete, pop-part, still_valid}

drop_absent-part :
    (cache : Dict Uri Entry) (parents : List Uri) (q : Uri) (e : Entry)
    → get (drop_absent cache parents) q ≡ some e
    → get cache q ≡ some e
unfolding drop_absent
drop_absent-part cache [] q e h = h
drop_absent-part cache (p ∷ parents) q e h = elim (Bool-cases (says_absent (get cache p))) [
  | inl gone ↦
      pop-part cache p q e
        (drop_absent-part (pop cache p) parents q e (rw (drop_absent, gone) at h))
  | inr kept ↦ drop_absent-part cache parents q e (rw (drop_absent, kept) at h)
]

absent_says : (o : Option Entry) (e : Entry) → o ≡ some e → e.exists ≡ true → says_absent o ≡ false
absent_says none e h there = refl
absent_says (some e') e h there = ground arith

-- What exists is not dropped.
drop_absent-keeps :
    (cache : Dict Uri Entry) (parents : List Uri) (q : Uri) (e : Entry)
    → get cache q ≡ some e
    → e.exists ≡ true
    → get (drop_absent cache parents) q ≡ some e
unfolding drop_absent
drop_absent-keeps cache [] q e h there = h
drop_absent-keeps cache (p ∷ parents) q e h there = elim (Bool-cases (says_absent (get cache p))) [
  | inr kept ↦ rw kept (drop_absent-keeps cache parents q e h there)
  | inl gone ↦ rw gone (
      drop_absent-keeps (pop cache p) parents q e
        (elim (Bool-cases (p == q)) [
          | inl same ↦ absurd (
              impossible
                (sym (absent_says (get cache p) e (rw (eq_of_== p q same) h) there) ∙ gone))
          | inr other ↦ rw (get-pop cache p q, other) h
        ])
        there)
]

-- No entry is valid for longer than a new one.
abbrev pub IsBounded : ℕ → PathCache → Type 0
IsBounded now c =
    (p : Uri) (e : Entry) → get c.cache p ≡ some e → e.expiration_time ≤ now + c.validity_period

pub record IsSound (now : ℕ) (w : World) (c : PathCache) : Type 0 where
  pub agrees : Agrees now w c.cache
  pub complete : IsComplete now w c.cache
  pub bounded : IsBounded now c

-- The entry that `set` writes.
abbrev pub new_entry : ℕ → Uri → Bool → Bool → PathCache → Entry
new_entry now p exists listed c =
    entry exists (now + c.validity_period) (listed || (was_there now (get c.cache p) && exists))

set-part :
    (now : ℕ) (p : Uri) (exists listed : Bool) (c : PathCache) (q : Uri) (e : Entry)
    → get (set now p exists listed c).cache q ≡ some e
    → get (put c.cache p (new_entry now p exists listed c)) q ≡ some e
unfolding set
set-part now p true listed c q e h = drop_absent-part _ (iter_parents p) q e h
set-part now p false listed c q e h = h

set-keeps :
    (now : ℕ) (p : Uri) (exists listed : Bool) (c : PathCache) (q : Uri) (e : Entry)
    → get (put c.cache p (new_entry now p exists listed c)) q ≡ some e
    → e.exists ≡ true
    → get (set now p exists listed c).cache q ≡ some e
unfolding set
set-keeps now p true listed c q e h there = drop_absent-keeps _ (iter_parents p) q e h there
set-keeps now p false listed c q e h there = h

some_entry : {a b : Entry} → some a ≡ some b → a ≡ b
some_entry h = cc

-- What `set` leaves is the new entry, or one that was there.
pub set-cases :
    (now : ℕ) (p : Uri) (exists listed : Bool) (c : PathCache) (q : Uri) (e : Entry)
    → get (set now p exists listed c).cache q ≡ some e
    → ((p ≡ q) × (new_entry now p exists listed c ≡ e))
      ⊎ (((p == q) ≡ false) × (get c.cache q ≡ some e))
set-cases now p exists listed c q e h =
    let written =
      sym (get-put c.cache p q (new_entry now p exists listed c))
      ∙ set-part now p exists listed c q e h in
    elim (Bool-cases (p == q)) [
      | inl same ↦ inl (eq_of_== p q same, some_entry (rw same at written))
      | inr other ↦ inr (other, rw other at written)
    ]

-- The new entry is there, if it says that the path exists.
pub set-get_self :
    (now : ℕ) (p : Uri) (listed : Bool) (c : PathCache)
    → get (set now p true listed c).cache p ≡ some (new_entry now p true listed c)
set-get_self now p listed c =
    set-keeps now p true listed c p _
      (rw (get-put c.cache p p (new_entry now p true listed c), ==-refl p) refl) refl

set-get_ne :
    (now : ℕ) (p : Uri) (exists listed : Bool) (c : PathCache) (q : Uri) (e : Entry)
    → (p == q) ≡ false
    → get c.cache q ≡ some e
    → e.exists ≡ true
    → get (set now p exists listed c).cache q ≡ some e
set-get_ne now p exists listed c q e other h there =
    set-keeps now p exists listed c q e
      (rw (get-put c.cache p q (new_entry now p exists listed c), other) h) there

is_kept :
    (now : ℕ) (a e : Entry)
    → a ≡ e
    → (is_valid now e && (e.exists && e.listed)) ≡ true
    → a.listed ≡ true
is_kept now a e same h = rw same (ground arith)

module _ (now : ℕ) (w : World) (p : Uri) (exists listed : Bool) (c : PathCache)
    (true_to : exists ≡ w p) (sound : IsSound now w c) where
  set-Agrees : Agrees now w (set now p exists listed c).cache
  set-Agrees q e h valid = elim (set-cases now p exists listed c q e h) [
    | inl (same, new) ↦ sym (ap (λ e. e.exists) new) ∙ true_to ∙ ap w same
    | inr (other, old) ↦ sound.agrees q e old valid
  ]

  set-IsBounded : IsBounded now (set now p exists listed c)
  unfolding set
  set-IsBounded q e h = elim (set-cases now p exists listed c q e h) [
    | inl (same, new) ↦ subst (λ e. e.expiration_time ≤ now + c.validity_period) new (omega arith)
    | inr (other, old) ↦ sound.bounded q e old
  ]

  -- An entry that was there is there, or gives way to one that is valid for longer.
  pub known_after :
      (q : Uri) (e : Entry) (least : ℕ)
      → get c.cache q ≡ some e
      → w q ≡ true
      → is_valid now e ≡ true
      → least ≤ e.expiration_time
      → (e' : Entry) × (get (set now p exists listed c).cache q ≡ some e')
        × (least ≤ e'.expiration_time)
  known_after q e least known there valid long = elim (Bool-cases (p == q)) [
    | inr other ↦ (
      e,
      set-get_ne now p exists listed c q e other known (sound.agrees q e known valid ∙ there),
      long,
    )
    | inl same ↦
        let here : exists ≡ true = true_to ∙ ap w (eq_of_== p q same) ∙ there in
        let within = sound.bounded q e known in
        (
          new_entry now p true listed c,
          subst (λ b. get (set now p b listed c).cache q ≡ some (new_entry now p true listed c))
              (sym here)
              (subst
                (λ r. get (set now p true listed c).cache r ≡ some (new_entry now p true listed c))
                (eq_of_== p q same) (set-get_self now p listed c)),
          omega arith,
        )
  ]

  -- `set` keeps the cache sound, if it keeps or makes no listing of a directory some of whose
  -- entries are known for less long.
  pub set-IsSound :
      ((new_entry now p exists listed c).listed ≡ true
        → (n : Uri) → IsName n
        → w (join p n) ≡ true
        → (e' : Entry) × (get c.cache (join p n) ≡ some e')
          × (now + c.validity_period ≤ e'.expiration_time))
      → IsSound now w (set now p exists listed c)
  set-IsSound fresh = record {
    agrees = set-Agrees;
    bounded = set-IsBounded;
    complete = λ d n e h valid name there. elim (set-cases now p exists listed c d e h) [
      | inr (other, old) ↦
          let (e', known, longer) = sound.complete d n e old valid name there in
          known_after (join d n) e' e.expiration_time known there
            (still_valid now e e' valid longer) longer
      | inl (same, new) ↦
          let (e', known, longer) =
            fresh (is_kept now _ e new valid) n name
              (subst (λ q. w (join q n) ≡ true) (sym same) there) in
          let known' = subst (λ q. get c.cache (join q n) ≡ some e') same known in
          let exact : e.expiration_time ≤ e'.expiration_time =
            subst (λ e. e.expiration_time ≤ e'.expiration_time) new longer in
          known_after (join d n) e' e.expiration_time known' there
            (still_valid now e e' valid exact) exact
    ];
  }

-- ===== src/Storage/Listed.antt =====
-- dsprod/law_gfal.py: `PathCache.set_exists`, when a directory was listed.
use dsprod.Common.{
  ℕ, ◌+◌, ◌≡◌, ◌≤◌, refl, sym, ◌∙◌, ap, subst, true, false, List, [], ◌∷◌, Option, none, some,
  arith, elem, ◌==◌, All, All-mono, inl, inr, Bool-cases, impossible, nat_eq, eq_of_==,
}
use dsprod.Common.Dict.{get}
use dsprod.Storage.Paths.{Uri, uri_eq, join}
use dsprod.Storage.Cache.{Entry, PathCache, is_valid, set, set_exists, set_items, was_there}
use dsprod.Storage.Soundness.{World, IsName}
use dsprod.Storage.Preservation.{
  IsSound, new_entry, set-cases, set-get_self, known_after, set-IsSound,
}

-- A directory of which no listing is kept: `set` would keep a listing for longer.
abbrev pub IsUnlisted : ℕ → PathCache → Uri → Type 0
IsUnlisted now c p = was_there now (get c.cache p) ≡ false

unlisted_entry :
    (now : ℕ) (c : PathCache) (p : Uri)
    → IsUnlisted now c p
    → (new_entry now p true false c).listed ≡ true
    → ⊥
unlisted_entry now c p h kept = ground arith

is_fresh : (now v : ℕ) (e : Entry) → now + v ≤ e.expiration_time → is_valid now e ≡ true
is_fresh now v e h = ground arith

was_there_of :
    (now : ℕ) (o : Option Entry)
    → was_there now o ≡ true
    → (e : Entry) × (o ≡ some e) × (e.listed ≡ true)
was_there_of now none h = absurd (impossible h)
was_there_of now (some e) h = (e, refl, ground arith)

-- `set` makes no listing.
set-IsUnlisted :
    (now : ℕ) (c : PathCache) (p q : Uri)
    → IsUnlisted now c p
    → IsUnlisted now c q
    → IsUnlisted now (set now p true false c) q
set-IsUnlisted now c p q hp hq =
    elim (Bool-cases (was_there now (get (set now p true false c).cache q))) [
      | inr unlisted ↦ unlisted
      | inl listed ↦
          let (e, known, kept) = was_there_of now _ listed in
          elim (set-cases now p true false c q e known) [
            | inl (same, new) ↦
                absurd (unlisted_entry now c p hp (subst (λ r. r.listed ≡ true) (sym new) kept))
            | inr (other, old) ↦
                absurd (impossible (sym hq ∙ ap (was_there now) (old ∙ sym known) ∙ listed))
          ]
    ]

module _ (now : ℕ) (w : World) (base : Uri) where
  set_items-period :
      (names : List Uri) (c : PathCache)
      → (set_items now base names c).validity_period ≡ c.validity_period
  unfolding set_items set
  set_items-period [] c = refl
  set_items-period (n ∷ names) c = set_items-period names (set now (join base n) true false c)

  -- What is there, and not a directory whose listing is kept.
  abbrev pub IsPlain : PathCache → Uri → Type 0
  IsPlain c n = (w (join base n) ≡ true) × IsUnlisted now c (join base n)

  item-IsSound :
      (c : PathCache) (n : Uri)
      → IsPlain c n
      → IsSound now w c
      → IsSound now w (set now (join base n) true false c)
  item-IsSound c n plain sound =
      set-IsSound now w (join base n) true false c (sym plain.0) sound
        (λ kept. absurd (unlisted_entry now c (join base n) plain.1 kept))

  others-IsPlain :
      (c : PathCache) (n : Uri) (names : List Uri)
      → IsPlain c n
      → All (IsPlain c) names
      → All (IsPlain (set now (join base n) true false c)) names
  others-IsPlain c n names plain h =
      All-mono
        (λ m other. (other.0, set-IsUnlisted now c (join base n) (join base m) plain.1 other.1))
        names h

  set_items-IsSound :
      (names : List Uri) (c : PathCache)
      → All (IsPlain c) names
      → IsSound now w c
      → IsSound now w (set_items now base names c)
  unfolding set_items
  set_items-IsSound [] c h sound = sound
  set_items-IsSound (n ∷ names) c h sound =
      set_items-IsSound names _ (others-IsPlain c n names h.0 h.1) (item-IsSound c n h.0 sound)

  set_items-known :
      (names : List Uri) (c : PathCache) (q : Uri) (e : Entry) (v : ℕ)
      → All (IsPlain c) names
      → IsSound now w c
      → get c.cache q ≡ some e
      → w q ≡ true
      → now + v ≤ e.expiration_time
      → (e' : Entry) × (get (set_items now base names c).cache q ≡ some e')
        × (now + v ≤ e'.expiration_time)
  unfolding set_items
  set_items-known [] c q e v h sound known there long = (e, known, long)
  set_items-known (n ∷ names) c q e v h sound known there long =
      let (e', known', long') =
        known_after now w (join base n) true false c (sym h.0.0) sound q e (now + v) known there
          (is_fresh now v e long) long in
      set_items-known names _ q e' v (others-IsPlain c n names h.0 h.1) (item-IsSound c n h.0 sound)
        known' there long'

  set_items-fresh :
      (names : List Uri) (c : PathCache) (n : Uri)
      → All (IsPlain c) names
      → IsSound now w c
      → elem n names ≡ true
      → (e' : Entry) × (get (set_items now base names c).cache (join base n) ≡ some e')
        × (now + c.validity_period ≤ e'.expiration_time)
  unfolding set_items set
  set_items-fresh [] c n h sound inside = absurd (impossible inside)
  set_items-fresh (m ∷ names) c n h sound inside = elim (Bool-cases (m == n)) [
    | inl same ↦
        set_items-known names _ (join base n) (new_entry now (join base m) true false c)
          c.validity_period (others-IsPlain c m names h.0 h.1) (item-IsSound c m h.0 sound)
          (subst
            (λ k.
              get (set now (join base m) true false c).cache (join base k)
              ≡ some (new_entry now (join base m) true false c))
            (eq_of_== m n same) (set-get_self now (join base m) false c))
          (subst (λ k. w (join base k) ≡ true) (eq_of_== m n same) h.0.0) (omega arith)
    | inr other ↦
        set_items-fresh names (set now (join base m) true false c) n
          (others-IsPlain c m names h.0 h.1) (item-IsSound c m h.0 sound) (rw other at inside)
  ]

  -- A listing keeps the cache sound, as a description of the storage, if it says what is in the
  -- directory, and if no listing is kept of a directory in it: that one would be kept for longer,
  -- but what is known of its own entries would not.
  pub set_exists-IsSound :
      (names : List Uri) (c : PathCache)
      → w base ≡ true
      → All (IsPlain c) names
      → ((n : Uri) → IsName n → w (join base n) ≡ true → elem n names ≡ true)
      → IsSound now w c
      → IsSound now w (set_exists now base names c)
  unfolding set_exists
  set_exists-IsSound names c there h all sound =
      set-IsSound now w base true true (set_items now base names c) (sym there)
        (set_items-IsSound names c h sound)
        (λ kept n name inside.
          rw (set_items-period names c) (set_items-fresh names c n h sound (all n name inside)))

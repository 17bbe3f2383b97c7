-- ===== src/Storage/Existence.antt =====
-- dsprod/law_gfal.py: the answers of `GFALFileInterface.exists`, against what is on the storage.
use dsprod.Common.{
  ℕ, ◌≡◌, refl, sym, ◌∙◌, ap, subst, Bool, true, false, ◌&&◌, List, Option, none, some, inl, inr,
  Bool-cases, Option-cases, ◌⊎◌, impossible, nat_eq,
}
use dsprod.Common.Dict.{get}
use dsprod.Storage.Paths.{Uri, uri_eq, join, dirname, basename}
use dsprod.Storage.Listing.{LsAnswer, found, absent, unreachable}
use dsprod.Storage.Cache.{Entry, PathCache, is_valid, lookup, was_listed, is_listing}
use dsprod.Storage.Interface.{exists, listdir, note_missing}
use dsprod.Storage.Soundness.{
  World, IsName, IsDirectory, IsTree, IsTruthful, Agrees, IsComplete, lookup-Agrees, lookup-unknown,
  lookup-part, some_path, none_not_some, still_valid,
}

LsAnswer-cases :
    (a : LsAnswer) → ((names : List Uri) × (a ≡ found names)) ⊎ ((a ≡ absent) ⊎ (a ≡ unreachable))
LsAnswer-cases (found names) = inl (names, refl)
LsAnswer-cases absent = inr (inl refl)
LsAnswer-cases unreachable = inr (inr refl)

-- A kept listing is an entry.
listing-entry :
    (now : ℕ) (o : Option Entry)
    → is_listing now o ≡ true
    → (e : Entry) × (o ≡ some e) × ((is_valid now e && (e.exists && e.listed)) ≡ true)
listing-entry now none h = absurd (impossible h)
listing-entry now (some e) h = (e, refl, h)

module _ (now : ℕ) (w : World) (tree : IsTree w) (ls : Uri → LsAnswer) (truthful : IsTruthful w ls)
    (c : PathCache) (ok : Agrees now w c.cache) (complete : IsComplete now w c.cache) where
  -- What is not known of a directory whose listing is kept is not there.
  listed-absent :
      (p d n : Uri)
      → join d n ≡ p
      → IsName n
      → (lookup now p c).1 ≡ none
      → was_listed now d (lookup now p c).0 ≡ true
      → w p ≡ false
  unfolding was_listed
  listed-absent p d n joined name unknown listed = elim (Bool-cases (w p)) [
    | inr gone ↦ gone
    | inl there ↦
        let (e, kept, valid) = listing-entry now _ listed in
        let (e', known, longer) =
          complete d n e (lookup-part now w tree c p d e kept) valid name
            (subst (λ q. w q ≡ true) (sym joined) there) in
        absurd (
          impossible (
            sym (
              lookup-unknown now w tree c p e' unknown
                (subst (λ q. get c.cache q ≡ some e') joined known))
            ∙ still_valid now e e' valid longer))
  ]

  orphan : (d n : Uri) → IsDirectory d → IsName n → w d ≡ false → w (join d n) ≡ false
  orphan d n dir name gone = elim (Bool-cases (w (join d n))) [
    | inl there ↦ absurd (impossible (sym gone ∙ tree.inside d n dir name there))
    | inr missing ↦ missing
  ]

  listdir-agrees :
      (c' : PathCache) (p d n : Uri) (b : Bool)
      → IsDirectory d
      → IsName n
      → (note_missing now p n (listdir now ls true d c')).1 ≡ some b
      → b ≡ w (join d n)
  unfolding listdir
  listdir-agrees c' p d n b dir name h = elim (LsAnswer-cases (ls d)) [
    | inl (names, answer) ↦
        sym (some_path (rw (listdir, answer) at h)) ∙ truthful.listing d names answer dir n name
    | inr (inl missing) ↦
        sym (some_path (rw (listdir, missing) at h))
        ∙ sym (orphan d n dir name (truthful.missing d missing))
    | inr (inr silent) ↦ absurd (none_not_some (rw (listdir, silent) at h))
  ]

  -- What `exists` answers is so on the storage, whether it comes from the cache or from gfal: if
  -- the cache agrees with the storage and knows, of a directory whose listing it keeps, all that
  -- is in it for as long as it keeps the listing. Storage is a tree, gfal tells the truth if it
  -- answers, and law's `uri` puts a file into its directory, whose address ends in no slash.
  pub exists-agrees :
      (uri : Uri → Uri) (path : Uri) (b : Bool)
      → join (uri (dirname path)) (basename path) ≡ uri path
      → IsDirectory (uri (dirname path))
      → IsName (basename path)
      → (exists now uri ls path c).1 ≡ some b
      → b ≡ w (uri path)
  unfolding exists
  exists-agrees uri path b joined dir name h = elim (Option-cases (lookup now (uri path) c).1) [
    | inr (b', answered) ↦
        sym (some_path (rw (exists, answered) at h))
        ∙ lookup-Agrees now w tree c (uri path) b' ok answered
    | inl unknown ↦
        elim (Bool-cases (was_listed now (uri (dirname path)) (lookup now (uri path) c).0)) [
          | inl listed ↦
              sym (some_path (rw (exists, unknown, listed) at h))
              ∙ sym (
                  listed-absent (uri path) (uri (dirname path)) (basename path) joined name unknown
                    listed)
          | inr unlisted ↦
              listdir-agrees (lookup now (uri path) c).0 (uri path) (uri (dirname path))
                (basename path) b dir name (rw (exists, unknown, unlisted) at h)
              ∙ ap w joined
        ]
  ]

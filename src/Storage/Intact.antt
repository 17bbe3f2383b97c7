-- ===== src/Storage/Intact.antt =====
-- dsprod/grid_tools.py: the states of `gfal_copy_safe`, in the mode `copy_rename`, and its target.
use dsprod.Common.{
  ℕ, ◌≡◌, refl, sym, Bool, true, ◌&&◌, ◌||◌, not, List, [], ◌∷◌, Option, none, some, arith, All,
  All-append, impossible, inl, inr, Bool-cases, is_some,
}
use dsprod.Storage.Copy.{
  Remote, Trail, Gfal, step, ◌and_then◌, clear_temporary, copy_over, has_sum, check_sum,
  rename_over, check_target, download, gfal_copy_safe, copy_rename, IsIntact, IsPublished,
}

module _ {Content : Type 0} (I : Remote Content → Type 0) where
  -- `I` holds of every state, and `P` of the last if no command failed.
  abbrev pub Holds : (Remote Content → Type 0) → Trail Content → Type 0
  Holds P t = All I t.visited × I t.last × (t.succeeds ≡ true → P t.last)

  step-Holds :
      (P : Remote Content → Type 0) (works : Bool) (s : Remote Content)
      → I s
      → (works ≡ true → P s)
      → Holds P (step works s)
  step-Holds P works s i p = ((i, tt), i, p)

  and_then-Holds :
      (P Q : Remote Content → Type 0) (t : Trail Content) (k : Remote Content → Trail Content)
      → Holds P t
      → ((s : Remote Content) → I s → P s → Holds Q (k s))
      → Holds Q (t and_then k)
  and_then-Holds P Q t k h next = elim (Bool-cases t.succeeds) [
    | inl on ↦
        let after = next t.last h.1 (h.2 on) in
        rw on (All-append I t.visited (k t.last).visited h.0 after.0, after.1, after.2)
    | inr off ↦ rw off (h.0, h.1, λ e. absurd (impossible e))
  ]

module _ {Content : Type 0} (adler32 : Content → ℕ) (wanted : ℕ) (before : Option Content)
    (g : Gfal Content) where
  abbrev I : Remote Content → Type 0
  I = IsIntact adler32 wanted before

  -- What stands under the temporary name has the checksum that is wanted.
  abbrev IsChecked : Remote Content → Type 0
  IsChecked s = (c : Content) → s.temporary ≡ some c → adler32 c ≡ wanted

  sum_of :
      (readable : Bool) (content : Option Content) (c : Content)
      → content ≡ some c
      → (readable && has_sum adler32 (some wanted) content) ≡ true
      → adler32 c ≡ wanted
  sum_of readable content c there h = ground arith

  clear_temporary-Holds : (s : Remote Content) → I s → Holds I I (clear_temporary g s)
  clear_temporary-Holds s i = elim (Bool-cases (is_some s.temporary && g.stat_works)) [
    | inr hidden ↦ rw hidden ((i, tt), i, λ e. i)
    | inl there ↦ elim (Bool-cases g.rm_works) [
      | inl works ↦ rw (there, works) ((i, tt), i, λ e. i)
      | inr fails ↦ rw (there, fails) ((i, tt), i, λ e. i)
    ]
  ]

  check_sum-Holds :
      (s : Remote Content)
      → I s
      → Holds I IsChecked (check_sum adler32 (some wanted) (λ r. r.temporary) g s)
  check_sum-Holds s i =
      step-Holds I IsChecked _ s i
        (λ e c there. sum_of (not true || g.sum_works) s.temporary c there e)

  -- A rename of a temporary file that was checked.
  renamed :
      (s : Remote Content) (content : Option Content)
      → content ≡ s.temporary
      → IsChecked s
      → is_some content ≡ true
      → IsPublished adler32 wanted (record { target = content; temporary = none })
  renamed s none same checked h = absurd (impossible h)
  renamed s (some c) same checked h = (c, refl, checked c (sym same))

  rename_over-Holds :
      (s : Remote Content)
      → I s
      → IsChecked s
      → Holds I (IsPublished adler32 wanted) (rename_over g s)
  rename_over-Holds s i checked = elim (Bool-cases (g.renames && is_some s.temporary)) [
    | inr fails ↦ rw fails ((i, tt), i, λ e. absurd (impossible e))
    | inl works ↦
        let published = renamed s s.temporary refl checked (ground arith) in
        rw works ((inr published, tt), inr published, λ e. published)
  ]

  download-Holds :
      (s : Remote Content)
      → I s
      → Holds I (IsPublished adler32 wanted) (download adler32 (some wanted) g s)
  unfolding download
  download-Holds s i =
      and_then-Holds I (IsPublished adler32 wanted) (IsPublished adler32 wanted) _ (check_target g)
        (and_then-Holds I IsChecked (IsPublished adler32 wanted) _ (rename_over g)
          (and_then-Holds I I IsChecked _ (check_sum adler32 (some wanted) (λ r. r.temporary) g)
            (and_then-Holds I I I _ (copy_over g) (clear_temporary-Holds s i) (λ t i' p.
              step-Holds I I g.copy_works (record t { temporary = g.copied }) i' (λ e. i')))
            (λ t i' p. check_sum-Holds t i'))
          (λ t i' p. rename_over-Holds t i' p))
        (λ t i' p. step-Holds I (IsPublished adler32 wanted) _ t i' (λ e. p))

-- In the mode `copy_rename`, with a known checksum of the source, whichever commands fail and
-- however many attempts are made: after each command the target is as it was before the copy, or
-- has that checksum; so it is missing only if it was before. A copy that succeeds leaves a content
-- with that checksum. Assumed: a command touches only the names that it is given, and a rename
-- replaces the target at once or leaves it, and reports success only if it replaced it.
pub gfal_copy_safe-Holds :
    {Content : Type 0} (adler32 : Content → ℕ) (wanted : ℕ) (before : Option Content)
    (attempts : List (Gfal Content)) (s : Remote Content)
    → IsIntact adler32 wanted before s
    → Holds
        (IsIntact adler32 wanted before)
        (IsPublished adler32 wanted)
        (gfal_copy_safe copy_rename adler32 (some wanted) attempts s)
unfolding gfal_copy_safe download
gfal_copy_safe-Holds adler32 wanted before [] s i = (tt, i, λ e. absurd (impossible e))
gfal_copy_safe-Holds adler32 wanted before (g ∷ attempts) s i =
    let first = download-Holds adler32 wanted before g s i in
    elim (Bool-cases (download adler32 (some wanted) g s).succeeds) [
      | inl works ↦ rw works first
      | inr fails ↦
          let again =
            gfal_copy_safe-Holds adler32 wanted before attempts
              (download adler32 (some wanted) g s).last first.1 in
          rw fails (All-append _ _ _ first.0 again.0, again.1, again.2)
    ]

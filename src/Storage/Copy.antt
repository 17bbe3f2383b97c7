-- ===== src/Storage/Copy.antt =====
-- dsprod/grid_tools.py: `gfal_copy_safe`, in its two modes.
--
-- Contents and their checksum are parameters, and so is what each command of gfal does. A command
-- touches only the names that it is given. A rename replaces the target at once or leaves both names
-- as they are, and one that says that it worked has replaced it.
use dsprod.Common.{
  ℕ, ◌≡◌, ◌⊎◌, Bool, true, false, ◌&&◌, not, List, [], ◌∷◌, ◌++◌, Option, none, some, nat_beq,
  if◌then◌else◌, is_some, ◌||◌,
}

-- `GFALFileInterface` copies to the storage with `copy_rename`; `copy_flag` is the default.
pub data CopyMode : Type 0 where
  copy_rename : CopyMode
  copy_flag : CopyMode

-- What stands under the name of the target and under the temporary one.
pub record Remote (Content : Type 0) : Type 0 where
  pub target : Option Content
  pub temporary : Option Content

-- The states after each command, the last of them, and whether no command failed.
pub record Trail (Content : Type 0) : Type 0 where
  pub visited : List (Remote Content)
  pub last : Remote Content
  pub succeeds : Bool

-- What gfal does in one attempt.
pub record Gfal (Content : Type 0) : Type 0 where
  -- `gfal-stat` and the removal of the target, before the copy
  pub target_seen : Bool
  pub rm_target_works : Bool
  -- `gfal-stat` of the temporary file, of which only a file can be seen, and its removal
  pub stat_works : Bool
  pub rm_works : Bool
  -- what the copy of the flag leaves under the temporary name
  pub flagged : Option Content
  pub flag_works : Bool
  -- what the copy leaves under the name that it is given, and whether it says that it worked
  pub copied : Option Content
  pub copy_works : Bool
  -- whether the checksum can be read
  pub sum_works : Bool
  -- whether the rename is done, and whether it says that it worked
  pub renames : Bool
  pub rename_works : Bool
  -- `gfal-stat` of the target, or the removal of the flag, in the end
  pub target_stat_works : Bool
  pub unflag_works : Bool

module _ {Content : Type 0} where
  abbrev pub step : Bool → Remote Content → Trail Content
  step works s = record { visited = s ∷ []; last = s; succeeds = works }

  -- The next command, unless one failed.
  infixl 5 ◌and_then◌
  abbrev pub ◌and_then◌ : Trail Content → (Remote Content → Trail Content) → Trail Content
  t and_then k =
      let next = k t.last in
      if t.succeeds
      then record {
        visited = t.visited ++ next.visited;
        last = next.last;
        succeeds = next.succeeds;
      }
      else t

  abbrev pub clear_temporary : Gfal Content → Remote Content → Trail Content
  clear_temporary g s =
      if is_some s.temporary && g.stat_works
      then (if g.rm_works then step true (record s { temporary = none }) else step false s)
      else step true s

  abbrev pub copy_over : Gfal Content → Remote Content → Trail Content
  copy_over g s = step g.copy_works (record s { temporary = g.copied })

  abbrev pub has_sum : (Content → ℕ) → Option ℕ → Option Content → Bool
  has_sum adler32 none content = true
  has_sum adler32 (some wanted) none = false
  has_sum adler32 (some wanted) (some c) = nat_beq (adler32 c) wanted

  -- The comparison of the checksum of what stands under a name.
  abbrev pub check_sum :
      (Content → ℕ)
      → Option ℕ
      → (Remote Content → Option Content)
      → Gfal Content
      → Remote Content
      → Trail Content
  check_sum adler32 expected name g s =
      step ((not (is_some expected) || g.sum_works) && has_sum adler32 expected (name s)) s

  abbrev pub rename_over : Gfal Content → Remote Content → Trail Content
  rename_over g s =
      if g.renames && is_some s.temporary
      then step g.rename_works (record { target = s.temporary; temporary = none })
      else step false s

  abbrev pub check_target : Gfal Content → Remote Content → Trail Content
  check_target g s = step (is_some s.target && g.target_stat_works) s

  -- One call of `download` with `copy_rename`.
  unfoldable pub download : (Content → ℕ) → Option ℕ → Gfal Content → Remote Content → Trail Content
  download adler32 expected g s =
      clear_temporary g s
      and_then copy_over g
      and_then check_sum adler32 expected (λ r. r.temporary) g
      and_then rename_over g
      and_then check_target g

  abbrev pub clear_target : Gfal Content → Remote Content → Trail Content
  clear_target g s =
      if is_some s.target && g.target_seen
      then (if g.rm_target_works then step true (record s { target = none }) else step false s)
      else step true s

  -- One call of `download` with `copy_flag`.
  unfoldable pub download_flagged :
      (Content → ℕ) → Option ℕ → Gfal Content → Remote Content → Trail Content
  download_flagged adler32 expected g s =
      clear_target g s
      and_then clear_temporary g
      and_then (λ r. step g.flag_works (record r { temporary = g.flagged }))
      and_then (λ r. step g.copy_works (record r { target = g.copied }))
      and_then check_sum adler32 expected (λ r. r.target) g
      and_then (λ r.
          if g.unflag_works then step true (record r { temporary = none }) else step false r)

  abbrev pub download_as :
      CopyMode → (Content → ℕ) → Option ℕ → Gfal Content → Remote Content → Trail Content
  download_as copy_rename = download
  download_as copy_flag = download_flagged

  -- The attempts of `gfal_copy_safe`, until one succeeds.
  unfoldable pub gfal_copy_safe :
      CopyMode → (Content → ℕ) → Option ℕ → List (Gfal Content) → Remote Content → Trail Content
  gfal_copy_safe mode adler32 expected [] s = record { visited = []; last = s; succeeds = false }
  gfal_copy_safe mode adler32 expected (g ∷ attempts) s =
      let first = download_as mode adler32 expected g s in
      let again = gfal_copy_safe mode adler32 expected attempts first.last in
      if first.succeeds then first else record {
        visited = first.visited ++ again.visited;
        last = again.last;
        succeeds = again.succeeds;
      }

  -- The target is as it was, or a content with the checksum that is wanted.
  abbrev pub IsIntact : (Content → ℕ) → ℕ → Option Content → Remote Content → Type 0
  IsIntact adler32 wanted before s =
      (s.target ≡ before) ⊎ ((c : Content) × (s.target ≡ some c) × (adler32 c ≡ wanted))

  -- The target is a content with the checksum that is wanted.
  abbrev pub IsPublished : (Content → ℕ) → ℕ → Remote Content → Type 0
  IsPublished adler32 wanted s = (c : Content) × (s.target ≡ some c) × (adler32 c ≡ wanted)

-- ===== src/Storage/Listing.antt =====
-- dsprod/grid_tools.py: `gfal_ls_checked` and `is_absent_error`.
--
-- What `gfal-ls` answers to each attempt is an argument.
use dsprod.Common.{
  ℕ, zero, suc, ◌≡◌, Bool, true, false, List, [], ◌∷◌, ◌++◌, ltb, ◌∙◌, map, Option, none, some,
  arith, if◌then◌else◌, codes, any, All, length,
}
use dsprod.Storage.Paths.{Uri, contains, lower_letter}

-- What one `gfal_ls` comes to: the names, or the text of its `GfalError`.
pub data LsAttempt : Type 0 where
  entries : List Uri → LsAttempt
  error : Uri → LsAttempt

abbrev pub absent_messages : List Uri
absent_messages = codes "no such file or directory" ∷ codes "file not found" ∷ []

unfoldable pub is_absent_error : Uri → Bool
is_absent_error message = any (λ m. contains m (map lower_letter message)) absent_messages

-- What `gfal_ls_checked` comes to: it returns the entries or `None`, or raises.
pub data LsAnswer : Type 0 where
  found : List Uri → LsAnswer
  absent : LsAnswer
  unreachable : LsAnswer

-- `left` attempts are left, the first of which is made now. Attempts beyond the list do not answer.
unfoldable pub gfal_ls_checked : ℕ → List LsAttempt → LsAnswer
gfal_ls_checked zero attempts = unreachable
gfal_ls_checked (suc left) [] = unreachable
gfal_ls_checked (suc left) (entries names ∷ attempts) = found names
gfal_ls_checked (suc left) (error message ∷ attempts) =
    let again = gfal_ls_checked left attempts in if is_absent_error message then absent else again

-- `gfal_ls_safe`
unfoldable pub gfal_ls_safe : LsAttempt → Option (List Uri)
gfal_ls_safe (entries names) = some names
gfal_ls_safe (error message) = none

-- An attempt that failed, and not because the path is absent.
abbrev pub IsFault : LsAttempt → Type 0
IsFault (entries names) = ⊥
IsFault (error message) = is_absent_error message ≡ false

-- What an attempt says that is no fault.
abbrev pub answer_of : LsAttempt → LsAnswer
answer_of (entries names) = found names
answer_of (error message) = absent

abbrev pub IsDecisive : LsAttempt → Type 0
IsDecisive (entries names) = Unit {0}
IsDecisive (error message) = is_absent_error message ≡ true

-- The first attempt that is no fault decides, if it is made: `None` is returned only for a path
-- that gfal says is not there, and any other failure is tried again and then raised.
pub gfal_ls_checked-decides :
    (attempts : ℕ) (faults : List LsAttempt) (a : LsAttempt) (rest : List LsAttempt)
    → All IsFault faults
    → IsDecisive a
    → gfal_ls_checked attempts (faults ++ a ∷ rest)
      ≡ (if ltb (length faults) attempts then answer_of a else unreachable)
unfolding gfal_ls_checked
gfal_ls_checked-decides zero faults a rest h d = ground arith
gfal_ls_checked-decides (suc n) [] (entries names) rest h d = ground arith
gfal_ls_checked-decides (suc n) [] (error message) rest h d = ground arith
gfal_ls_checked-decides (suc n) (entries names ∷ faults) a rest h d = absurd h.0
gfal_ls_checked-decides (suc n) (error message ∷ faults) a rest h d =
    rw (h.0) (gfal_ls_checked-decides n faults a rest h.1 d ∙ ground arith)

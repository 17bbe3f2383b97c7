-- ===== src/Common/Globs.antt =====
-- Python's `fnmatch.fnmatch` on the code points of a name and of a pattern, where case counts.
use Prim.Native.Nat.{ℕ}
use Prim.Native.Char.{code}
use Prim.Native.String.{String}
use mathlib.Core.Path.{◌≡◌, refl}
use mathlib.Core.Bool.{Bool, true, false, ◌&&◌, ◌||◌, not}
use mathlib.Core.List.{List, [], ◌∷◌}
use dsprod.Common.Tests.{leb, nat_beq, if◌then◌else◌}

-- The characters of a text, as code points.
abbrev pub codes : String → List ℕ
codes String.[] = []
codes (String.◌∷◌ c s) = code c ∷ codes s

-- What a pattern is made of: `*`, `?`, a set in brackets (negated after `!`), or a character.
pub data Token : Type 0 where
  any_run : Token
  any_one : Token
  one_of : Bool → List ℕ → Token
  exactly : ℕ → Token

has_bracket : List ℕ → Bool
has_bracket [] = false
has_bracket (c ∷ cs) = nat_beq c b']' || has_bracket cs

-- Whether a set that was opened is closed: a bracket that stands first in it belongs to it.
is_closed : List ℕ → Bool
unfolding has_bracket
is_closed [] = false
is_closed (c ∷ []) = false
is_closed (c ∷ d ∷ cs) = if nat_beq c b'!' then has_bracket cs else has_bracket (d ∷ cs)

-- Where the reading of a pattern stands: outside, behind `[`, behind `[!`, or in a set.
pub data Mode : Type 0 where
  outside : Mode
  opened : Mode
  negated : Mode
  within : Bool → List ℕ → Mode

snoc : List ℕ → ℕ → List ℕ
snoc [] c = c ∷ []
snoc (d ∷ ds) c = d ∷ snoc ds c

tokens : Mode → List ℕ → List Token
unfolding is_closed snoc
tokens m [] = []
tokens outside (c ∷ cs) =
    let here = tokens outside cs in
    let set = tokens opened cs in
    if nat_beq c b'*'
    then any_run ∷ here
    else if nat_beq c b'?'
    then any_one ∷ here
    else if nat_beq c b'[' && is_closed cs
    then set
    else exactly c ∷ here
tokens opened (c ∷ cs) =
    let neg = tokens negated cs in
    let start = tokens (within false (c ∷ [])) cs in if nat_beq c b'!' then neg else start
tokens negated (c ∷ cs) = tokens (within true (c ∷ [])) cs
tokens (within neg set) (c ∷ cs) =
    let done = tokens outside cs in
    let more = tokens (within neg (snoc set c)) cs in
    if nat_beq c b']' then one_of neg set ∷ done else more

-- `a-z` in a set is a range.
in_set : ℕ → List ℕ → Bool
in_set c [] = false
in_set c (a ∷ []) = nat_beq c a
in_set c (a ∷ d ∷ []) = nat_beq c a || nat_beq c d
in_set c (a ∷ d ∷ b ∷ set) =
    let plain = in_set c (d ∷ b ∷ set) in
    let ranged = in_set c set in
    if nat_beq d b'-' then leb a c && leb c b || ranged else nat_beq c a || plain

-- `*` leaves any end of the text to the rest of the pattern.
any_end : (List ℕ → Bool) → List ℕ → Bool
any_end f [] = f []
any_end f (c ∷ cs) = f (c ∷ cs) || any_end f cs

match_one : (ℕ → Bool) → (List ℕ → Bool) → List ℕ → Bool
match_one q f [] = false
match_one q f (c ∷ cs) = q c && f cs

matches : List Token → List ℕ → Bool
unfolding any_end match_one in_set
matches [] [] = true
matches [] (c ∷ cs) = false
matches (any_run ∷ ts) cs = any_end (matches ts) cs
matches (any_one ∷ ts) cs = match_one (λ c. true) (matches ts) cs
matches (one_of neg set ∷ ts) cs =
    match_one (λ c. if neg then not (in_set c set) else in_set c set) (matches ts) cs
matches (exactly d ∷ ts) cs = match_one (λ c. nat_beq c d) (matches ts) cs

-- `fnmatch.fnmatch(name, pattern)`
unfoldable pub fnmatch : String → String → Bool
unfolding tokens matches
fnmatch name pattern = matches (tokens outside (codes pattern)) (codes name)

globs :
    (fnmatch "T2_DE_DESY" "T2_*"
      && not (fnmatch "T1_DE_KIT" "T2_*")
      && fnmatch "T1_DE_KIT" "T[!2]_??_K*"
      && fnmatch "T1_DE_KIT" "T[0-2]_*"
      && fnmatch "a[b" "a[b")
    ≡ true
unfolding fnmatch
globs = refl

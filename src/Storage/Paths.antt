-- ===== src/Storage/Paths.antt =====
-- `os.path` and the texts that dsprod/law_gfal.py and dsprod/grid_tools.py read, as code points.
use mathlib.Core.List.{reverse}
use dsprod.Common.{
  ℕ, zero, suc, ◌≡◌, ◌↔◌, Bool, true, false, ◌&&◌, ◌||◌, not, List, [], ◌∷◌, ◌++◌, arith, nat_beq,
  leb, if◌then◌else◌, length, Eq, ◌==◌, any, ◌+◌,
}

abbrev pub Uri : Type 0
Uri = List ℕ

abbrev pub uri_beq : Uri → Uri → Bool
uri_beq [] [] = true
uri_beq (a ∷ p) (b ∷ q) = nat_beq a b && uri_beq p q
uri_beq _ _ = false

pub uri_beq_iff : (p q : Uri) → (uri_beq p q ≡ true) ↔ (p ≡ q)
uri_beq_iff [] [] = ground arith
uri_beq_iff [] (b ∷ q) = ground arith
uri_beq_iff (a ∷ p) [] = ground arith
uri_beq_iff (a ∷ p) (b ∷ q) = ground (arith, uri_beq_iff p q)

instance abbrev pub uri_eq : Eq Uri
uri_eq = record { test = uri_beq; test_path = uri_beq_iff }

abbrev pub is_slash : ℕ → Bool
is_slash c = nat_beq c b'/'

abbrev pub drop_while : (ℕ → Bool) → Uri → Uri
drop_while q [] = []
drop_while q (c ∷ p) = let rest = drop_while q p in if q c then rest else c ∷ p

abbrev pub take_while : (ℕ → Bool) → Uri → Uri
take_while q [] = []
take_while q (c ∷ p) = let rest = take_while q p in if q c then c ∷ rest else []

-- `s.rstrip('/')`
unfoldable pub strip_slashes : Uri → Uri
strip_slashes p = reverse (drop_while is_slash (reverse p))

-- `os.path.dirname`: up to the last slash, without the slashes that it then ends in unless there is
-- nothing else.
unfoldable pub dirname : Uri → Uri
unfolding strip_slashes
dirname p =
    let head = reverse (drop_while (λ c. not (is_slash c)) (reverse p)) in
    if any (λ c. not (is_slash c)) head then strip_slashes head else head

-- The other half of `os.path.split`.
unfoldable pub basename : Uri → Uri
basename p = reverse (take_while (λ c. not (is_slash c)) (reverse p))

abbrev pub starts_with : Uri → Uri → Bool
starts_with p [] = true
starts_with [] (b ∷ q) = false
starts_with (a ∷ p) (b ∷ q) = nat_beq a b && starts_with p q

abbrev pub ends_in_slash : Uri → Bool
ends_in_slash [] = true
ends_in_slash (c ∷ []) = is_slash c
ends_in_slash (c ∷ d ∷ p) = ends_in_slash (d ∷ p)

-- `os.path.join(base, item)`
unfoldable pub join : Uri → Uri → Uri
join base item =
    if starts_with item (b'/' ∷ [])
    then item
    else (if ends_in_slash base then base ++ item else base ++ b'/' ∷ item)

-- `PathCache._iter_parents`; each parent is shorter, so the path's length is fuel enough.
unfoldable pub parents_from : ℕ → Uri → List Uri
parents_from zero p = []
parents_from (suc fuel) p =
    let rest = dirname p ∷ parents_from fuel (dirname p) in
    if (dirname p == []) || (dirname p == p) then [] else rest

unfoldable pub iter_parents : Uri → List Uri
iter_parents p = parents_from (length p) p

-- `text in s`
abbrev pub contains : Uri → Uri → Bool
contains text [] = starts_with [] text
contains text (c ∷ s) = starts_with (c ∷ s) text || contains text s

-- `s.lower()`, of the letters of ASCII.
abbrev pub lower_letter : ℕ → ℕ
lower_letter c = if leb b'A' c && leb c b'Z' then c + 32 else c

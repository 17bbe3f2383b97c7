-- ===== src/Common/Texts.antt =====
-- Python's `str` of a natural number, and the order of texts.
use Prim.Native.Nat.{ℕ, zero, suc, ◌+◌, ◌-◌, ◌*◌, ◌/◌, ◌%◌, ◌<◌, Ordering}
use native.Mathlib.Omega.{arith}
use mathlib.Core.Logic.{inl, inr}
use Prim.Native.Char.{Char, code}
use Prim.Native.String.{String, compare}
use mathlib.Core.Path.{◌≡◌, refl, sym, ap, ◌∙◌}
use mathlib.Core.Bool.{Bool, true, false}
use text.Mathlib.Text.{◌==◌ as text_beq}
use text.Mathlib.TextEquality.{eq_iff}
use dsprod.Common.Keys.{Eq}
use dsprod.Common.Tests.{ltb, if◌then◌else◌, Bool-cases}

digit : ℕ → Char
digit zero = "0"
digit (suc zero) = "1"
digit (suc (suc zero)) = "2"
digit (suc (suc (suc zero))) = "3"
digit (suc (suc (suc (suc zero)))) = "4"
digit (suc (suc (suc (suc (suc zero))))) = "5"
digit (suc (suc (suc (suc (suc (suc zero)))))) = "6"
digit (suc (suc (suc (suc (suc (suc (suc zero))))))) = "7"
digit (suc (suc (suc (suc (suc (suc (suc (suc zero)))))))) = "8"
digit _ = "9"

-- `n` has at most `n + 1` digits, so the fuel of `str` is enough.
str_from : ℕ → ℕ → String → String
unfolding digit
str_from zero n acc = acc
str_from (suc fuel) n acc =
    let acc' = String.◌∷◌ (digit (n % 10)) acc in
    let rest = str_from fuel (n / 10) acc' in if ltb n 10 then acc' else rest

unfoldable pub str : ℕ → String
unfolding str_from
str n = str_from (n + 1) n String.[]

-- `s <= t`
abbrev pub text_leb : String → String → Bool
text_leb s t = elim (compare s t) [ Ordering.gt ↦ false | _ ↦ true ]

str_digits : str 20405 ≡ "20405"
unfolding str
str_digits = refl

instance abbrev pub string_eq : Eq String
string_eq = record { test = text_beq; test_path = eq_iff }

-- What a digit stands for.
value_of : Char → ℕ
value_of c = code c - 48

-- A number read from left to right, after `n`.
reading : String → ℕ → ℕ
reading String.[] n = n
reading (String.◌∷◌ c s) n = reading s (n * 10 + value_of c)

digit-value : (d : ℕ) → d < 10 → value_of (digit d) ≡ d
unfolding value_of digit
digit-value zero h = refl
digit-value (suc zero) h = refl
digit-value (suc (suc zero)) h = refl
digit-value (suc (suc (suc zero))) h = refl
digit-value (suc (suc (suc (suc zero)))) h = refl
digit-value (suc (suc (suc (suc (suc zero))))) h = refl
digit-value (suc (suc (suc (suc (suc (suc zero)))))) h = refl
digit-value (suc (suc (suc (suc (suc (suc (suc zero))))))) h = refl
digit-value (suc (suc (suc (suc (suc (suc (suc (suc zero)))))))) h = refl
digit-value (suc (suc (suc (suc (suc (suc (suc (suc (suc zero))))))))) h = refl
digit-value (suc (suc (suc (suc (suc (suc (suc (suc (suc (suc d)))))))))) h = absurd (omega arith)

reading_step :
    (n front : ℕ) (acc : String)
    → front * 10 + n % 10 ≡ n
    → reading (String.◌∷◌ (digit (n % 10)) acc) front ≡ reading acc n
unfolding reading
reading_step n front acc h = rw (digit-value (n % 10) (omega arith)) (ap (reading acc) h)

reading-str_from :
    (fuel n : ℕ) (acc : String) → n < fuel → reading (str_from fuel n acc) 0 ≡ reading acc n
unfolding str_from
reading-str_from zero n acc h = elim h [ ]
reading-str_from (suc fuel) n acc h = elim (Bool-cases (ltb n 10)) [
  | inl small ↦ rw small (reading_step n 0 acc (ground arith))
  | inr large ↦
      rw large (
        reading-str_from fuel (n / 10) _ (ground arith) ∙ reading_step n (n / 10) acc (omega arith))
]

pub str_injective : (m n : ℕ) → str m ≡ str n → m ≡ n
unfolding str reading
str_injective m n h =
    sym (reading-str_from (m + 1) m String.[] (omega arith))
    ∙ ap (λ s. reading s 0) h
    ∙ reading-str_from (n + 1) n String.[] (omega arith)

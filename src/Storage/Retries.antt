-- ===== src/Storage/Retries.antt =====
-- dsprod/tools.py: `repeat_until_success`.
--
-- Whether a call works is an argument, by the round and the option that it is called with.
use dsprod.Common.{
  ℕ, zero, suc, ◌+◌, ◌^◌, ◌≡◌, Bool, true, false, List, [], ◌∷◌, Option, none, some, arith, nat_beq,
  if◌then◌else◌, All, inl, inr, Bool-cases, Option-cases, sym,
}

-- The option that worked, if one did, and the waits between the rounds.
pub record Attempts {ℓ} (A : Type ℓ) : Type ℓ where
  pub worked : Option A
  pub waits : List ℕ

module _ {ℓ} {A : Type ℓ} where
  -- `for opt in opt_list`: the first that works.
  abbrev pub first_working : (A → Bool) → List A → Option A
  first_working works [] = none
  first_working works (o ∷ opts) =
      let rest = first_working works opts in if works o then some o else rest

  abbrev pub after_wait : ℕ → Attempts A → Attempts A
  after_wait seconds a = record a { waits = seconds ∷ a.waits }

  -- The rounds from `n` on, of which `left` are left.
  unfoldable pub rounds_from : ℕ → (ℕ → A → Bool) → List A → ℕ → ℕ → Attempts A
  rounds_from interval works opts n zero = record { worked = none; waits = [] }
  rounds_from interval works opts n (suc left) =
      let again = rounds_from interval works opts (n + 1) left in
      let last : Attempts A = record { worked = none; waits = [] } in
      elim (first_working (works n) opts) [
        | some o ↦ record { worked = some o; waits = [] }
        | none ↦ if nat_beq left 0 then last else after_wait (interval ^ (n + 1)) again
      ]

  unfoldable pub repeat_until_success : (ℕ → A → Bool) → List A → ℕ → ℕ → Attempts A
  unfolding rounds_from
  repeat_until_success works opts n_retries interval = rounds_from interval works opts 0 n_retries

  -- No option works in the rounds from `n` on.
  abbrev pub AllFail : (ℕ → A → Bool) → List A → ℕ → ℕ → Type ℓ
  AllFail works opts n zero = Unit
  AllFail works opts n (suc left) =
      All (λ o. works n o ≡ false) opts × AllFail works opts (n + 1) left

suc_not_none : (n : ℕ) → nat_beq (suc n) 0 ≡ true → ⊥
suc_not_none n h = ground arith

none_of : {A : Type 0} {o : A} → none ≡ some o → ⊥
none_of h = cc

first_working-fails :
    {A : Type 0} (works : A → Bool) (opts : List A)
    → first_working works opts ≡ none
    → All (λ o. works o ≡ false) opts
first_working-fails works [] h = tt
first_working-fails works (o ∷ opts) h = ground (arith, first_working-fails works opts)

nothing_left :
    {A : Type 0} (works : ℕ → A → Bool) (opts : List A) (n left : ℕ)
    → nat_beq left 0 ≡ true
    → AllFail works opts n left
nothing_left works opts n zero h = tt
nothing_left works opts n (suc left) h = absurd (suc_not_none left h)

rounds_from-fails :
    {A : Type 0} (interval : ℕ) (works : ℕ → A → Bool) (opts : List A) (n left : ℕ)
    → (rounds_from interval works opts n left).worked ≡ none
    → AllFail works opts n left
unfolding rounds_from
rounds_from-fails interval works opts n zero h = tt
rounds_from-fails interval works opts n (suc left) h =
    elim (Option-cases (first_working (works n) opts)) [
      | inr (o, worked) ↦ absurd (none_of (sym (rw (rounds_from, worked) at h)))
      | inl failed ↦ (
        first_working-fails (works n) opts failed,
        elim (Bool-cases (nat_beq left 0)) [
          | inl over ↦ nothing_left works opts (n + 1) left over
          | inr more ↦
              rounds_from-fails interval works opts (n + 1) left
                (rw (rounds_from, failed, more) at h)
        ],
      )
    ]

-- A call is given up only after every option has failed in each of the `n_retries` rounds.
pub repeat_until_success-fails :
    {A : Type 0} (works : ℕ → A → Bool) (opts : List A) (n_retries interval : ℕ)
    → (repeat_until_success works opts n_retries interval).worked ≡ none
    → AllFail works opts 0 n_retries
unfolding repeat_until_success
repeat_until_success-fails works opts n_retries interval h =
    rounds_from-fails interval works opts 0 n_retries h

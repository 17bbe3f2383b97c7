-- ===== src/Production/Inputs.antt =====
-- dsprod/tasks.py: what `NanoMergeTask` checks of its inputs before it merges a group.
--
-- A record is what `load` returns, `none` if it cannot be read; that a staged file exists is an argument.
use dsprod.Common.{
  ℕ, ◌≡◌, refl, sym, ◌∙◌, ap, Bool, true, false, not, List, [], ◌∷◌, ◌++◌, Option, none, some,
  arith, ltb, nat_beq, if◌then◌else◌, length, filter, All, Bool-cases, Option-cases, inl, inr,
  nat_eq, elem, ◌==◌, All-mono, elem-filter, elem_self, none_filtered, eq_of_==,
}
use dsprod.Common.Dict.{Dict, get_or, put}

pub data InputError : Type 0 where
  unreadable : ℕ → InputError
  mixed_sizes : Dict ℕ (List ℕ) → InputError
  gone : List ℕ → InputError

-- What a check comes to: nothing to complain of, or what it raises.
pub data Verdict : Type 0 where
  passes : Verdict
  raises : InputError → Verdict

-- `sizes.setdefault(requested, []).append(seed)`
abbrev pub add_size : Dict ℕ (List ℕ) → ℕ → ℕ → Dict ℕ (List ℕ)
add_size sizes requested seed = put sizes requested (get_or sizes requested [] ++ seed ∷ [])

-- The verdict on the sizes that were read.
unfoldable pub compare_sizes : ℕ → Dict ℕ (List ℕ) → Verdict
compare_sizes wanted sizes =
    let odd = filter (λ e. not (nat_beq e.0 wanted)) sizes in
    if nat_beq (length odd) 0 then passes else raises (mixed_sizes odd)

-- The loop over the seeds.
unfoldable pub read_sizes : (ℕ → Option ℕ) → ℕ → Dict ℕ (List ℕ) → List ℕ → Verdict
unfolding compare_sizes
read_sizes load wanted sizes [] = compare_sizes wanted sizes
read_sizes load wanted sizes (seed ∷ seeds) =
    let known : ℕ → Verdict = λ n. read_sizes load wanted (add_size sizes n seed) seeds in
    elim (load seed) [ none ↦ raises (unreadable seed) | some n ↦ known n ]

-- `_check_contracted_inputs`; `test` is `--test`.
unfoldable pub check_contracted_inputs : ℕ → (ℕ → Option ℕ) → ℕ → List ℕ → Verdict
unfolding read_sizes
check_contracted_inputs test load wanted seeds =
    if ltb 0 test then passes else read_sizes load wanted [] seeds

-- `_check_staged_inputs`
unfoldable pub check_staged_inputs : (ℕ → Bool) → List ℕ → Verdict
check_staged_inputs exists seeds =
    let missing = filter (λ seed. not (exists seed)) seeds in
    if nat_beq (length missing) 0 then passes else raises (gone missing)

-- Only the wanted size was read.
abbrev IsUniform : ℕ → Dict ℕ (List ℕ) → Type 0
IsUniform wanted sizes = All (λ e. e.0 ≡ wanted) sizes

of_wanted : (n wanted : ℕ) → not (nat_beq n wanted) ≡ false → n ≡ wanted
of_wanted n wanted h = ground arith

sizes-IsUniform :
    (wanted : ℕ) (sizes : Dict ℕ (List ℕ))
    → compare_sizes wanted sizes ≡ passes
    → IsUniform wanted sizes
unfolding compare_sizes
sizes-IsUniform wanted sizes h =
    All-mono (λ e equal. of_wanted e.0 wanted equal) sizes
      (none_filtered (λ e. not (nat_beq e.0 wanted)) sizes (ground arith))

put-IsUniform :
    (wanted n : ℕ) (seeds : List ℕ) (sizes : Dict ℕ (List ℕ))
    → IsUniform wanted (put sizes n seeds)
    → (n ≡ wanted) × IsUniform wanted sizes
put-IsUniform wanted n seeds [] h = (h.0, tt)
put-IsUniform wanted n seeds ((m, old) ∷ sizes) h = elim (Bool-cases (m == n)) [
  | inl here ↦ let h' = rw here at h in (h'.0, (eq_of_== m n here ∙ h'.0, h'.1))
  | inr there ↦
      let h' = rw there at h in
      let (same, before) = put-IsUniform wanted n seeds sizes h'.1 in (same, (h'.0, before))
]

fails_not_passes : {e : InputError} → raises e ≡ passes → ⊥
fails_not_passes h = cc

read_sizes-passes :
    (load : ℕ → Option ℕ) (wanted : ℕ) (sizes : Dict ℕ (List ℕ)) (seeds : List ℕ)
    → read_sizes load wanted sizes seeds ≡ passes
    → IsUniform wanted sizes × All (λ seed. load seed ≡ some wanted) seeds
unfolding read_sizes
read_sizes-passes load wanted sizes [] h = (sizes-IsUniform wanted sizes h, tt)
read_sizes-passes load wanted sizes (seed ∷ seeds) h = elim (Option-cases (load seed)) [
  | inl lost ↦ absurd (fails_not_passes (rw (read_sizes, lost) at h))
  | inr (n, found) ↦
      let (all, rest) =
        read_sizes-passes load wanted (add_size sizes n seed) seeds (rw (read_sizes, found) at h) in
      let (same, before) = put-IsUniform wanted n (get_or sizes n [] ++ seed ∷ []) sizes all in
      (before, (found ∙ ap some same, rest))
]

-- A group that `_check_contracted_inputs` lets through, outside of `--test`, was produced at the
-- size that the setup asks for, seed by seed: every record was read, and each states that size.
pub check_contracted_inputs_sound :
    (load : ℕ → Option ℕ) (wanted : ℕ) (seeds : List ℕ)
    → check_contracted_inputs 0 load wanted seeds ≡ passes
    → All (λ seed. load seed ≡ some wanted) seeds
unfolding check_contracted_inputs
check_contracted_inputs_sound load wanted seeds h = (read_sizes-passes load wanted [] seeds h).1

-- The seeds that a verdict names as gone.
abbrev pub missing_of : Verdict → List ℕ
missing_of (raises (gone seeds)) = seeds
missing_of _ = []

empty_of : (xs : List ℕ) → nat_beq (length xs) 0 ≡ true → xs ≡ []
empty_of [] h = refl
empty_of (x ∷ xs) h = ground arith

missing-check :
    (exists : ℕ → Bool) (seeds : List ℕ)
    → missing_of (check_staged_inputs exists seeds) ≡ filter (λ seed. not (exists seed)) seeds
unfolding check_staged_inputs
missing-check exists seeds =
    elim (Bool-cases (nat_beq (length (filter (λ seed. not (exists seed)) seeds)) 0)) [
      | inl all_there ↦ rw all_there (sym (empty_of _ all_there))
      | inr some_gone ↦ rw some_gone refl
    ]

-- The error of `_check_staged_inputs` names exactly the seeds whose staged file is gone, and there
-- is none if no file is gone.
pub check_staged_inputs-names :
    (exists : ℕ → Bool) (seeds : List ℕ)
    → All
        (λ seed. elem seed (missing_of (check_staged_inputs exists seeds)) ≡ not (exists seed))
        seeds
check_staged_inputs-names exists seeds =
    All-mono (λ seed there. rw (missing-check exists seeds, elem-filter, there) refl) seeds
      (elem_self seeds)

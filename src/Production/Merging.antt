-- ===== src/Production/Merging.antt =====
-- dsprod/tasks.py: `NanoMergeTask.run`, from the checks of its inputs to the removal of the staged
-- files.
--
-- The counts of events are those that CMSSW reports; that the upload of the merged file succeeds,
-- and which removals do, are arguments.
use dsprod.Common.{
  ℕ, ◌*◌, ◌≡◌, refl, Bool, true, false, ◌&&◌, not, List, [], Option, none, some, arith, map, ◌⊎◌,
  All-mono, none_filtered, subst, filter, sum, length, nat_beq, if◌then◌else◌, All, inl, inr,
  Bool-cases,
}
use dsprod.Production.Inputs.{
  InputError, Verdict, passes, raises, check_staged_inputs, check_contracted_inputs,
  check_contracted_inputs_sound,
}

-- What the merge and the storage do, for one group of seeds.
pub record Merger : Type 0 where
  pub exists : ℕ → Bool
  pub load : ℕ → Option ℕ
  pub n_out : ℕ
  pub n_in : ℕ → ℕ
  pub uploads : Bool
  pub removes : ℕ → Bool

pub data MergeError : Type 0 where
  input : InputError → MergeError
  mismatch : ℕ → ℕ → MergeError
  short : ℕ → ℕ → MergeError
  not_uploaded : MergeError

-- Whether the merged file is on storage, the seeds whose staged file was removed, and the error.
pub record Merged : Type 0 where
  pub published : Bool
  pub removed : List ℕ
  pub error : Option MergeError

abbrev pub failed : MergeError → Merged
failed e = record { published = false; removed = []; error = some e }

-- `for t in staged: t.remove()`, which is silent about what it cannot remove.
unfoldable pub upload_merged : Merger → List ℕ → Merged
upload_merged m seeds =
    if m.uploads
    then record { published = true; removed = filter m.removes seeds; error = none }
    else failed not_uploaded

-- What is checked of the merged file before it is uploaded.
unfoldable pub verify : ℕ → ℕ → Merger → List ℕ → Merged
unfolding upload_merged
verify test events_per_job m seeds =
    if not (nat_beq m.n_out (sum (map m.n_in seeds)))
    then failed (mismatch m.n_out (sum (map m.n_in seeds)))
    else (if nat_beq test 0 && not (nat_beq m.n_out (events_per_job * length seeds))
        then failed (short m.n_out (events_per_job * length seeds))
        else upload_merged m seeds)

abbrev pub on_verdict : Verdict → Merged → Merged
on_verdict passes next = next
on_verdict (raises e) next = failed (input e)

unfoldable pub nano_merge : ℕ → ℕ → Merger → List ℕ → Merged
unfolding verify
nano_merge test events_per_job m seeds = on_verdict (check_staged_inputs m.exists seeds) (
    on_verdict (check_contracted_inputs test m.load events_per_job seeds)
      (verify test events_per_job m seeds))

Verdict-cases : (v : Verdict) → (v ≡ passes) ⊎ ((e : InputError) × (v ≡ raises e))
Verdict-cases passes = inl refl
Verdict-cases (raises e) = inr (e, refl)

when_not : (b : Bool) → not b ≡ false → b ≡ true
when_not b h = ground arith

check_staged_inputs-passes :
    (exists : ℕ → Bool) (seeds : List ℕ)
    → check_staged_inputs exists seeds ≡ passes
    → All (λ s. exists s ≡ true) seeds
unfolding check_staged_inputs
check_staged_inputs-passes exists seeds h =
    All-mono (λ s there. when_not (exists s) there) seeds
      (none_filtered (λ s. not (exists s)) seeds (ground arith))

-- Nothing was done to the storage.
abbrev pub IsUntouched : Merged → Type 0
IsUntouched r = (r.published ≡ false) × (r.removed ≡ [])

-- The merged file has the events of its inputs and, outside of `--test`, those that were asked for.
abbrev pub IsWhole : ℕ → ℕ → Merger → List ℕ → Type 0
IsWhole test events_per_job m seeds =
    (m.n_out ≡ sum (map m.n_in seeds)) × (test ≡ 0 → m.n_out ≡ events_per_job * length seeds)

verify-cases :
    (test events_per_job : ℕ) (m : Merger) (seeds : List ℕ)
    → IsUntouched (verify test events_per_job m seeds) ⊎ IsWhole test events_per_job m seeds
unfolding verify upload_merged
verify-cases test events_per_job m seeds =
    elim (Bool-cases (nat_beq m.n_out (sum (map m.n_in seeds)))) [
      | inr differs ↦ inl (rw differs (refl, refl))
      | inl same ↦
          elim (Bool-cases
            (nat_beq test 0 && not (nat_beq m.n_out (events_per_job * length seeds)))) [
              | inl short_of ↦ inl (rw (same, short_of) (refl, refl))
              | inr fits ↦ inr (ground arith, λ real. ground arith)
            ]
    ]

-- A merge that writes its merged file, or removes any staged one, had every staged file of its
-- group and its file has as many events as they have together; outside of `--test` each seed had a
-- record at the size that the setup asks for, and the file has as many events as the seeds were
-- asked for. Otherwise it does nothing to the storage.
pub nano_merge-cases :
    (test events_per_job : ℕ) (m : Merger) (seeds : List ℕ)
    → IsUntouched (nano_merge test events_per_job m seeds)
      ⊎ (All (λ s. m.exists s ≡ true) seeds
          × (test ≡ 0 → All (λ s. m.load s ≡ some events_per_job) seeds)
          × IsWhole test events_per_job m seeds)
unfolding nano_merge
nano_merge-cases test events_per_job m seeds =
    elim (Verdict-cases (check_staged_inputs m.exists seeds)) [
      | inr (e, lost) ↦ inl (rw lost (refl, refl))
      | inl there ↦
          elim (Verdict-cases (check_contracted_inputs test m.load events_per_job seeds)) [
            | inr (e, odd) ↦ inl (rw (there, odd) (refl, refl))
            | inl sized ↦ elim (verify-cases test events_per_job m seeds) [
              | inl untouched ↦ inl (rw (there, sized) untouched)
              | inr whole ↦ inr (
                check_staged_inputs-passes m.exists seeds there,
                λ real. check_contracted_inputs_sound m.load events_per_job seeds (
                    subst (λ t. check_contracted_inputs t m.load events_per_job seeds ≡ passes) real
                      sized),
                whole,
              )
            ]
          ]
    ]

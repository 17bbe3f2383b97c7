-- ===== src/Requests/JobFile.antt =====
-- dsprod/crab.py: `DSProdCrabJobFileFactory`, the sources of law that a job file is built from, and the
-- lines that are written anew.
use dsprod.Common.{
  ℕ, zero, suc, ◌+◌, ◌≡◌, refl, Bool, true, false, ◌&&◌, ◌||◌, not, List, [], ◌∷◌, ◌++◌, ap, ◌∙◌,
  Option, none, some, if◌then◌else◌, codes, elem, nat_eq, All, inl, inr, Bool-cases, String,
}
use dsprod.Storage.Paths.{Uri, contains}

abbrev pub outputs_key : Uri
outputs_key = codes "General.transferOutputs"

abbrev pub logs_key : Uri
logs_key = codes "General.transferLogs"

abbrev pub files_key : Uri
files_key = codes "JobType.outputFiles"

abbrev pub no_outputs : Uri
no_outputs = codes "cfg.General.transferOutputs = False\n"

abbrev pub no_logs : Uri
no_logs = codes "cfg.General.transferLogs = False\n"

-- A list that is opened in a line and not closed; a bracket at the end of the line opens one too.
abbrev pub is_blank : ℕ → Bool
is_blank c = elem c (32 ∷ 9 ∷ 10 ∷ 11 ∷ 12 ∷ 13 ∷ [])

abbrev pub ends_in_bracket : Uri → Bool → Bool
ends_in_bracket [] last = last
ends_in_bracket (c ∷ ln) last = ends_in_bracket ln (if is_blank c then last else elem c (b'[' ∷ []))

abbrev pub opens_list : Uri → Bool
opens_list ln = ends_in_bracket ln false || (elem b'[' ln && not (elem b']' ln))

-- `_rewrite_crab_job_file`; `skip` is `skip_list`.
unfoldable pub rewrite_lines : Bool → List Uri → List Uri
rewrite_lines skip [] = []
rewrite_lines skip (ln ∷ lines) =
    let outputs = no_outputs ∷ rewrite_lines skip lines in
    let logs = no_logs ∷ rewrite_lines skip lines in
    let files = rewrite_lines (opens_list ln || skip) lines in
    let skipped = rewrite_lines (not (elem b']' ln)) lines in
    let kept = ln ∷ rewrite_lines skip lines in
    if contains outputs_key ln
    then outputs
    else (if contains logs_key ln
        then logs
        else (if contains files_key ln then files else (if skip then skipped else kept)))

-- A line of a file without transfers by CRAB.
abbrev pub IsTransferFree : Uri → Type 0
IsTransferFree ln =
    ((contains outputs_key ln ≡ true) → ln ≡ no_outputs)
    × ((contains logs_key ln ≡ true) → ln ≡ no_logs)
    × (contains files_key ln ≡ false)

false_true : {A : Type 0} → false ≡ true → A
false_true h = cc

kept-IsTransferFree :
    (ln : Uri)
    → contains outputs_key ln ≡ false
    → contains logs_key ln ≡ false
    → contains files_key ln ≡ false
    → IsTransferFree ln
kept-IsTransferFree ln o l f = (λ h. false_true (rw o at h), λ h. false_true (rw l at h), f)

rewrite_lines-IsTransferFree :
    (skip : Bool) (lines : List Uri) → All IsTransferFree (rewrite_lines skip lines)
unfolding rewrite_lines
rewrite_lines-IsTransferFree skip [] = tt
rewrite_lines-IsTransferFree skip (ln ∷ lines) = elim (Bool-cases (contains outputs_key ln)) [
  | inl o ↦
      rw (rewrite_lines, o)
        (((λ h. refl, λ h. false_true h, refl), rewrite_lines-IsTransferFree skip lines))
  | inr o ↦ elim (Bool-cases (contains logs_key ln)) [
    | inl l ↦
        rw (rewrite_lines, o, l)
          (((λ h. false_true h, λ h. refl, refl), rewrite_lines-IsTransferFree skip lines))
    | inr l ↦ elim (Bool-cases (contains files_key ln)) [
      | inl f ↦
          rw (rewrite_lines, o, l, f) (rewrite_lines-IsTransferFree (opens_list ln || skip) lines)
      | inr f ↦ elim (Bool-cases skip) [
        | inl listed ↦
            rw (rewrite_lines, o, l, f, listed)
              (rewrite_lines-IsTransferFree (not (elem b']' ln)) lines)
        | inr plain ↦
            rw (rewrite_lines, o, l, f, plain)
              (kept-IsTransferFree ln o l f, rewrite_lines-IsTransferFree false lines)
      ]
    ]
  ]
]

-- A line that speaks neither of a transfer nor of the output files.
abbrev pub IsPlain : Uri → Type 0
IsPlain ln =
    (contains outputs_key ln ≡ false)
    × (contains logs_key ln ≡ false)
    × (contains files_key ln ≡ false)

-- A line inside the list of the output files.
abbrev pub IsListed : Uri → Type 0
IsListed ln = IsPlain ln × (elem b']' ln ≡ false)

-- A line that names the output files, and opens a list of them.
abbrev pub IsOpener : Uri → Type 0
IsOpener ln =
    (contains outputs_key ln ≡ false)
    × (contains logs_key ln ≡ false)
    × (contains files_key ln ≡ true)
    × (opens_list ln ≡ true)

skipped_to :
    (body : List Uri) (closer : Uri) (rest : List Uri)
    → All IsListed body
    → IsPlain closer
    → elem b']' closer ≡ true
    → rewrite_lines true (body ++ (closer ∷ rest)) ≡ rewrite_lines false rest
unfolding rewrite_lines
skipped_to [] closer rest h (o, l, f) closes = rw (rewrite_lines, o, l, f, closes) refl
skipped_to (ln ∷ body) closer rest (((o, l, f), inside), h) plain closes =
    rw (rewrite_lines, o, l, f, inside) (skipped_to body closer rest h plain closes)

kept_before :
    (before lines : List Uri)
    → All IsPlain before
    → rewrite_lines false (before ++ lines) ≡ before ++ rewrite_lines false lines
unfolding rewrite_lines
kept_before [] lines h = refl
kept_before (ln ∷ before) lines ((o, l, f), h) =
    rw (rewrite_lines, o, l, f) (ap (λ ls. ln ∷ ls) (kept_before before lines h))

-- Of a file that names its output files in a list, the plain lines before are kept, the list is
-- left out from the line that opens it to the one that closes it, and what follows is rewritten;
-- no line that is left lets CRAB transfer outputs or logs, or speaks of the setting of the output
-- files. The lines of the list speak of none of the three settings.
pub rewrite_lines-drops_list :
    (before : List Uri) (opener : Uri) (body : List Uri) (closer : Uri) (rest : List Uri)
    → All IsPlain before
    → IsOpener opener
    → All IsListed body
    → IsPlain closer
    → elem b']' closer ≡ true
    → (rewrite_lines false (before ++ (opener ∷ (body ++ (closer ∷ rest))))
        ≡ before ++ rewrite_lines false rest)
      × All IsTransferFree (rewrite_lines false (before ++ (opener ∷ (body ++ (closer ∷ rest)))))
unfolding rewrite_lines
rewrite_lines-drops_list before opener body closer rest plain (o, l, f, opens) listed end closes = (
  kept_before before (opener ∷ (body ++ (closer ∷ rest))) plain
      ∙ ap (λ ls. before ++ ls)
          (rw (rewrite_lines, o, l, f, opens) (skipped_to body closer rest listed end closes)),
  rewrite_lines-IsTransferFree false (before ++ (opener ∷ (body ++ (closer ∷ rest)))),
)

-- `missing_law_source`; `isfile` is what each attempt finds of a path, from the first on.
abbrev pub appears : (ℕ → Bool) → ℕ → ℕ → Bool
appears isfile n zero = false
appears isfile n (suc left) = isfile n || appears isfile (n + 1) left

unfoldable pub missing_law_source : (String → ℕ → Bool) → ℕ → List String → Option String
missing_law_source isfile retries [] = none
missing_law_source isfile retries (path ∷ paths) =
    let rest = missing_law_source isfile retries paths in
    if appears (isfile path) 0 (retries + 1) then rest else some path

-- ===== src/Steps/Counts.antt =====
-- dsprod/run_step.py: `_read_event_counts`.
--
-- The result of the counting script is an argument: `none` if its file cannot be read.
use dsprod.Common.{
  ℕ, ◌≡◌, refl, ap, ◌⊎◌, Bool, true, false, not, List, [], ◌∷◌, map, Option, none, some, arith,
  filter, length, All, inl, inr, none_filtered, All-mono,
}
use dsprod.Common.Dict.{Dict, get, get_or, has}
use dsprod.Storage.Paths.{Uri, uri_eq}
use dsprod.Steps.Params.{unreadable_counts, uncounted, StepResult, ok, raise}

-- `counts` has all but the missing paths; the error names how many of how many are missing, and the
-- first of them.
abbrev pub counts_or_missing : Dict Uri ℕ → List Uri → List Uri → StepResult (List ℕ)
counts_or_missing counts paths [] = ok (map (λ p. get_or counts p 0) paths)
counts_or_missing counts paths (p ∷ missing) =
    raise (uncounted (length (p ∷ missing)) (length paths) p)

unfoldable pub read_event_counts : Option (Dict Uri ℕ) → List Uri → StepResult (List ℕ)
read_event_counts none paths = raise unreadable_counts
read_event_counts (some counts) paths =
    counts_or_missing counts paths (filter (λ p. not (has counts p)) paths)

has-get :
    (counts : Dict Uri ℕ) (p : Uri) → has counts p ≡ true → get counts p ≡ some (get_or counts p 0)
has-get [] p h = cc
has-get ((q, n) ∷ counts) p h = ground (arith, has-get counts p)

List-cases : (ps : List Uri) → (ps ≡ []) ⊎ ((p : Uri) × (qs : List Uri) × (ps ≡ p ∷ qs))
List-cases [] = inl refl
List-cases (p ∷ ps) = inr (p, ps, refl)

counted : (b : Bool) → not b ≡ false → b ≡ true
counted b h = ground arith

all_counted :
    (counts : Dict Uri ℕ) (paths : List Uri)
    → All (λ p. has counts p ≡ true) paths
    → map (get counts) paths ≡ map some (map (λ p. get_or counts p 0) paths)
all_counted counts [] h = refl
all_counted counts (p ∷ paths) h = rw (has-get counts p h.0, all_counted counts paths h.1) refl

-- A count is never made up: the counts that are returned are those that the script wrote, one for
-- each path in their order. If the script wrote no result, the reading raises; and so it does if
-- there are paths that are not in it, and says how many of how many, and the first of them.
pub read_event_counts-cases :
    (result : Option (Dict Uri ℕ)) (paths : List Uri)
    → ((counts : Dict Uri ℕ) × (ns : List ℕ) × (result ≡ some counts)
        × (read_event_counts result paths ≡ ok ns)
        × (map (get counts) paths ≡ map some ns))
      ⊎ (((result ≡ none) × (read_event_counts result paths ≡ raise unreadable_counts))
          ⊎ ((counts : Dict Uri ℕ) × (p : Uri) × (missing : List Uri) × (result ≡ some counts)
              × (filter (λ q. not (has counts q)) paths ≡ p ∷ missing)
              × (read_event_counts result paths
                  ≡ raise (uncounted (length (p ∷ missing)) (length paths) p))))
unfolding read_event_counts
read_event_counts-cases none paths = inr (inl (refl, refl))
read_event_counts-cases (some counts) paths =
    elim (List-cases (filter (λ p. not (has counts p)) paths)) [
      | inl all ↦ inl (
        counts,
        map (λ p. get_or counts p 0) paths,
        refl,
        ap (counts_or_missing counts paths) all,
        all_counted counts paths (
            All-mono (λ p h. counted (has counts p) h) paths
              (none_filtered (λ p. not (has counts p)) paths (ap length all))),
      )
      | inr (p, missing, some_missing) ↦ inr (
          inr (
            counts,
            p,
            missing,
            refl,
            some_missing,
            ap (counts_or_missing counts paths) some_missing,
          ))
    ]

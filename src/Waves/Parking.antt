-- ===== src/Waves/Parking.antt =====
-- dsprod/crab.py: what `_park_retries` does to law's job data.
use mathlib.Core.List.{append-nil, append_assoc}
use dsprod.Common.{
  ℕ, ◌+◌, ◌≡◌, refl, sym, ◌∙◌, Bool, true, false, ◌&&◌, ◌||◌, not, List, [], ◌∷◌, ◌++◌, arith,
  nat_beq, length, filter, elem, All, All-mono, All-filter, IsDistinct, Bool-cases, inl, inr,
  nat_eq, ◌==◌,
}
use dsprod.Common.Dict.{
  Dict, other_keys, put, pop, has, keys, elem-keys-put, elem-keys-pop, length-put, length-pop,
  pop-IsDistinct, keys-put_prefix,
}
use dsprod.Waves.Types.{JobRow, Jobs, JobTable, Proxy}
use dsprod.Waves.Gate.{update_clock}
use dsprod.Waves.Submission.{update, pop_all, park_retries, is_kept, n_jobs}

has-update : (d e : Jobs) (k : ℕ) → has (update d e) k ≡ (has d k || has e k)
unfolding update
has-update d [] k = ground arith
has-update d ((j, v) ∷ e) k = has-update (put d j v) e k ∙ rw (elem-keys-put d j k v) (ground arith)

has-pop_all :
    (jobs : Dict ℕ JobRow) (e : Jobs) (k : ℕ)
    → has (pop_all jobs e) k ≡ (not (has e k) && has jobs k)
unfolding pop_all
has-pop_all jobs [] k = ground arith
has-pop_all jobs ((j, v) ∷ e) k =
    has-pop_all (pop jobs j) e k ∙ rw (elem-keys-pop jobs j k) (ground arith)

-- law knows the job, as submitted or as not yet submitted.
abbrev pub tracks : JobTable → ℕ → Bool
tracks t k = has t.jobs k || has t.unsubmitted_jobs k

keys-update_prefix : (d e : Jobs) → (new : List ℕ) × (keys (update d e) ≡ keys d ++ new)
unfolding update
keys-update_prefix d [] = ([], sym (append-nil (keys d)))
keys-update_prefix d ((k, v) ∷ e) =
    let (first, p) = keys-put_prefix d k v in
    let (rest, q) = keys-update_prefix (put d k v) e in (first ++ rest, rw (q, p, append_assoc))

not_put :
    (d e : Jobs) (k : ℕ) (v : List ℕ)
    → elem k (keys e) ≡ false
    → All (λ x. has d x.0 ≡ false) e
    → All (λ x. has (put d k v) x.0 ≡ false) e
not_put d e k v absent h = merge e (other_keys k e absent) h
  where
    merge :
        (es : Jobs)
        → All (λ x. (k == x.0) ≡ false) es
        → All (λ x. has d x.0 ≡ false) es
        → All (λ x. has (put d k v) x.0 ≡ false) es
    merge [] a b = tt
    merge (x ∷ es) a b = (rw (elem-keys-put d k x.0 v, a.0) b.0, merge es a.1 b.1)

length-update :
    (d e : Jobs)
    → IsDistinct (keys e)
    → All (λ x. has d x.0 ≡ false) e
    → length (update d e) ≡ length d + length e
unfolding update
length-update d [] distinct new = omega arith
length-update d ((k, v) ∷ e) distinct new =
    length-update (put d k v) e distinct.1 (not_put d e k v distinct.0 new.1)
    ∙ rw (length-put d k v, new.0) (omega arith)

kept_after_pop :
    (jobs : Dict ℕ JobRow) (k : ℕ) (e : Jobs)
    → elem k (keys e) ≡ false
    → All (λ x. has jobs x.0 ≡ true) e
    → All (λ x. has (pop jobs k) x.0 ≡ true) e
kept_after_pop jobs k e absent h = merge e (other_keys k e absent) h
  where
    merge :
        (es : Jobs)
        → All (λ x. (k == x.0) ≡ false) es
        → All (λ x. has jobs x.0 ≡ true) es
        → All (λ x. has (pop jobs k) x.0 ≡ true) es
    merge [] a b = tt
    merge (x ∷ es) a b = (rw (elem-keys-pop jobs k x.0, a.0) b.0, merge es a.1 b.1)

length-pop_all :
    (jobs : Dict ℕ JobRow) (e : Jobs)
    → IsDistinct (keys jobs)
    → IsDistinct (keys e)
    → All (λ x. has jobs x.0 ≡ true) e
    → length (pop_all jobs e) + length e ≡ length jobs
unfolding pop_all
length-pop_all jobs [] dj de h = omega arith
length-pop_all jobs ((k, v) ∷ e) dj de h = omega (
  arith,
  length-pop_all (pop jobs k) e (pop-IsDistinct jobs k dj) de.1 (kept_after_pop jobs k e de.0 h.1),
  length-pop jobs k dj h.0,
)

keys_of_none : (e : Jobs) → nat_beq (length e) 0 ≡ true → keys e ≡ []
keys_of_none [] h = refl
keys_of_none (x ∷ e) h = ground arith

elem-keys-filter :
    (q : ℕ × List ℕ → Bool) (e : Jobs) (k : ℕ) → has e k ≡ false → has (filter q e) k ≡ false
elem-keys-filter q [] k h = refl
elem-keys-filter q ((j, v) ∷ e) k h = ground (arith, elem-keys-filter q e k)

filter-IsDistinct :
    (q : ℕ × List ℕ → Bool) (e : Jobs) → IsDistinct (keys e) → IsDistinct (keys (filter q e))
filter-IsDistinct q [] h = tt
filter-IsDistinct q ((j, v) ∷ e) h =
    ground (arith, filter-IsDistinct q e h.1, elem-keys-filter q e j h.0)

module _ (can_skip : ℕ → List ℕ → Bool) (p : Proxy) (time : ℕ) (retries : Jobs) where
  abbrev parked : Jobs
  parked = filter (is_kept can_skip) retries

  -- Parking loses no job: what law knew it still knows.
  pub tracks-park_retries :
      (k : ℕ)
      → tracks p.table k ≡ true
      → tracks (park_retries can_skip p time retries).table k ≡ true
  unfolding park_retries update_clock
  tracks-park_retries k known =
      ground
        (arith, has-update parked p.table.unsubmitted_jobs k, has-pop_all p.table.jobs parked k)

  -- The parked retries stand in front of the backlog, in the order in which they were offered.
  pub keys-park_retries :
      (rest : List ℕ) × (keys (park_retries can_skip p time retries).table.unsubmitted_jobs
        ≡ keys parked ++ rest)
  unfolding park_retries update_clock
  keys-park_retries = elim (Bool-cases (nat_beq (length parked) 0)) [
    | inl nothing ↦ (keys p.table.unsubmitted_jobs, rw (nothing, keys_of_none parked nothing))
    | inr some_parked ↦ rw some_parked (keys-update_prefix parked p.table.unsubmitted_jobs)
  ]

  -- Parking keeps the number of jobs that law counts, for retries that are among the submitted
  -- jobs and not in the backlog, where no job stands twice in any of the three.
  pub n_jobs-park_retries :
      IsDistinct (keys p.table.jobs)
      → IsDistinct (keys p.table.unsubmitted_jobs)
      → IsDistinct (keys retries)
      → All (λ e. has p.table.jobs e.0 ≡ true) retries
      → All (λ e. has retries e.0 ≡ false) p.table.unsubmitted_jobs
      → n_jobs (park_retries can_skip p time retries).table ≡ n_jobs p.table
  unfolding park_retries update_clock
  n_jobs-park_retries dj du dr sent new =
      let moved =
        length-pop_all p.table.jobs parked dj (filter-IsDistinct _ retries dr)
          (All-filter _ (is_kept can_skip) retries sent) in
      let grown =
        length-update parked p.table.unsubmitted_jobs du
          (All-mono (λ e h. elem-keys-filter (is_kept can_skip) retries e.0 h) _ new) in
      elim (Bool-cases (nat_beq (length parked) 0)) [
        | inl nothing ↦ rw nothing
        | inr some_parked ↦ rw some_parked (omega (arith, moved, grown))
      ]

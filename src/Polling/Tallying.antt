-- ===== src/Polling/Tallying.antt =====
-- dsprod/crab.py: which outcomes the loop of `harvest_site_stats` records.
use dsprod.Common.{
  or_right, ℕ, ◌≡◌, refl, ◌∙◌, Bool, true, ◌||◌, List, [], ◌∷◌, Option, none, some, String, elem,
  last?, All, All-mono, Bool-cases, inl, inr, string_eq, nat_eq, ◌==◌, ==-refl,
}
use dsprod.Jobs.{JobId, JobData}
use dsprod.Polling.Types.{PollResult, Seen, outcome, seen_eq}
use dsprod.Polling.Harvest.{
  Tallied, Verdict, ended, nothing_said, in_the_air, judge_job, tally, tally_at, tally_job,
  tally_all,
}

abbrev pub counted_as : List Seen → JobId → Verdict → Bool
counted_as seen id (ended ok) = elem (outcome id ok) seen
counted_as seen id _ = true

abbrev pub counted_at : List Seen → JobId → JobData → Option String → Bool
counted_at seen id d none = true
counted_at seen id d (some site) = counted_as seen id (judge_job d)

-- Whether the outcome of a job is in the set of those that were recorded, if it has one.
abbrev pub counted : List Seen → JobId × Option JobData → Bool
counted seen (id, none) = true
counted seen (id, some d) = counted_at seen id d (last? d.site_history)

first_in : (s : Seen) (seen : List Seen) → (s == s || elem s seen) ≡ true
first_in s seen = rw (==-refl s) refl

tally-counted :
    (t : Tallied) (now : ℕ) (id : JobId) (site : String) (v : Verdict)
    → counted_as (tally t now id site v).seen id v ≡ true
unfolding tally
tally-counted t now id site (ended ok) = elim (Bool-cases (elem (outcome id ok) t.seen)) [
  | inl old ↦ rw (old, old) refl
  | inr new ↦ rw new (first_in (outcome id ok) t.seen)
]
tally-counted t now id site nothing_said = refl
tally-counted t now id site in_the_air = refl

tally-grows :
    (t : Tallied) (now : ℕ) (id : JobId) (site : String) (v : Verdict) (s : Seen)
    → elem s t.seen ≡ true
    → elem s (tally t now id site v).seen ≡ true
unfolding tally
tally-grows t now id site (ended ok) s h = elim (Bool-cases (elem (outcome id ok) t.seen)) [
  | inl old ↦ rw old h
  | inr new ↦ rw new (or_right (outcome id ok == s) (elem s t.seen) h)
]
tally-grows t now id site nothing_said s h = h
tally-grows t now id site in_the_air s h = h

tally-stats :
    (t : Tallied) (now : ℕ) (id : JobId) (site : String) (v : Verdict)
    → counted_as t.seen id v ≡ true
    → (tally t now id site v).stats ≡ t.stats
unfolding tally
tally-stats t now id site (ended ok) h = rw h refl
tally-stats t now id site nothing_said h = refl
tally-stats t now id site in_the_air h = refl

tally_at-counted :
    (t : Tallied) (now : ℕ) (id : JobId) (d : JobData) (o : Option String)
    → counted_at (tally_at t now id d o).seen id d o ≡ true
unfolding tally_at
tally_at-counted t now id d none = refl
tally_at-counted t now id d (some site) = tally-counted t now id site (judge_job d)

tally_at-grows :
    (t : Tallied) (now : ℕ) (id : JobId) (d : JobData) (o : Option String) (s : Seen)
    → elem s t.seen ≡ true
    → elem s (tally_at t now id d o).seen ≡ true
unfolding tally_at
tally_at-grows t now id d none s h = h
tally_at-grows t now id d (some site) s h = tally-grows t now id site (judge_job d) s h

tally_at-stats :
    (t : Tallied) (now : ℕ) (id : JobId) (d : JobData) (o : Option String)
    → counted_at t.seen id d o ≡ true
    → (tally_at t now id d o).stats ≡ t.stats
unfolding tally_at
tally_at-stats t now id d none h = refl
tally_at-stats t now id d (some site) h = tally-stats t now id site (judge_job d) h

pub tally_all-grows :
    (t : Tallied) (now : ℕ) (result : PollResult) (s : Seen)
    → elem s t.seen ≡ true
    → elem s (tally_all t now result).seen ≡ true
unfolding tally_all tally_job
tally_all-grows t now [] s h = h
tally_all-grows t now ((id, none) ∷ result) s h = tally_all-grows t now result s h
tally_all-grows t now ((id, some d) ∷ result) s h =
    tally_all-grows (tally_at t now id d (last? d.site_history)) now result s
      (tally_at-grows t now id d (last? d.site_history) s h)

kept_as :
    (seen seen' : List Seen) (id : JobId) (v : Verdict)
    → ((s : Seen) → elem s seen ≡ true → elem s seen' ≡ true)
    → counted_as seen id v ≡ true
    → counted_as seen' id v ≡ true
kept_as seen seen' id (ended ok) grows h = grows (outcome id ok) h
kept_as seen seen' id nothing_said grows h = refl
kept_as seen seen' id in_the_air grows h = refl

kept_at :
    (seen seen' : List Seen) (id : JobId) (d : JobData) (o : Option String)
    → ((s : Seen) → elem s seen ≡ true → elem s seen' ≡ true)
    → counted_at seen id d o ≡ true
    → counted_at seen' id d o ≡ true
kept_at seen seen' id d none grows h = refl
kept_at seen seen' id d (some site) grows h = kept_as seen seen' id (judge_job d) grows h

pub kept_entry :
    (seen seen' : List Seen) (e : JobId × Option JobData)
    → ((s : Seen) → elem s seen ≡ true → elem s seen' ≡ true)
    → counted seen e ≡ true
    → counted seen' e ≡ true
kept_entry seen seen' (id, none) grows h = refl
kept_entry seen seen' (id, some d) grows h = kept_at seen seen' id d (last? d.site_history) grows h

pub tally_all-counted :
    (t : Tallied) (now : ℕ) (result : PollResult)
    → All (λ e. counted (tally_all t now result).seen e ≡ true) result
unfolding tally_all tally_job
tally_all-counted t now [] = tt
tally_all-counted t now ((id, none) ∷ result) = (refl, tally_all-counted t now result)
tally_all-counted t now ((id, some d) ∷ result) =
    let t' = tally_at t now id d (last? d.site_history) in
    (
      kept_at t'.seen _ id d (last? d.site_history) (tally_all-grows t' now result)
          (tally_at-counted t now id d (last? d.site_history)),
      tally_all-counted t' now result,
    )

pub tally_all-stats :
    (t : Tallied) (now : ℕ) (result : PollResult)
    → All (λ e. counted t.seen e ≡ true) result
    → (tally_all t now result).stats ≡ t.stats
unfolding tally_all tally_job
tally_all-stats t now [] h = refl
tally_all-stats t now ((id, none) ∷ result) h = tally_all-stats t now result h.1
tally_all-stats t now ((id, some d) ∷ result) h =
    let o = last? d.site_history in
    let grows = tally_at-grows t now id d o in
    tally_all-stats (tally_at t now id d o) now result
      (All-mono (λ e c. kept_entry t.seen (tally_at t now id d o).seen e grows c) result h.1)
    ∙ tally_at-stats t now id d o h.0

-- ===== src/Repairs/Ending.antt =====
-- dsprod/tasks.py: how the passes of `ProductionTask.run` come to an end.
use dsprod.Common.{
  ℕ, ◌⊎◌, subst, ◌+◌, ◌-◌, ◌≡◌, ◌≤◌, ◌<◌, refl, true, false, ◌&&◌, not, List, [], ◌∷◌, arith,
  Option, some, ltb, leb, length, inl, inr, Bool-cases, Option-cases,
}
use dsprod.Repairs.Rounds.{
  Core, is_refused, Answers, Pass, done, waits_produce, waits_merge, refused, sweep_raised,
  gives_up, at_merge, after_sweep, run_pass, go_on, passes, Serves, IsServed,
}

abbrev IsFinal : Pass → Type 0
IsFinal waits_produce = ⊥
IsFinal waits_merge = ⊥
IsFinal _ = Unit {0}

go_on_final : (p : Pass) (rest : Option Pass) → IsFinal p → go_on p rest ≡ some p
go_on_final done rest h = refl
go_on_final refused rest h = refl
go_on_final sweep_raised rest h = refl
go_on_final (gives_up n m) rest h = refl
go_on_final waits_produce rest h = absurd h
go_on_final waits_merge rest h = absurd h

at_merge-cases : (a : Answers) → IsFinal (at_merge a) ⊎ (at_merge a ≡ waits_merge)
at_merge-cases a = elim (Bool-cases a.merged_last) [
  | inl complete ↦ inl (rw complete tt)
  | inr open_still ↦ inr (rw open_still refl)
]

-- How a pass can end: for good, in wait for the merge, or in wait for one more round of production,
-- which is counted and within the bound.
abbrev Ends : ℕ → ℕ → ℕ × Pass → Type 0
Ends max_repairs rounds q =
    IsFinal q.1
    ⊎ ((q.1 ≡ waits_merge) ⊎ ((q.1 ≡ waits_produce) × (q.0 ≡ rounds + 1) × (rounds < max_repairs)))

merge-Ends :
    (max_repairs rounds rounds' : ℕ) (a : Answers) → Ends max_repairs rounds (rounds', at_merge a)
merge-Ends max_repairs rounds rounds' a = elim (at_merge-cases a) [
  | inl final ↦ inl final
  | inr waits ↦ inr (inl waits)
]

after_sweep-Ends :
    (max_repairs : ℕ) (a : Answers) (rounds pruned : ℕ)
    → Ends max_repairs rounds (after_sweep max_repairs a rounds pruned)
unfolding after_sweep
after_sweep-Ends max_repairs a rounds pruned = elim (Bool-cases (leb pruned 0)) [
  | inl clean ↦ rw clean (merge-Ends max_repairs rounds rounds a)
  | inr found ↦ rw found (elim (Bool-cases (leb max_repairs rounds)) [
    | inl spent ↦ rw spent (inl tt)
    | inr left ↦ rw left (elim (Bool-cases a.produced_again) [
      | inl again ↦ rw again (merge-Ends max_repairs rounds (rounds + 1) a)
      | inr missing ↦ rw missing (inr (inr (refl, refl, ground arith)))
    ])
  ])
]

run_pass-Ends :
    (max_repairs : ℕ) (core : Core) (a : Answers) (rounds : ℕ)
    → a.produced ≡ true
    → Ends max_repairs rounds (run_pass max_repairs core a rounds)
unfolding run_pass
run_pass-Ends max_repairs core a rounds h = elim (Bool-cases (is_refused max_repairs core)) [
  | inl refuses ↦ rw refuses (inl tt)
  | inr runs ↦
      rw (runs, h)
        (elim (Bool-cases (ltb 0 max_repairs && not a.merged)) [
          | inl sweeps ↦ rw sweeps (elim (Option-cases a.pruned) [
            | inl raised ↦ rw raised (inl tt)
            | inr (n, swept) ↦ rw swept (after_sweep-Ends max_repairs a rounds n)
          ])
          | inr through ↦ rw through (merge-Ends max_repairs rounds rounds a)
        ])
]

-- A pass that finds all of it complete ends.
settled-IsFinal :
    (max_repairs : ℕ) (core : Core) (a : Answers) (rounds : ℕ)
    → Serves waits_merge a
    → IsFinal (run_pass max_repairs core a rounds).1
unfolding run_pass
settled-IsFinal max_repairs core a rounds (produced, merged, last) =
    elim (Bool-cases (is_refused max_repairs core)) [
      | inl refuses ↦ rw refuses tt
      | inr runs ↦ elim (Bool-cases (ltb 0 max_repairs)) [
        | inl bounded ↦ rw (runs, produced, merged, bounded, last) tt
        | inr unbounded ↦ rw (runs, produced, merged, unbounded, last) tt
      ]
    ]

Served-Serves : (p q : Pass) (b : Answers) → p ≡ q → Serves p b → Serves q b
Served-Serves p q b same h = subst (λ r. Serves r b) same h

settled-ends :
    (max_repairs : ℕ) (core : Core) (rounds : ℕ) (a : Answers) (later : List Answers)
    → Serves waits_merge a
    → (p : Pass) × (passes max_repairs core rounds (a ∷ later) ≡ some p)
unfolding passes
settled-ends max_repairs core rounds a later h = (
  (run_pass max_repairs core a rounds).1,
  go_on_final _ _ (settled-IsFinal max_repairs core a rounds h),
)

produced-ends :
    (max_repairs : ℕ) (core : Core) (rounds : ℕ) (a : Answers) (later : List Answers)
    → a.produced ≡ true
    → IsServed max_repairs core rounds (a ∷ later)
    → max_repairs - rounds + 1 ≤ length later
    → (p : Pass) × (passes max_repairs core rounds (a ∷ later) ≡ some p)
unfolding passes
produced-ends max_repairs core rounds a [] h served enough = absurd (omega arith)
produced-ends max_repairs core rounds a (b ∷ later) h served enough =
    elim (run_pass-Ends max_repairs core a rounds h) [
      | inl final ↦ ((run_pass max_repairs core a rounds).1, go_on_final _ _ final)
      | inr (inl merging) ↦
          rw merging
            (settled-ends max_repairs core _ b later (Served-Serves _ _ b merging served.0))
      | inr (inr (producing, counted, within)) ↦ rw producing (
          produced-ends max_repairs core (run_pass max_repairs core a rounds).0 b later
            (Served-Serves _ _ b producing served.0) served.1 (rw counted (omega arith)))
    ]

missing-pass :
    (max_repairs : ℕ) (core : Core) (a : Answers) (rounds : ℕ)
    → is_refused max_repairs core ≡ false
    → a.produced ≡ false
    → run_pass max_repairs core a rounds ≡ (rounds, waits_produce)
unfolding run_pass
missing-pass max_repairs core a rounds runs missing = rw (runs, missing) refl

refused-pass :
    (max_repairs : ℕ) (core : Core) (a : Answers) (rounds : ℕ)
    → is_refused max_repairs core ≡ true
    → run_pass max_repairs core a rounds ≡ (rounds, refused)
unfolding run_pass
refused-pass max_repairs core a rounds refuses = rw refuses refl

-- The repairs end: however often sweeps find lost files, if luigi executes `run` again only when
-- what it waits for is complete, then `max_repairs + 3` passes, less the rounds that were taken
-- before, come to an end. A merge that was waited for is assumed to stay complete for the next
-- pass, and `RunProd` with it.
pub passes_end :
    (max_repairs : ℕ) (core : Core) (rounds : ℕ) (answers : List Answers)
    → IsServed max_repairs core rounds answers
    → max_repairs - rounds + 3 ≤ length answers
    → (p : Pass) × (passes max_repairs core rounds answers ≡ some p)
unfolding passes
passes_end max_repairs core rounds [] served enough = absurd (omega arith)
passes_end max_repairs core rounds (a ∷ []) served enough = absurd (omega arith)
passes_end max_repairs core rounds (a ∷ b ∷ later) served enough = elim (Bool-cases a.produced) [
  | inl there ↦ produced-ends max_repairs core rounds a (b ∷ later) there served (omega arith)
  | inr missing ↦ elim (Bool-cases (is_refused max_repairs core)) [
    | inl refuses ↦ (refused, rw (refused-pass max_repairs core a rounds refuses) refl)
    | inr runs ↦
        let waiting = missing-pass max_repairs core a rounds runs missing in
        let served' = rw waiting at served in
        rw waiting (produced-ends max_repairs core rounds b later served'.0 served'.1 (omega arith))
  ]
]

gives_up_count :
    (max_repairs : ℕ) (core : Core) (a : Answers) (rounds : ℕ)
    → rounds ≤ max_repairs
    → ((run_pass max_repairs core a rounds).0 ≤ max_repairs)
      × ((n r : ℕ)
          → (run_pass max_repairs core a rounds).1 ≡ gives_up n r
          → (r ≡ max_repairs) × (0 < n) × (0 < r))
unfolding run_pass after_sweep
gives_up_count max_repairs core a rounds h = (ground arith, λ n r e. ground arith)

go_on-some : (p q : Pass) (rest : Option Pass) → go_on p rest ≡ some q → (p ≡ q) ⊎ (rest ≡ some q)
go_on-some waits_produce q rest h = inr h
go_on-some waits_merge q rest h = inr h
go_on-some done q rest h = inl (cc)
go_on-some refused q rest h = inl (cc)
go_on-some sweep_raised q rest h = inl (cc)
go_on-some (gives_up n m) q rest h = inl (cc)

-- Giving up comes last: only after `max_repairs` rounds, which is not 0, and upon a sweep that
-- still deleted something; the error says so.
pub passes-gives_up :
    (max_repairs : ℕ) (core : Core) (rounds n r : ℕ) (answers : List Answers)
    → rounds ≤ max_repairs
    → passes max_repairs core rounds answers ≡ some (gives_up n r)
    → (r ≡ max_repairs) × (0 < n) × (0 < max_repairs)
unfolding passes
passes-gives_up max_repairs core rounds n r [] within h = cc
passes-gives_up max_repairs core rounds n r (a ∷ later) within h =
    let (bounded, counted) = gives_up_count max_repairs core a rounds within in
    elim (go_on-some _ _ _ h) [
      | inl now ↦ let (all, some_found, any) = counted n r now in (all, some_found, omega arith)
      | inr then_on ↦
          passes-gives_up max_repairs core (run_pass max_repairs core a rounds).0 n r later bounded
            then_on
    ]

-- ===== src/Repairs/Rounds.antt =====
-- dsprod/tasks.py: `ProductionTask.run`, which luigi executes again from the top whenever what a
-- pass yielded has become complete.
--
-- The answers of one pass are arguments: whether the two other tasks are complete where they are
-- asked, and what `_repair` came to.
use dsprod.Common.{
  ℕ, ◌+◌, ◌≡◌, Bool, true, false, ◌&&◌, ◌||◌, not, List, [], ◌∷◌, Option, none, some, if◌then◌else◌,
  ltb, leb,
}

-- What luigi is started with.
pub record Core : Type 0 where
  pub workers : ℕ
  pub worker_timeout : ℕ
  pub task_timeout : ℕ

-- `_require_one_process`: whether it refuses.
unfoldable pub is_refused : ℕ → Core → Bool
is_refused max_repairs core =
    if leb max_repairs 0
    then false
    else ltb 1 core.workers || (ltb 0 core.worker_timeout || ltb 0 core.task_timeout)

pub record Answers : Type 0 where
  -- `RunProd` is complete at the first `yield`
  pub produced : Bool
  -- the merge is complete before the sweep
  pub merged : Bool
  -- the records that the sweep deleted; `none` if it raised
  pub pruned : Option ℕ
  -- `RunProd` is complete at the second `yield`
  pub produced_again : Bool
  -- the merge is complete at the last `yield`
  pub merged_last : Bool

-- How a pass ends.
pub data Pass : Type 0 where
  done : Pass
  waits_produce : Pass
  waits_merge : Pass
  refused : Pass
  sweep_raised : Pass
  gives_up : ℕ → ℕ → Pass

abbrev pub at_merge : Answers → Pass
at_merge a = if a.merged_last then done else waits_merge

-- After a sweep that deleted `pruned` records.
unfoldable pub after_sweep : ℕ → Answers → ℕ → ℕ → ℕ × Pass
after_sweep max_repairs a rounds pruned =
    if leb pruned 0
    then (rounds, at_merge a)
    else (if leb max_repairs rounds
        then (rounds, gives_up pruned rounds)
        else (rounds + 1, (if a.produced_again then at_merge a else waits_produce)))

-- One pass of `run`: the count of rounds that it leaves, and how it ends.
unfoldable pub run_pass : ℕ → Core → Answers → ℕ → ℕ × Pass
unfolding after_sweep is_refused
run_pass max_repairs core a rounds =
    if is_refused max_repairs core
    then (rounds, refused)
    else (if not a.produced
        then (rounds, waits_produce)
        else (if ltb 0 max_repairs && not a.merged
            then elim a.pruned [
              | none ↦ (rounds, sweep_raised)
              | some pruned ↦ after_sweep max_repairs a rounds pruned
            ]
            else (rounds, at_merge a)))

-- luigi's passes, until one does not wait; `none` if the answers end before.
abbrev pub go_on : Pass → Option Pass → Option Pass
go_on waits_produce rest = rest
go_on waits_merge rest = rest
go_on p rest = some p

unfoldable pub passes : ℕ → Core → ℕ → List Answers → Option Pass
passes max_repairs core rounds [] = none
passes max_repairs core rounds (a ∷ later) =
    let (rounds', p) = run_pass max_repairs core a rounds in
    go_on p (passes max_repairs core rounds' later)

-- luigi executes `run` again only once what it waits for is complete, and what is complete stays so
-- but for what a sweep deletes.
abbrev pub Serves : Pass → Answers → Type 0
Serves waits_produce a = a.produced ≡ true
Serves waits_merge a = (a.produced ≡ true) × (a.merged ≡ true) × (a.merged_last ≡ true)
Serves _ a = Unit {0}

abbrev pub IsServed : ℕ → Core → ℕ → List Answers → Type 0
IsServed max_repairs core rounds [] = Unit {0}
IsServed max_repairs core rounds (a ∷ []) = Unit {0}
IsServed max_repairs core rounds (a ∷ b ∷ later) =
    Serves (run_pass max_repairs core a rounds).1 b
    × IsServed max_repairs core (run_pass max_repairs core a rounds).0 (b ∷ later)

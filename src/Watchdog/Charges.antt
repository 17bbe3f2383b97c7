-- ===== src/Watchdog/Charges.antt =====
-- dsprod/watchdog.py: the verdicts on the jobs of a branch, against its counter of rescues.
use dsprod.Common.{
  ℕ, ◌+◌, ◌≤◌, ◌≡◌, Bool, false, List, [], ◌∷◌, Option, some, none, if◌then◌else◌, elem, IsDistinct,
  nat_eq,
}
use dsprod.Common.Dict.{Dict, get}
use dsprod.Jobs.{key, job_id_eq, key_eq, Key}
use dsprod.Watchdog.Config.{Config}
use dsprod.Watchdog.Types.{Known, StallWatchdog}
use dsprod.Watchdog.Operations.{Stale, Verdicts, verdicts}
use dsprod.Watchdog.Budget.{Poll}
use dsprod.Watchdog.Branches.{rescues}

abbrev names_branch : ℕ → Option Known → Bool
names_branch b none = false
names_branch b (some known) = elem b known.branches

-- How many of the verdicts are on jobs that run the branch `b`.
abbrev pub condemned : Dict Key Known → ℕ → Verdicts → ℕ
condemned by_id b [] = 0
condemned by_id b ((id, reason) ∷ out) =
    let rest = condemned by_id b out in
    if names_branch b (get by_id (key id)) then rest + 1 else rest

-- An entry of `stale`, with the branches that the table has for its job.
IsKnown : Dict Key Known → Stale → Type 0
IsKnown by_id st =
    IsDistinct st.branches
    × (get by_id (key st.job_id) ≡ some (record { job_num = st.job_num; branches = st.branches }))

-- Every verdict is charged to the branches of its job.
Charges : Dict Key Known → ℕ → StallWatchdog → Verdicts → StallWatchdog → Verdicts → Type 0
Charges by_id b w out w' out' =
    condemned by_id b out' + rescues w.per_branch b
    ≤ condemned by_id b out + rescues w'.per_branch b

-- No job of the table names a branch twice.
abbrev pub IsTable : Dict Key Known → Type 0
IsTable by_id = (k : Key) (known : Known) → get by_id k ≡ some known → IsDistinct known.branches

-- A poll, with the table of the jobs' branches that `set_jobs` left before it.
pub record PolledTable : Type 0 where
  pub by_id : Dict Key Known
  pub poll : Poll

abbrev with_table : StallWatchdog → PolledTable → StallWatchdog
with_table w r = record w { by_id = r.by_id }

-- How many jobs that run the branch `b` the rounds fail.
unfoldable pub branch_failures : ℕ → StallWatchdog → List PolledTable → ℕ
branch_failures b w [] = 0
branch_failures b w (r ∷ rs) =
    let (w', out) = verdicts (with_table w r) r.poll.result r.poll.now r.poll.clock in
    condemned r.by_id b out + branch_failures b w' rs

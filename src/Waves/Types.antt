-- ===== src/Waves/Types.antt =====
-- dsprod/crab.py: the state of `DSProdCrabWorkflowProxy`, and the settings that it reads.
--
-- `jobs`, `unsubmitted_jobs` and `attempts` are law's `job_data`; `saved` is what was last dumped.
-- Times are seconds of the monotonic clock.
use dsprod.Common.{ℕ, Bool, List, Option}
use dsprod.Common.Dict.{Dict}
use dsprod.Common.Ratio.{Ratio}
use dsprod.Jobs.{JobError}

pub record JobRow : Type 0 where
  pub branches : List ℕ
  pub error : Option JobError

-- An `OrderedDict` of job numbers to branches.
abbrev pub Jobs : Type 0
Jobs = Dict ℕ (List ℕ)

pub record JobTable : Type 0 where
  pub jobs : Dict ℕ JobRow
  pub unsubmitted_jobs : Jobs
  pub attempts : Dict ℕ ℕ

-- What a setting may hold where `float` is called on it: nothing, text that is no number, one of
-- the infinities, nan, a negative number, or a number.
pub data RawNumber : Type 0 where
  absent : RawNumber
  not_a_number : RawNumber
  infinite : RawNumber
  minus_infinite : RawNumber
  nan : RawNumber
  negative : RawNumber
  number : Ratio → RawNumber

-- `crab.parallel_jobs`
pub data ParallelJobs : Type 0 where
  unset : ParallelJobs
  auto : ParallelJobs
  fixed : ℕ → ParallelJobs

pub record Settings : Type 0 where
  pub refill_fraction : RawNumber
  pub retry_release_minutes : RawNumber
  pub parallel_jobs : ParallelJobs

pub record Proxy : Type 0 where
  pub table : JobTable
  pub saved : JobTable
  pub retry_parked_since : Option ℕ
  pub n_parallel : ℕ
  pub n_parallel_max : ℕ
  pub n_active : ℕ
  pub submitted : Bool
  pub settings : Settings

abbrev pub default_parallel_jobs : ℕ
default_parallel_jobs = 5000

abbrev pub auto_max_parallel_jobs : ℕ
auto_max_parallel_jobs = 8000

abbrev pub default_refill_fraction : Ratio
default_refill_fraction = record { num = 1; den = 5 }

abbrev pub default_retry_release_minutes : Ratio
default_retry_release_minutes = record { num = 45; den = 1 }

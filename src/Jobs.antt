-- ===== src/Jobs.antt =====
-- The data that law and DSProd exchange about CRAB jobs: `JobId`, and the status dictionary of a job
-- as `law.workflow.remote` builds it (dsprod/watchdog.py and dsprod/crab.py read both).
use text.Mathlib.TextEquality.{eq_iff}
use dsprod.Common.{
  ℕ, ◌≡◌, ◌↔◌, Bool, true, false, ◌&&◌, List, Option, String, arith, Eq, ◌==◌, nat_eq, string_eq,
}

-- law's named tuple.
pub record JobId : Type 0 where
  pub crab_num : ℕ
  pub task_name : String
  pub proj_dir : String

pub data Status : Type 0 where
  pending running finished failed : Status

abbrev pub is_running : Status → Bool
is_running running = true
is_running _ = false

-- `error`: law's "initially missing task outputs", anything else that it says, the server's refusal,
-- or a verdict of the watchdog.
pub data JobError : Type 0 where
  missing_outputs : JobError
  said : String → JobError
  refused : String → JobError
  stalled : Option ℕ → JobError

-- A status dictionary; `site_history` and `log_file` are entries of its `extra`.
pub record JobData : Type 0 where
  pub status : Status
  pub code : Option ℕ
  pub error : Option JobError
  pub site_history : List String
  pub log_file : Option String

-- `(crab_num, task_name)`, what identifies a job whatever its project directory.
pub record Key : Type 0 where
  pub crab_num : ℕ
  pub task_name : String

abbrev pub key : JobId → Key
key id = record { crab_num = id.crab_num; task_name = id.task_name }

abbrev pub key_beq : Key → Key → Bool
key_beq a b = a.crab_num == b.crab_num && a.task_name == b.task_name

pub key_beq_iff : (a b : Key) → (key_beq a b ≡ true) ↔ (a ≡ b)
key_beq_iff a b = ground (arith, eq_iff a.task_name b.task_name)

instance abbrev pub key_eq : Eq Key
key_eq = record { test = key_beq; test_path = key_beq_iff }

abbrev pub job_id_beq : JobId → JobId → Bool
job_id_beq a b =
    a.crab_num == b.crab_num && (a.task_name == b.task_name && a.proj_dir == b.proj_dir)

pub job_id_beq_iff : (a b : JobId) → (job_id_beq a b ≡ true) ↔ (a ≡ b)
job_id_beq_iff a b = ground (arith, eq_iff a.task_name b.task_name, eq_iff a.proj_dir b.proj_dir)

instance abbrev pub job_id_eq : Eq JobId
job_id_eq = record { test = job_id_beq; test_path = job_id_beq_iff }

-- ===== src/Watchdog/Types.antt =====
-- dsprod/watchdog.py: the state of `StallWatchdog`, and what it publishes.
--
-- Times are whole seconds. A message stands for its text, with the values that the text names.
use dsprod.Common.{
  ℕ, ◌≡◌, ◌↔◌, Bool, true, false, ◌&&◌, List, [], ◌∷◌, Option, none, String, arith, Eq, nat_eq,
  nat_beq,
}
use dsprod.Common.Dict.{Dict}
use dsprod.Jobs.{Key, key_beq, key_beq_iff, key_eq, JobId}
use dsprod.Watchdog.Config.{Config}

-- An entry of the listing of the flag directory.
pub record FileInfo : Type 0 where
  pub name : String
  pub date : Option ℕ
  pub is_dir : Bool

-- What `_note` remembers to have published.
pub data Note : Type 0 where
  gone : Key → Note
  cap : List ℕ → Note
  dry : Key → Note

abbrev pub branches_beq : List ℕ → List ℕ → Bool
branches_beq [] [] = true
branches_beq (a ∷ xs') (b ∷ ys') = nat_beq a b && branches_beq xs' ys'
branches_beq _ _ = false

pub branches_beq_iff : (xs ys : List ℕ) → (branches_beq xs ys ≡ true) ↔ (xs ≡ ys)
branches_beq_iff [] [] = ground arith
branches_beq_iff [] (y ∷ ys) = ground arith
branches_beq_iff (x ∷ xs) [] = ground arith
branches_beq_iff (x ∷ xs) (y ∷ ys) = ground (arith, branches_beq_iff xs ys)

abbrev pub note_beq : Note → Note → Bool
note_beq (gone a) (gone b) = key_beq a b
note_beq (cap xs) (cap ys) = branches_beq xs ys
note_beq (dry a) (dry b) = key_beq a b
note_beq _ _ = false

pub note_beq_iff : (a b : Note) → (note_beq a b ≡ true) ↔ (a ≡ b)
note_beq_iff (gone a) (gone b) = ground (arith, key_beq_iff a b)
note_beq_iff (cap xs) (cap ys) = ground (arith, branches_beq_iff xs ys)
note_beq_iff (dry a) (dry b) = ground (arith, key_beq_iff a b)
note_beq_iff (gone a) (cap b) = ground arith
note_beq_iff (gone a) (dry b) = ground arith
note_beq_iff (cap a) (gone b) = ground arith
note_beq_iff (cap a) (dry b) = ground arith
note_beq_iff (dry a) (gone b) = ground arith
note_beq_iff (dry a) (cap b) = ground arith

instance abbrev pub note_eq : Eq Note
note_eq = record { test = note_beq; test_path = note_beq_iff }

-- Why a job is failed: the age of its flag in seconds, if it has one.
pub record Reason : Type 0 where
  pub age : Option ℕ
  pub threshold : ℕ

pub data Message : Type 0 where
  cannot_list : Message
  readable_again : ℕ → Message
  flag_gone : ℕ → Message
  storage_fault : ℕ → ℕ → Message
  interval_full : ℕ → Message
  branch_spent : List ℕ → ℕ → Message
  would_fail : ℕ → Reason → Message

-- The branches that a job runs, as law's job data names them.
pub record Known : Type 0 where
  pub job_num : ℕ
  pub branches : List ℕ

-- An entry of law's `job_data.jobs`; `job_id` is `none` if it is missing or malformed.
pub record JobEntry : Type 0 where
  pub job_id : Option JobId
  pub branches : List ℕ

pub record StallWatchdog : Type 0 where
  pub cfg : Config
  pub ages : Option (Dict String ℕ)
  pub listed : Bool
  pub listed_at : Option ℕ
  pub first_running : Dict Key ℕ
  pub first_seen : Dict Key ℕ
  pub per_branch : Dict ℕ ℕ
  pub by_id : Dict Key Known
  pub seen_flag : List Key
  pub reported : List Note
  pub issued_this_interval : ℕ
  pub listing_failures : ℕ
  pub published : List Message

-- `__init__`
unfoldable pub start : Config → StallWatchdog
start cfg = record {
  cfg = cfg;
  ages = none;
  listed = false;
  listed_at = none;
  first_running = [];
  first_seen = [];
  per_branch = [];
  by_id = [];
  seen_flag = [];
  reported = [];
  issued_this_interval = 0;
  listing_failures = 0;
  published = [];
}

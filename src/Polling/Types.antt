-- ===== src/Polling/Types.antt =====
-- dsprod/crab.py: the state of `DSProdCrabJobManager`, and what it reads from a status response.
--
-- `_noted`, which only keeps a message from being printed twice, is left out, and so is the cached list
-- of sites, which a refusal drops. A project directory stands for itself; what law's own patterns read from a response is an argument.
use dsprod.Common.{
  ℕ, ◌≡◌, ◌↔◌, Bool, true, false, ◌&&◌, not, List, [], ◌∷◌, Option, none, some, String, arith, Eq,
  ◌==◌, nat_eq, string_eq, elem, add, if◌then◌else◌,
}
use dsprod.Common.Dict.{Dict}
use dsprod.Jobs.{JobId, JobData, job_id_beq, job_id_beq_iff, job_id_eq}
use dsprod.SiteStats.Types.{SiteStats}
use dsprod.Watchdog.Types.{StallWatchdog}

abbrev pub PollResult : Type 0
PollResult = Dict JobId (Option JobData)

-- What `_stats_seen` holds: a stall that was charged to a site, and an outcome that was recorded.
pub data Seen : Type 0 where
  stall : JobId → Seen
  outcome : JobId → Bool → Seen

abbrev pub bool_beq : Bool → Bool → Bool
bool_beq true b = b
bool_beq false b = not b

abbrev pub seen_beq : Seen → Seen → Bool
seen_beq (stall a) (stall b) = job_id_beq a b
seen_beq (outcome a x) (outcome b y) = job_id_beq a b && bool_beq x y
seen_beq _ _ = false

bool_beq_iff : (a b : Bool) → (bool_beq a b ≡ true) ↔ (a ≡ b)
bool_beq_iff a b = ground arith

pub seen_beq_iff : (a b : Seen) → (seen_beq a b ≡ true) ↔ (a ≡ b)
seen_beq_iff (stall a) (stall b) = ground (arith, job_id_beq_iff a b)
seen_beq_iff (stall a) (outcome b y) = ground arith
seen_beq_iff (outcome a x) (stall b) = ground arith
seen_beq_iff (outcome a x) (outcome b y) = ground (arith, job_id_beq_iff a b, bool_beq_iff x y)

instance abbrev pub seen_eq : Eq Seen
seen_eq = record { test = seen_beq; test_path = seen_beq_iff }

-- Why the run must stop, with the number that is named: submissions of this run that were refused, those
-- that failed, or the polls that a project was not scheduled for.
pub data StopReason : Type 0 where
  refused_submissions : ℕ → StopReason
  failed_submissions : ℕ → StopReason
  unscheduled : String → ℕ → StopReason

-- `in_flight` is `_in_flight`: when a project was harvested, and its jobs at each site.
pub record Harvested : Type 0 where
  pub at : ℕ
  pub counts : Dict String ℕ

pub record Manager : Type 0 where
  pub unreadable : Dict String ℕ
  pub submitted_projects : List String
  pub refused_projects : List String
  pub failed_projects : Dict String (Option String)
  pub unscheduled : Dict String ℕ
  pub stop_reason : Option StopReason
  pub reported_logs : List String
  pub stats_seen : List Seen
  pub in_flight : Dict String Harvested
  pub site_stats : Option SiteStats
  pub watchdog : Option StallWatchdog

-- What law's patterns find in a response: the state of the task on the server, the warnings, the failure
-- message, and whether there are states of single jobs.
pub record Response : Type 0 where
  pub state : String
  pub warnings : List String
  pub failure : Option String
  pub has_job_states : Bool

-- What `parse_query_output` comes to.
pub data Parsed : Type 0 where
  jobs : PollResult → Parsed
  refused : List String → Parsed
  not_scheduled : Parsed
  submit_failed : Option String → PollResult → Parsed
  unreadable_response : Parsed

abbrev pub terminal_states : List String
terminal_states = "SUBMITREFUSED" ∷ []

abbrev pub failed_states : List String
failed_states = "SUBMITFAILED" ∷ []

abbrev pub pending_states : List String
pending_states = "WAITING" ∷ []

-- `parse_query_output`; `law` is what law's own returns, `none` if it raises.
unfoldable pub parse_query_output : Option PollResult → Response → Parsed
parse_query_output none r =
    if elem r.state terminal_states
    then refused r.warnings
    else if elem r.state pending_states
    then not_scheduled
    else unreadable_response
parse_query_output (some result) r =
    if r.has_job_states
    then jobs result
    else if elem r.state pending_states
    then not_scheduled
    else if elem r.state failed_states
    then submit_failed r.failure result
    else jobs result

-- `submit`, behind law's own: it remembers the projects of the jobs that were submitted.
unfoldable pub remember : Manager → List JobId → Manager
remember m [] = m
remember m (id ∷ ids) =
    let known =
      if id.proj_dir == "" then m.submitted_projects else add id.proj_dir m.submitted_projects in
    remember (record m { submitted_projects = known }) ids

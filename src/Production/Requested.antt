-- ===== src/Production/Requested.antt =====
-- dsprod/tasks.py: `load_setup` and `setup_resources`, which read what a setup requests for its tasks.
--
-- What luigi knows of its tasks is an argument: the tasks that take resources, and what one of their
-- parameters makes of a text. A file that was parsed is given as its `resources` entry.
use dsprod.Common.{
  Bool, true, false, List, [], ◌∷◌, ◌++◌, Option, none, some, String, elem, if◌then◌else◌,
  string_eq,
}
use dsprod.Common.Dict.{Dict, get, put}

-- A task: its family, and whether the value that a parameter reads from a text is above 0. `none` stands
-- for a text that the parameter does not take.
pub record TaskClass : Type 0 where
  pub family : String
  pub parse : String → String → Option Bool

-- A number or a text, as `str` writes it; any other value.
pub data Quantity : Type 0 where
  scalar : String → Quantity
  no_scalar : Quantity

-- What a task requests. `null`, which reads as nothing, is `requests []`; anything else that is no
-- mapping has no `items`.
pub data Requested : Type 0 where
  requests : List (String × Quantity) → Requested
  no_requests : Requested

-- The `resources` entry; one that is not there is `block []`.
pub data RequestBlock : Type 0 where
  block : List (String × Requested) → RequestBlock
  no_block : RequestBlock

pub data ResourceError : Type 0 where
  not_a_mapping : ResourceError
  has_no_items unknown_task : String → ResourceError
  unknown_resource no_number not_taken asks_nothing : String → String → ResourceError

-- `(task_cls.get_task_family(), name, str(value))`
pub record ResourceRequest : Type 0 where
  pub family : String
  pub name : String
  pub value : String

pub data SetupSettings : Type 0 where
  settings : List ResourceRequest → SetupSettings
  refused : ResourceError → SetupSettings

-- `SETUP_RESOURCES`
abbrev pub setup_resource_names : List String
setup_resource_names = "max_runtime" ∷ "memory" ∷ "n_cpus" ∷ []

-- What comes of one entry, and then of the next.
unfoldable pub followed_by : SetupSettings → SetupSettings → SetupSettings
followed_by (settings xs) (settings ys) = settings (xs ++ ys)
followed_by (settings xs) (refused e) = refused e
followed_by (refused e) _ = refused e

abbrev pub parsed : TaskClass → String → String → String → Option Bool → SetupSettings
parsed cls task name text none = refused (not_taken task name)
parsed cls task name text (some false) = refused (asks_nothing task name)
parsed cls task name text (some true) =
    settings (record { family = cls.family; name = name; value = text } ∷ [])

abbrev pub read_value : TaskClass → String → String → Quantity → SetupSettings
read_value cls task name no_scalar = refused (no_number task name)
read_value cls task name (scalar text) = parsed cls task name text (cls.parse name text)

unfoldable pub read_request : TaskClass → String → String → Quantity → SetupSettings
read_request cls task name v =
    if elem name setup_resource_names
    then read_value cls task name v
    else refused (unknown_resource task name)

unfoldable pub read_requests : TaskClass → String → List (String × Quantity) → SetupSettings
read_requests cls task [] = settings []
read_requests cls task ((name, v) ∷ rs) =
    followed_by (read_request cls task name v) (read_requests cls task rs)

-- The body of the loop over the tasks, for the class that `_resource_task_cls` finds.
unfoldable pub read_task : Option TaskClass → String → Requested → SetupSettings
read_task none task requested = refused (unknown_task task)
read_task (some cls) task no_requests = refused (has_no_items task)
read_task (some cls) task (requests rs) = read_requests cls task rs

unfoldable pub read_tasks : Dict String TaskClass → List (String × Requested) → SetupSettings
read_tasks tasks [] = settings []
read_tasks tasks ((task, requested) ∷ entries) =
    followed_by (read_task (get tasks task) task requested) (read_tasks tasks entries)

-- `setup_resources`
unfoldable pub setup_resources : Dict String TaskClass → RequestBlock → SetupSettings
setup_resources tasks no_block = refused not_a_mapping
setup_resources tasks (block entries) = read_tasks tasks entries

-- `_setup_cache`, and what was set in luigi's configuration, in order.
pub record Process : Type 0 where
  pub setup_cache : Dict String (List ResourceRequest)
  pub configured : List ResourceRequest

unfoldable pub configure : Process → List ResourceRequest → Process
configure p rs = record p { configured = p.configured ++ rs }

abbrev pub first_load : String → Process → SetupSettings → Process × Option ResourceError
first_load path p (refused e) = (p, some e)
first_load path p (settings rs) =
    (configure (record p { setup_cache = put p.setup_cache path rs }) rs, none)

abbrev pub load_from :
    Dict String TaskClass
    → String
    → RequestBlock
    → Process
    → Option (List ResourceRequest)
    → Process × Option ResourceError
load_from tasks path resources p (some rs) = (configure p rs, none)
load_from tasks path resources p none = first_load path p (setup_resources tasks resources)

-- `load_setup`, with the error that it raises.
unfoldable pub load_setup :
    Dict String TaskClass → String → RequestBlock → Process → Process × Option ResourceError
load_setup tasks path resources p = load_from tasks path resources p (get p.setup_cache path)

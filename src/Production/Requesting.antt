-- ===== src/Production/Requesting.antt =====
-- dsprod/tasks.py: what the first load of a setup sets, against what the setup says.
use dsprod.Common.{
  ◌≡◌, ◌⊎◌, refl, sym, ap, subst, Bool, true, false, List, [], ◌∷◌, ◌++◌, Option, none, some,
  is_some, String, elem, map, arith, string_eq, All, inl, inr, Bool-cases,
}
use dsprod.Common.Dict.{Dict, get}
use dsprod.Production.Requested.{
  TaskClass, Quantity, scalar, no_scalar, Requested, requests, no_requests, RequestBlock, block,
  no_block, ResourceRequest, ResourceError, SetupSettings, settings, refused, setup_resource_names,
  followed_by, parsed, read_value, read_request, read_requests, read_task, read_tasks,
  setup_resources, Process, configure, first_load, load_from, load_setup,
}

-- A request that a task can make: the name is one of a resource, and the task takes the value and reads
-- it as more than nothing.
abbrev pub IsQuantity : TaskClass → String → Quantity → Type 0
IsQuantity cls name no_scalar = ⊥
IsQuantity cls name (scalar text) = cls.parse name text ≡ some true

abbrev pub IsRequest : TaskClass → String × Quantity → Type 0
IsRequest cls (name, v) = (elem name setup_resource_names ≡ true) × IsQuantity cls name v

abbrev pub AreRequests : Option TaskClass → Requested → Type 0
AreRequests none requested = ⊥
AreRequests (some cls) no_requests = ⊥
AreRequests (some cls) (requests rs) = All (IsRequest cls) rs

abbrev pub IsEntry : Dict String TaskClass → String × Requested → Type 0
IsEntry tasks (task, requested) = AreRequests (get tasks task) requested

abbrev pub IsAccepted : Dict String TaskClass → RequestBlock → Type 0
IsAccepted tasks no_block = ⊥
IsAccepted tasks (block entries) = All (IsEntry tasks) entries

-- What the setup says, read without a check.
abbrev pub written : Quantity → String
written no_scalar = ""
written (scalar text) = text

abbrev pub said : Option TaskClass → Requested → List ResourceRequest
said none requested = []
said (some cls) no_requests = []
said (some cls) (requests rs) =
    map (λ r. record { family = cls.family; name = r.0; value = written r.1 }) rs

abbrev pub all_said : Dict String TaskClass → List (String × Requested) → List ResourceRequest
all_said tasks [] = []
all_said tasks ((task, requested) ∷ entries) =
    said (get tasks task) requested ++ all_said tasks entries

abbrev pub told : Dict String TaskClass → RequestBlock → List ResourceRequest
told tasks no_block = []
told tasks (block entries) = all_said tasks entries

is_refused : SetupSettings → Bool
is_refused (settings rs) = false
is_refused (refused e) = true

-- If `P` holds these are the settings, and else there are none.
Exact : Type 0 → List ResourceRequest → SetupSettings → Type 0
Exact P rs s = (P × (s ≡ settings rs)) ⊎ ((¬ P) × (is_refused s ≡ true))

followed_by-refused :
    (s t : SetupSettings) → is_refused s ≡ true → is_refused (followed_by s t) ≡ true
unfolding is_refused followed_by
followed_by-refused (settings rs) t h = ground arith
followed_by-refused (refused e) t h = refl

followed_by-Exact :
    (P Q : Type 0) (xs ys : List ResourceRequest) (s t : SetupSettings)
    → Exact P xs s
    → Exact Q ys t
    → Exact (P × Q) (xs ++ ys) (followed_by s t)
unfolding Exact is_refused followed_by
followed_by-Exact P Q xs ys s t (inl (p, hs)) (inl (q, ht)) = inl ((p, q), rw hs (rw ht refl))
followed_by-Exact P Q xs ys s (settings rs) (inl (p, hs)) (inr (not_q, ht)) = ground arith
followed_by-Exact P Q xs ys s (refused e) (inl (p, hs)) (inr (not_q, ht)) =
    inr (λ both. not_q both.1, rw hs refl)
followed_by-Exact P Q xs ys s t (inr (not_p, hs)) other =
    inr (λ both. not_p both.0, followed_by-refused s t hs)

parsed-Exact :
    (cls : TaskClass) (task name text : String) (o : Option Bool)
    → cls.parse name text ≡ o
    → Exact
        (cls.parse name text ≡ some true)
        (record { family = cls.family; name = name; value = text } ∷ [])
        (parsed cls task name text o)
unfolding Exact is_refused
parsed-Exact cls task name text none e = inr (λ h. ground arith, refl)
parsed-Exact cls task name text (some false) e = inr (λ h. ground arith, refl)
parsed-Exact cls task name text (some true) e = inl (e, refl)

read_value-Exact :
    (cls : TaskClass) (task name : String) (v : Quantity)
    → Exact
        (IsQuantity cls name v)
        (record { family = cls.family; name = name; value = written v } ∷ [])
        (read_value cls task name v)
unfolding Exact is_refused
read_value-Exact cls task name no_scalar = inr (λ h. h, refl)
read_value-Exact cls task name (scalar text) =
    parsed-Exact cls task name text (cls.parse name text) refl

read_request-Exact :
    (cls : TaskClass) (task name : String) (v : Quantity)
    → Exact
        (IsRequest cls (name, v))
        (record { family = cls.family; name = name; value = written v } ∷ [])
        (read_request cls task name v)
unfolding Exact is_refused read_request
read_request-Exact cls task name v = elim (Bool-cases (elem name setup_resource_names)) [
  | inl known ↦ elim (read_value-Exact cls task name v) [
    | inl (good, e) ↦ inl ((known, good), rw known e)
    | inr (bad, e) ↦ inr (λ h. bad h.1, rw known e)
  ]
  | inr unknown ↦ inr (λ h. ground (arith, h.0), rw unknown refl)
]

read_requests-Exact :
    (cls : TaskClass) (task : String) (rs : List (String × Quantity))
    → Exact (All (IsRequest cls) rs) (said (some cls) (requests rs)) (read_requests cls task rs)
unfolding Exact is_refused read_requests
read_requests-Exact cls task [] = inl (tt, refl)
read_requests-Exact cls task ((name, v) ∷ rs) =
    followed_by-Exact _ _ _ _ _ _ (read_request-Exact cls task name v)
      (read_requests-Exact cls task rs)

read_task-Exact :
    (cls : Option TaskClass) (task : String) (requested : Requested)
    → Exact (AreRequests cls requested) (said cls requested) (read_task cls task requested)
unfolding Exact is_refused read_task
read_task-Exact none task requested = inr (λ h. h, refl)
read_task-Exact (some cls) task no_requests = inr (λ h. h, refl)
read_task-Exact (some cls) task (requests rs) = read_requests-Exact cls task rs

read_tasks-Exact :
    (tasks : Dict String TaskClass) (entries : List (String × Requested))
    → Exact (All (IsEntry tasks) entries) (all_said tasks entries) (read_tasks tasks entries)
unfolding Exact is_refused read_tasks
read_tasks-Exact tasks [] = inl (tt, refl)
read_tasks-Exact tasks ((task, requested) ∷ entries) =
    followed_by-Exact _ _ _ _ _ _ (read_task-Exact (get tasks task) task requested)
      (read_tasks-Exact tasks entries)

setup_resources-Exact :
    (tasks : Dict String TaskClass) (resources : RequestBlock)
    → Exact (IsAccepted tasks resources) (told tasks resources) (setup_resources tasks resources)
unfolding Exact is_refused setup_resources
setup_resources-Exact tasks no_block = inr (λ h. h, refl)
setup_resources-Exact tasks (block entries) = read_tasks-Exact tasks entries

-- What a load comes to: everything that the setup says is set, or nothing is.
pub AllOrNothing :
    Dict String TaskClass → RequestBlock → Process → Process × Option ResourceError → Type 0
AllOrNothing tasks resources p (p', error) =
    (IsAccepted tasks resources
      × ((p'.configured ≡ p.configured ++ told tasks resources) × (error ≡ none)))
    ⊎ ((¬ IsAccepted tasks resources) × ((p' ≡ p) × (is_some error ≡ true)))

settings_of : SetupSettings → List ResourceRequest
settings_of (settings rs) = rs
settings_of (refused e) = []

first_load-AllOrNothing :
    (tasks : Dict String TaskClass) (path : String) (resources : RequestBlock) (p : Process)
    (s : SetupSettings)
    → Exact (IsAccepted tasks resources) (told tasks resources) s
    → AllOrNothing tasks resources p (first_load path p s)
unfolding AllOrNothing configure Exact is_refused settings_of
first_load-AllOrNothing tasks path resources p (settings rs) (inl (good, e)) =
    inl (good, (ap (λ t. p.configured ++ settings_of t) e, refl))
first_load-AllOrNothing tasks path resources p (settings rs) (inr (bad, e)) = ground arith
first_load-AllOrNothing tasks path resources p (refused error) (inl (good, e)) = ground arith
first_load-AllOrNothing tasks path resources p (refused error) (inr (bad, e)) =
    inr (bad, (refl, refl))

load_first :
    (tasks : Dict String TaskClass) (path : String) (resources : RequestBlock) (p : Process)
    → get p.setup_cache path ≡ none
    → first_load path p (setup_resources tasks resources) ≡ load_setup tasks path resources p
unfolding load_setup
load_first tasks path resources p first = ap (load_from tasks path resources p) (sym first)

-- The first load of a setup sets everything that it says, if each request of it is for a task that
-- takes resources, names one of them, and gives a value that the task reads as more than nothing.
-- Else it raises and has set nothing.
pub load_setup-AllOrNothing :
    (tasks : Dict String TaskClass) (path : String) (resources : RequestBlock) (p : Process)
    → get p.setup_cache path ≡ none
    → AllOrNothing tasks resources p (load_setup tasks path resources p)
load_setup-AllOrNothing tasks path resources p first =
    subst (AllOrNothing tasks resources p) (load_first tasks path resources p first) (
      first_load-AllOrNothing tasks path resources p (setup_resources tasks resources)
        (setup_resources-Exact tasks resources))

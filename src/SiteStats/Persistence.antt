-- ===== src/SiteStats/Persistence.antt =====
-- dsprod/site_stats.py: `load` and `save`.
--
-- What `json.load` makes of the file is an argument, `none` if it cannot be read; the names in an
-- object are distinct. Python's `float` and `int` of a text are parameters.
use dsprod.Common.{
  ℕ, Bool, true, false, not, List, [], ◌∷◌, Option, none, some, String, nat_beq, if◌then◌else◌,
  string_eq, ◌==◌,
}
use dsprod.Common.Dict.{Dict}
use dsprod.SiteStats.Types.{is_site, Event, SiteRecord, SiteStats}

mutual
  pub data Json : Type 0 where
    null : Json
    bool : Bool → Json
    num : ℕ → Json
    str : String → Json
    arr : Items → Json
    obj : Fields → Json

  pub data Items : Type 0 where
    nil : Items
    cons : Json → Items → Items

  pub data Fields : Type 0 where
    end : Fields
    field : String → Json → Fields → Fields

pub record Numbers : Type 0 where
  pub float_of : String → Option ℕ
  pub int_of : String → Option ℕ

-- `float(x)` and `int(x)`; `none` is a `TypeError` or a `ValueError`.
abbrev pub to_number : (String → Option ℕ) → Json → Option ℕ
to_number parse (num n) = some n
to_number parse (bool true) = some 1
to_number parse (bool false) = some 0
to_number parse (str s) = parse s
to_number parse _ = none

-- `bool(x)`
abbrev pub is_truthy : Json → Bool
is_truthy null = false
is_truthy (bool b) = b
is_truthy (num n) = not (nat_beq n 0)
is_truthy (str s) = not (s == "")
is_truthy (arr nil) = false
is_truthy (arr (cons x xs)) = true
is_truthy (obj end) = false
is_truthy (obj (field k v fs)) = true

abbrev pub field_of : String → Fields → Option Json
field_of name end = none
field_of name (field k v fs) = let later = field_of name fs in if k == name then some v else later

-- `rec.get(name) or default`
abbrev pub given_or : Option Json → Json → Json
given_or none default = default
given_or (some v) default = if is_truthy v then v else default

abbrev pub items_of : Items → List Json
items_of nil = []
items_of (cons x xs) = x ∷ items_of xs

abbrev pub letters_of : String → List Json
letters_of String.[] = []
letters_of (String.◌∷◌ c s) = str (String.◌∷◌ c String.[]) ∷ letters_of s

abbrev pub names_of : Fields → List Json
names_of end = []
names_of (field k v fs) = str k ∷ names_of fs

-- `iter(x)`
abbrev pub elements_of : Json → Option (List Json)
elements_of (arr xs) = some (items_of xs)
elements_of (str s) = some (letters_of s)
elements_of (obj fs) = some (names_of fs)
elements_of _ = none

abbrev pub event_of : Option ℕ → Option ℕ → Option Event
event_of (some t) (some ok) = some (record { at = t; ok = not (nat_beq ok 0) })
event_of _ _ = none

abbrev pub pair_event : Numbers → Option (List Json) → Option Event
pair_event n (some (t ∷ ok ∷ [])) = event_of (to_number n.float_of t) (to_number n.int_of ok)
pair_event n _ = none

abbrev pub cons_event : Option Event → Option (List Event) → Option (List Event)
cons_event (some e) (some es) = some (e ∷ es)
cons_event _ _ = none

unfoldable pub read_events : Numbers → List Json → Option (List Event)
read_events n [] = some []
read_events n (x ∷ xs) = cons_event (pair_event n (elements_of x)) (read_events n xs)

abbrev pub elements_events : Numbers → Option (List Json) → Option (List Event)
elements_events n none = none
elements_events n (some xs) = read_events n xs

abbrev pub record_of : Option (List Event) → Option ℕ → Option ℕ → Option ℕ → Option SiteRecord
record_of (some es) (some until) (some times) (some cleared) =
    some
      (record { events = es; quarantined_until = until; quarantines = times; cleared_at = cleared })
record_of _ _ _ _ = none

-- One entry of `sites`.
unfoldable pub read_record : Numbers → Fields → Option SiteRecord
unfolding read_events
read_record n fs =
    record_of (elements_events n (elements_of (given_or (field_of "events" fs) (arr nil))))
      (to_number n.float_of (given_or (field_of "quarantined_until" fs) (num 0)))
      (to_number n.int_of (given_or (field_of "quarantines" fs) (num 0)))
      (to_number n.float_of (given_or (field_of "cleared_at" fs) (num 0)))

abbrev pub entry_record : Numbers → Json → Option SiteRecord
entry_record n (obj fs) = read_record n fs
entry_record n _ = none

abbrev pub keep_entry : String → Option SiteRecord → Dict String SiteRecord → Dict String SiteRecord
keep_entry name none rest = rest
keep_entry name (some r) rest = if is_site name then (name, r) ∷ rest else rest

unfoldable pub read_sites : Numbers → Fields → Dict String SiteRecord
unfolding read_record
read_sites n end = []
read_sites n (field name rec fs) = keep_entry name (entry_record n rec) (read_sites n fs)

abbrev pub loaded_sites : Numbers → Option Json → SiteStats → SiteStats
loaded_sites n (some (obj sites)) s = record s { sites = read_sites n sites }
loaded_sites n _ s = s

-- `load`
unfoldable pub load : Numbers → Option Json → SiteStats → SiteStats
unfolding read_sites
load n (some (obj file)) s = loaded_sites n (field_of "sites" file) s
load n _ s = s

-- What `json.dump` is given.
abbrev pub bit : Bool → ℕ
bit true = 1
bit false = 0

abbrev pub write_events : List Event → Items
write_events [] = nil
write_events (e ∷ es) = cons (arr (cons (num e.at) (cons (num (bit e.ok)) nil))) (write_events es)

abbrev pub write_record : SiteRecord → Json
write_record r = obj (
    field "events" (arr (write_events r.events)) (
      field "quarantined_until" (num r.quarantined_until)
        (field "quarantines" (num r.quarantines) (field "cleared_at" (num r.cleared_at) end))))

abbrev pub write_sites : Dict String SiteRecord → Fields
write_sites [] = end
write_sites ((name, r) ∷ sites) = field name (write_record r) (write_sites sites)

-- `save`: what is written, if anything is.
unfoldable pub save : SiteStats → SiteStats × Option Json
save s =
    if s.dirty
    then (
      record s { dirty = false },
      some (obj (field "version" (num 1) (field "sites" (obj (write_sites s.sites)) end))),
    )
    else (s, none)

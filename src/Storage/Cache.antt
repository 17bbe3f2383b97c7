-- ===== src/Storage/Cache.antt =====
-- dsprod/law_gfal.py: `PathCache`. The clock is an argument, read once in each operation.
use dsprod.Common.{
  ℕ, ◌+◌, Bool, true, false, ◌&&◌, ◌||◌, not, List, [], ◌∷◌, Option, none, some, leb, if◌then◌else◌,
}
use dsprod.Common.Dict.{Dict, get, put, pop, keys}
use dsprod.Storage.Paths.{Uri, uri_eq, iter_parents, join, starts_with}

pub record Entry : Type 0 where
  pub exists : Bool
  pub expiration_time : ℕ
  pub listed : Bool

-- `PathCacheEntry.__init__`
abbrev pub entry : Bool → ℕ → Bool → Entry
entry exists expiration listed = record {
  exists = exists;
  expiration_time = expiration;
  listed = listed && exists;
}

abbrev pub is_valid : ℕ → Entry → Bool
is_valid now e = leb now e.expiration_time

pub record PathCache : Type 0 where
  pub validity_period : ℕ
  pub cache : Dict Uri Entry

abbrev pub says_absent : Option Entry → Bool
says_absent none = false
says_absent (some e) = not e.exists

-- `for parent in …: if pentry.exists is False: pop`
unfoldable pub drop_absent : Dict Uri Entry → List Uri → Dict Uri Entry
drop_absent cache [] = cache
drop_absent cache (p ∷ parents) =
    drop_absent (if says_absent (get cache p) then pop cache p else cache) parents

-- Whether the entry that is there is a listing to keep.
abbrev pub was_there : ℕ → Option Entry → Bool
was_there now none = false
was_there now (some e) = is_valid now e && e.listed

unfoldable pub set : ℕ → Uri → Bool → Bool → PathCache → PathCache
unfolding drop_absent
set now path exists listed c =
    let listed' = listed || (was_there now (get c.cache path) && exists) in
    let cache' = put c.cache path (entry exists (now + c.validity_period) listed') in
    record c { cache = if exists then drop_absent cache' (iter_parents path) else cache' }

unfoldable pub set_local : ℕ → Uri → Bool → PathCache → PathCache
unfolding set
set_local now path exists c = set now path exists false c

unfoldable pub set_items : ℕ → Uri → List Uri → PathCache → PathCache
unfolding set
set_items now base [] c = c
set_items now base (item ∷ items) c =
    set_items now base items (set now (join base item) true false c)

unfoldable pub set_exists : ℕ → Uri → List Uri → PathCache → PathCache
unfolding set_items set
set_exists now base items c = set now base true true (set_items now base items c)

-- The inference from the nearest ancestor that is cached.
unfoldable pub infer : ℕ → Dict Uri Entry → List Uri → Dict Uri Entry × Option Bool
infer now cache [] = (cache, none)
infer now cache (p ∷ parents) =
    let next = infer now cache parents in
    let expired = infer now (pop cache p) parents in
    elim (get cache p) [
      | none ↦ next
      | some e ↦
          if not (is_valid now e)
          then expired
          else (if e.exists then (cache, none) else (cache, some false))
    ]

abbrev pub with_cache : PathCache → Dict Uri Entry × Option Bool → PathCache × Option Bool
with_cache c (cache, answer) = (record c { cache = cache }, answer)

-- `get`
unfoldable pub lookup : ℕ → Uri → PathCache → PathCache × Option Bool
unfolding infer
lookup now path c = elim (get c.cache path) [
  | none ↦ with_cache c (infer now c.cache (iter_parents path))
  | some e ↦
      if is_valid now e
      then (c, some e.exists)
      else with_cache c (infer now (pop c.cache path) (iter_parents path))
]

abbrev pub is_listing : ℕ → Option Entry → Bool
is_listing now none = false
is_listing now (some e) = is_valid now e && (e.exists && e.listed)

unfoldable pub was_listed : ℕ → Uri → PathCache → Bool
was_listed now path c = is_listing now (get c.cache path)

-- `get_many`, one look-up after the other.
unfoldable pub get_many : ℕ → List Uri → PathCache → PathCache × List (Uri × Option Bool)
unfolding lookup
get_many now [] c = (c, [])
get_many now (p ∷ paths) c =
    let (c', answer) = lookup now p c in
    let (c'', answers) = get_many now paths c' in (c'', (p, answer) ∷ answers)

unfoldable pub clear : PathCache → PathCache
clear c = record c { cache = [] }

-- `invalidate`: the paths of which `path` is a continuation, as texts.
abbrev pub forget_prefixes : Uri → List Uri → Dict Uri Entry → Dict Uri Entry
forget_prefixes path [] cache = cache
forget_prefixes path (p ∷ ps) cache =
    forget_prefixes path ps (if starts_with path p then pop cache p else cache)

unfoldable pub invalidate : Uri → PathCache → PathCache
invalidate path c = record c { cache = forget_prefixes path (keys c.cache) c.cache }

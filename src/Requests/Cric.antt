-- ===== src/Requests/Cric.antt =====
-- dsprod/crab.py: `_parse_cric_sites`, `_checked` and `processing_sites`.
--
-- The file of the cache, with its age, and what CRIC answers are arguments; every value in a row of
-- CRIC's table is a text.
use dsprod.Common.{
  ℕ, ◌≡◌, ◌≤◌, ◌⊎◌, refl, Bool, true, false, ◌&&◌, not, List, [], ◌∷◌, Option, none, some, String,
  arith, if◌then◌else◌, ltb, length, sort, text_leb, add, string_eq, ◌==◌, or_else, inl, inr,
  Bool-cases, is_some, ◌∙◌,
}
use dsprod.Common.Dict.{Dict, get, put}

abbrev pub cric_min_sites : ℕ
cric_min_sites = 50

abbrev pub cric_cache_seconds : ℕ
cric_cache_seconds = 86400

pub record Payload : Type 0 where
  pub columns : List String
  pub rows : List (List String)

-- `dict(zip(columns, row))`
abbrev pub zip_into : Dict String String → List String → List String → Dict String String
zip_into d [] row = d
zip_into d (c ∷ columns) [] = d
zip_into d (c ∷ columns) (v ∷ row) = zip_into (put d c v) columns row

-- The alias of a processing site.
abbrev pub alias_of : Dict String String → Option String
alias_of e =
    if or_else (get e "type") "" == "psn" && not (or_else (get e "alias") "" == "")
    then get e "alias"
    else none

abbrev pub add_some : Option String → List String → List String
add_some none names = names
add_some (some name) names = add name names

abbrev pub aliases : List String → List (List String) → List String
aliases columns [] = []
aliases columns (row ∷ rows) = add_some (alias_of (zip_into [] columns row)) (aliases columns rows)

unfoldable pub parse_cric_sites : Payload → List String
parse_cric_sites p = sort text_leb (aliases p.columns p.rows)

pub data CricError : Type 0 where
  too_few : ℕ → CricError
  unreadable_cache : CricError
  unreachable_cric : CricError

pub data Sites : Type 0 where
  known : List String → Sites
  refused : CricError → Sites

-- `_checked`
unfoldable pub check_sites : List String → Sites
check_sites names =
    if ltb (length names) cric_min_sites then refused (too_few (length names)) else known names

-- The file of the cache; its names are `none` if they cannot be read.
pub record CacheFile : Type 0 where
  pub age : ℕ
  pub names : Option (List String)

abbrev pub read_cache : Option CacheFile → Sites
read_cache none = refused unreadable_cache
read_cache (some f) = elim f.names [
  | none ↦ refused unreadable_cache
  | some names ↦ check_sites names
]

abbrev pub is_fresh : Option CacheFile → Bool
is_fresh none = false
is_fresh (some f) = ltb f.age cric_cache_seconds

-- What CRIC's answer comes to.
abbrev pub fetched : Option Payload → Sites
fetched none = refused unreachable_cric
fetched (some p) = check_sites (parse_cric_sites p)

-- What `processing_sites` returns, and the file that it leaves.
pub record Lookup : Type 0 where
  pub sites : Sites
  pub file : Option CacheFile

abbrev pub from_cric : Option CacheFile → Bool → Sites → Lookup
from_cric file writes (known names) = record {
  sites = known names;
  file = if writes then some (record { age = 0; names = some names }) else file;
}
from_cric file writes (refused e) = record {
  sites = if is_some file then read_cache file else refused unreachable_cric;
  file = file;
}

abbrev pub or_fetch : Option CacheFile → Sites → Lookup → Lookup
or_fetch file (known names) next = record { sites = known names; file = file }
or_fetch file (refused e) next = next

-- `processing_sites`, with a path for its cache; `writes` is whether the file can be written.
unfoldable pub processing_sites : Option CacheFile → Bool → Option Payload → Lookup
processing_sites file writes answer =
    let next = from_cric file writes (fetched answer) in
    if is_fresh file then or_fetch file (read_cache file) next else next

-- Where a list of sites comes from.
abbrev pub IsFrom : Option CacheFile → Option Payload → List String → Type 0
IsFrom file answer names =
    ((is_fresh file ≡ true) × (read_cache file ≡ known names))
    ⊎ ((fetched answer ≡ known names)
        ⊎ ((e : CricError) × (fetched answer ≡ refused e) × (read_cache file ≡ known names)))

check_sites-known :
    (ns names : List String)
    → check_sites ns ≡ known names
    → (cric_min_sites ≤ length names) × (ns ≡ names)
unfolding check_sites
check_sites-known ns names h = ground arith

Sites-cases :
    (s : Sites) → ((names : List String) × (s ≡ known names)) ⊎ ((e : CricError) × (s ≡ refused e))
Sites-cases (known names) = inl (names, refl)
Sites-cases (refused e) = inr (e, refl)

names_known :
    (stored : Option (List String)) (names : List String)
    → (elim stored [ none ↦ refused unreadable_cache | some ns ↦ check_sites ns ]) ≡ known names
    → cric_min_sites ≤ length names
names_known none names h = cc
names_known (some ns) names h = let (enough, same) = check_sites-known ns names h in enough

read_cache-known :
    (file : Option CacheFile) (names : List String)
    → read_cache file ≡ known names
    → cric_min_sites ≤ length names
read_cache-known none names h = cc
read_cache-known (some f) names h = names_known f.names names h

fetched-known :
    (answer : Option Payload) (names : List String)
    → fetched answer ≡ known names
    → cric_min_sites ≤ length names
fetched-known none names h = cc
fetched-known (some p) names h = (check_sites-known _ names h).0

known_path : {a b : List String} → known a ≡ known b → a ≡ b
known_path h = cc

refused_known : {e : CricError} {a : List String} → refused e ≡ known a → ⊥
refused_known h = cc

from_cric-IsFrom :
    (file : Option CacheFile) (writes : Bool) (answer : Option Payload) (names : List String)
    → (from_cric file writes (fetched answer)).sites ≡ known names
    → (cric_min_sites ≤ length names) × IsFrom file answer names
from_cric-IsFrom file writes answer names h = elim (Sites-cases (fetched answer)) [
  | inl (ns, got) ↦
      let exact = got ∙ (rw got at h) in (fetched-known answer names exact, inr (inl exact))
  | inr (e, lost) ↦ elim (Bool-cases (is_some file)) [
    | inl there ↦
        let kept : read_cache file ≡ known names = rw (lost, there) at h in
        (read_cache-known file names kept, inr (inr (e, lost, kept)))
    | inr missing ↦ absurd (refused_known (rw (lost, missing) at h))
  ]
]

-- A list of sites that is returned has at least 50 names, wherever it comes from: it is that of a
-- cache of less than a day, or what CRIC answers, or that of an older cache, and this last only if
-- CRIC's answer could not be used.
pub processing_sites-IsFrom :
    (file : Option CacheFile) (writes : Bool) (answer : Option Payload) (names : List String)
    → (processing_sites file writes answer).sites ≡ known names
    → (cric_min_sites ≤ length names) × IsFrom file answer names
unfolding processing_sites
processing_sites-IsFrom file writes answer names h = elim (Bool-cases (is_fresh file)) [
  | inr stale ↦ from_cric-IsFrom file writes answer names (rw (processing_sites, stale) at h)
  | inl fresh ↦ elim (Sites-cases (read_cache file)) [
    | inl (ns, kept) ↦
        let exact = kept ∙ (rw (processing_sites, fresh, kept) at h) in
        (read_cache-known file names exact, inl (fresh, exact))
    | inr (e, unusable) ↦
        from_cric-IsFrom file writes answer names (rw (processing_sites, fresh, unusable) at h)
  ]
]

-- ===== src/Storage/Interface.antt =====
-- dsprod/law_gfal.py: `GFALFileInterface`.
--
-- `uri` is law's, from a path to the address on the storage; what gfal answers is an argument of
-- each operation: `ls` is what `gfal_ls_checked` comes to.
use dsprod.Common.{
  ℕ, zero, suc, Bool, true, false, ◌&&◌, ◌||◌, List, [], ◌∷◌, map, Option, none, some,
  if◌then◌else◌, elem, is_some, ◌==◌,
}
use dsprod.Storage.Paths.{Uri, uri_eq, dirname, basename}
use dsprod.Storage.Listing.{LsAnswer, found, absent, unreachable}
use dsprod.Storage.Cache.{
  PathCache, set, set_local, set_exists, lookup, was_listed, get_many, clear,
}

-- The cache that an operation leaves, with its result; `none` is a `GfalError` that is raised.
abbrev pub IoResult {ℓ} : Type ℓ → Type ℓ
IoResult A = PathCache × Option A

-- `_mark_absent_ancestors`, climbing at most `left` more directories.
unfoldable pub mark_absent : ℕ → (Uri → LsAnswer) → ℕ → Uri → PathCache → PathCache
mark_absent now ls zero current c = c
mark_absent now ls (suc left) current c =
    let parent = dirname current in
    let (c', cached) = lookup now parent c in
    let climb = mark_absent now ls left parent (set now parent false false c') in
    if (parent == []) || (parent == current)
    then c
    else (if is_some cached then c' else elim (ls parent) [
      | found names ↦ set_exists now parent names c'
      | absent ↦ climb
      | unreachable ↦ c'
    ])

abbrev pub max_climb : ℕ
max_climb = 32

-- `listdir`, on the address of the directory.
unfoldable pub listdir : ℕ → (Uri → LsAnswer) → Bool → Uri → PathCache → IoResult (List Uri)
unfolding mark_absent
listdir now ls silent path_uri c = elim (ls path_uri) [
  | found names ↦ (set_exists now path_uri names c, some names)
  | absent ↦
      if silent
      then (mark_absent now ls max_climb path_uri (set now path_uri false false c), some [])
      else (c, none)
  | unreachable ↦ (c, none)
]

-- What `exists` makes of the listing of the directory.
abbrev pub note_missing : ℕ → Uri → Uri → IoResult (List Uri) → IoResult Bool
note_missing now path_uri name (c, none) = (c, none)
note_missing now path_uri name (c, some entries) =
    let there = elem name entries in
    (if there then c else set now path_uri false false c, some there)

unfoldable pub exists : ℕ → (Uri → Uri) → (Uri → LsAnswer) → Uri → PathCache → IoResult Bool
unfolding listdir
exists now uri ls path c =
    let path_uri = uri path in
    let dir_uri = uri (dirname path) in
    let (c', cached) = lookup now path_uri c in
    elim cached [
      | some answer ↦ (c', some answer)
      | none ↦
          if was_listed now dir_uri c'
          then (set_local now path_uri false c', some false)
          else note_missing now path_uri (basename path) (listdir now ls true dir_uri c')
    ]

-- Whether the path is there after an operation, beside its result.
pub record Removal : Type 0 where
  pub present : Bool
  pub result : IoResult Bool

-- `gfal_exists`: whether `gfal-stat` succeeds, for which the path has to be there and to be read.
unfoldable pub gfal_exists : Bool → Bool → Bool
gfal_exists present stat_works = present && stat_works

-- `remove` of a path that is there or not; `stat_works` and `rm_works` are whether gfal can be
-- asked for it and can delete it.
unfoldable pub remove : ℕ → Bool → Bool → Bool → Bool → Uri → PathCache → Removal
unfolding gfal_exists
remove now present stat_works rm_works silent path_uri c =
    if gfal_exists present stat_works
    then (if rm_works
        then record { present = false; result = (set now path_uri false false c, some true) }
        else record { present = present; result = (c, if silent then some false else none) })
    else record { present = present; result = (set now path_uri false false c, some true) }

-- A copy to one address of the storage; `copied` is whether `gfal_copy_safe` succeeded.
abbrev pub mark_directory : ℕ → Uri → PathCache × Option Bool → PathCache
mark_directory now dir (c, some false) = set now dir true false c
mark_directory now dir (c, _) = c

unfoldable pub upload : ℕ → Bool → Uri → PathCache → PathCache × Bool
upload now copied dst c =
    let started = set now dst false false c in
    let finished = set now dst true false started in
    if copied
    then (mark_directory now (dirname dst) (lookup now (dirname dst) finished), true)
    else (started, false)

-- The loop of `filecopy` over the addresses of the target; an error ends it.
unfoldable pub upload_all : ℕ → (Uri → Bool) → List Uri → PathCache → PathCache × Bool
unfolding upload
upload_all now copied [] c = (c, true)
upload_all now copied (dst ∷ dsts) c =
    let rest = upload_all now copied dsts (upload now (copied dst) dst c).0 in
    if (upload now (copied dst) dst c).1 then rest else (upload now (copied dst) dst c)

-- `prefetch`
unfoldable pub prefetch :
    ℕ → (Uri → Uri) → List Uri → PathCache → PathCache × List (Uri × Option Bool)
unfolding get_many
prefetch now uri paths c = get_many now (map uri paths) c

-- `expire_path_caches`: the caches of the interfaces of this process, and how many they are.
unfoldable pub expire_path_caches : List PathCache → List PathCache
expire_path_caches caches = map clear caches

-- ===== src/Tests/Storage.antt =====
-- dsprod/law_gfal.py, dsprod/grid_tools.py and dsprod/tools.py at concrete inputs: a small tree on one endpoint.
use dsprod.Common.{
  ℕ, ◌+◌, ◌≡◌, refl, sym, ap, ◌∙◌, Bool, true, false, [], ◌∷◌, ◌++◌, none, some, arith, codes,
  if◌then◌else◌, ◌==◌, elem, nat_eq, All, List, subst, eq_of_==, Bool-cases, inl, inr, ◌||◌,
  nat_beq,
}
use dsprod.Storage.Paths.{
  Uri, uri_eq, uri_beq_iff, join, ends_in_slash, dirname, basename, iter_parents, parents_from,
  strip_slashes,
}
use dsprod.Storage.Listing.{
  LsAnswer, found, absent, unreachable, LsAttempt, error, is_absent_error, gfal_ls_checked,
  gfal_ls_checked-decides,
}
use dsprod.Storage.Cache.{
  PathCache, Entry, set, set_local, set_exists, set_items, lookup, infer, drop_absent, was_listed,
}
use dsprod.Storage.Interface.{exists, listdir, mark_absent, remove, gfal_exists}
use dsprod.Storage.Soundness.{World, IsTree, IsTruthful, IsName, IsDirectory}
use dsprod.Storage.Existence.{exists-agrees}
use dsprod.Storage.Preservation.{IsSound}
use dsprod.Storage.Listed.{set_exists-IsSound}
use dsprod.Storage.Copy.{
  Remote, Gfal, copy_rename, copy_flag, download, download_flagged, gfal_copy_safe, IsIntact,
  IsPublished,
}
use dsprod.Storage.Intact.{Holds, gfal_copy_safe-Holds}
use dsprod.Storage.Retries.{repeat_until_success, rounds_from}

unlisted : {names : List Uri} → unreachable ≡ found names → ⊥
unlisted h = cc

not_absent : {names : List Uri} → found names ≡ absent → ⊥
not_absent h = cc

silent_absent : unreachable ≡ absent → ⊥
silent_absent h = cc

some_entry : {a b : Entry} → some a ≡ some b → a ≡ b
some_entry h = cc

no_entry : {e : Entry} → none ≡ some e → ⊥
no_entry h = cc

-- davs://h/p/a holds x; p holds a; b is not there.
abbrev tree : Uri → LsAnswer
tree d =
    if d == codes "davs://h/p/a"
    then found (codes "x" ∷ [])
    else (if d == codes "davs://h/p" then found (codes "a" ∷ []) else absent)

abbrev at_endpoint : Uri → Uri
at_endpoint path = codes "davs://h/" ++ path

abbrev fresh : PathCache
fresh = record { validity_period = 600; cache = [] }

parents :
    iter_parents (codes "davs://h/p/a") ≡ codes "davs://h/p" ∷ codes "davs://h" ∷ codes "davs:" ∷ []
unfolding iter_parents parents_from dirname strip_slashes
parents = refl

-- The states after three questions: at 0 for a file that is there, at 500 for one in a directory
-- that is not, and at 700 for the first again.
abbrev seen : PathCache
seen = (exists 0 at_endpoint tree (codes "p/a/x") fresh).0

abbrev missed : PathCache
missed = (exists 500 at_endpoint tree (codes "p/b/y") seen).0

first_answer : (exists 0 at_endpoint tree (codes "p/a/x") fresh).1 ≡ some true
unfolding exists listdir lookup infer was_listed set_exists set_items set drop_absent iter_parents
    parents_from dirname strip_slashes basename join
first_answer = refl

-- The listing of `p` at 500 keeps the listing of `p/a` for longer, and not what is known of its file.
forgotten : (exists 700 at_endpoint tree (codes "p/a/x") missed).1 ≡ some false
unfolding exists listdir mark_absent lookup infer was_listed set_exists set_items set set_local
    drop_absent iter_parents parents_from dirname strip_slashes basename join
forgotten = refl

-- A removal that cannot ask gfal says that it is done.
blind_removal : (remove 0 true false true false (codes "davs://h/p/a/x") fresh).present ≡ true
unfolding remove gfal_exists
blind_removal = refl

blind_answer : (remove 0 true false true false (codes "davs://h/p/a/x") fresh).result.1 ≡ some true
unfolding remove gfal_exists
blind_answer = refl

abbrev timeout : LsAttempt
timeout = error (codes "SSL handshake timed out")

abbrev no_file : LsAttempt
no_file = error (codes "No such file or directory")

gfal_ls_checked-decides_example : gfal_ls_checked 3 (timeout ∷ no_file ∷ []) ≡ absent
unfolding is_absent_error
gfal_ls_checked-decides_example =
    gfal_ls_checked-decides 3 (timeout ∷ []) no_file [] (refl, tt) refl

-- A directory with one file in it.
abbrev folder : World
folder p = p == codes "a" || p == codes "a/x"

in_folder :
    (n : Uri) → IsName n → folder (join (codes "a") n) ≡ true → elem n (codes "x" ∷ []) ≡ true
unfolding join
in_folder [] name h = ground arith
in_folder (c ∷ n) name h = ground (arith, uri_beq_iff n [])

fresh-IsSound : IsSound 5 folder fresh
fresh-IsSound = record {
  agrees = λ p e h v. cc;
  complete = λ d n e h v name there. cc;
  bounded = λ p e h. cc;
}

listed-IsSound : IsSound 5 folder (set_exists 5 (codes "a") (codes "x" ∷ []) fresh)
unfolding join
listed-IsSound =
    set_exists-IsSound 5 folder (codes "a") (codes "x" ∷ []) fresh refl ((refl, refl), tt) in_folder
      fresh-IsSound

set_exists-IsSound_example : IsSound 5 folder (set_exists 5 (codes "a") (codes "x" ∷ []) fresh)
unfolding join
set_exists-IsSound_example =
    set_exists-IsSound 5 folder (codes "a") (codes "x" ∷ []) fresh refl ((refl, refl), tt) in_folder
      fresh-IsSound

joined : (d n : Uri) → IsDirectory d → IsName n → join d n ≡ d ++ (b'/' ∷ n)
unfolding join
joined d [] dir name = cc
joined d (c ∷ n) dir name = ground (arith, dir)

folder_above :
    (d n : Uri) → ends_in_slash d ≡ false → folder (d ++ (b'/' ∷ n)) ≡ true → folder d ≡ true
folder_above [] n dir h = cc
folder_above (a ∷ []) n dir h = ground arith
folder_above (a ∷ b ∷ []) n dir h = ground arith
folder_above (a ∷ b ∷ c ∷ []) n dir h = ground arith
folder_above (a ∷ b ∷ c ∷ d ∷ p) n dir h = ground arith

parents_in_folder : (p : Uri) → folder p ≡ true → All (λ q. folder q ≡ true) (iter_parents p)
unfolding iter_parents parents_from dirname strip_slashes
parents_in_folder p h = elim (Bool-cases (p == codes "a")) [
  | inl top ↦ rw (eq_of_== p (codes "a") top) tt
  | inr below ↦ rw (eq_of_== p (codes "a/x") (rw below at h)) (refl, tt)
]

folder_tree : IsTree folder
folder_tree = record {
  ancestors = parents_in_folder;
  inside =
      λ d n dir name h. folder_above d n dir (subst (λ p. folder p ≡ true) (joined d n dir name) h);
}

-- gfal lists the directory, and answers nothing else.
abbrev lists_folder : Uri → LsAnswer
lists_folder d = if d == codes "a" then found (codes "x" ∷ []) else unreachable

only_x : (n : Uri) → IsName n → elem n (codes "x" ∷ []) ≡ folder (codes "a" ++ (b'/' ∷ n))
only_x [] name = cc
only_x (c ∷ []) name = ground arith
only_x (c ∷ d ∷ n) name = ground arith

listed_names : {a b : List Uri} → found a ≡ found b → a ≡ b
listed_names h = cc

lists_folder_true : IsTruthful folder lists_folder
lists_folder_true = record {
  listing = λ d names h dir n name. elim (Bool-cases (d == codes "a")) [
    | inl here ↦
        let names_are : codes "x" ∷ [] ≡ names = listed_names (rw here at h) in
        rw (← names_are, eq_of_== d (codes "a") here)
          (only_x n name ∙ ap folder (sym (joined (codes "a") n refl name)))
    | inr other ↦ absurd (unlisted (rw other at h))
  ];
  missing = λ d h. elim (Bool-cases (d == codes "a")) [
    | inl here ↦ absurd (not_absent (rw here at h))
    | inr other ↦ absurd (silent_absent (rw other at h))
  ];
}

-- Without a cache, the listing answers.
asked : (exists 5 (λ p. p) lists_folder (codes "a/x") fresh).1 ≡ some true
unfolding exists listdir lookup infer was_listed set_exists set_items set drop_absent iter_parents
    parents_from dirname strip_slashes basename join
asked = refl

-- With the listing kept, a name that is not in it is not there.
exists-agrees_example : ◌≡◌ {A = Bool} false (folder (codes "a/y"))
unfolding exists lookup infer was_listed set_exists set_items set drop_absent iter_parents
    parents_from dirname strip_slashes basename join
exists-agrees_example =
    exists-agrees 5 folder folder_tree lists_folder lists_folder_true
      (set_exists 5 (codes "a") (codes "x" ∷ []) fresh) listed-IsSound.agrees
      listed-IsSound.complete (λ p. p) (codes "a/y") false refl refl refl refl

-- Two attempts: the first copy is broken, the second is whole; contents are numbers.
abbrev broken : Gfal ℕ
broken = record {
  target_seen = true;
  rm_target_works = true;
  stat_works = true;
  rm_works = true;
  flagged = none;
  flag_works = true;
  copied = some 3;
  copy_works = true;
  sum_works = true;
  renames = true;
  rename_works = true;
  target_stat_works = true;
  unflag_works = true;
}

abbrev whole : Gfal ℕ
whole = record broken { copied = some 7 }

abbrev published_before : Remote ℕ
published_before = record { target = some 4; temporary = none }

second_try :
    (gfal_copy_safe copy_rename (λ c. c) (some 7) (broken ∷ whole ∷ []) published_before).last
    ≡ record { target = some 7; temporary = none }
unfolding gfal_copy_safe download
second_try = refl

-- With the default mode, the good target is lost to a copy that fails.
flagged_loss :
    (gfal_copy_safe copy_flag
      (λ c. c)
      (some 7)
      (record broken { copied = none; copy_works = false } ∷ [])
      published_before).last.target
    ≡ none
unfolding gfal_copy_safe download_flagged
flagged_loss = refl

gfal_copy_safe-Holds_example :
    Holds
      (IsIntact (λ c. c) 7 (some 4))
      (IsPublished (λ c. c) 7)
      (gfal_copy_safe copy_rename (λ c. c) (some 7) (broken ∷ whole ∷ []) published_before)
gfal_copy_safe-Holds_example =
    gfal_copy_safe-Holds (λ c. c) 7 (some 4) (broken ∷ whole ∷ []) published_before (inl refl)

waited :
    (repeat_until_success (λ n o. nat_beq (n + o) 9) (1 ∷ 2 ∷ []) 4 10).waits ≡ 10 ∷ 100 ∷ 1000 ∷ []
unfolding repeat_until_success rounds_from
waited = refl

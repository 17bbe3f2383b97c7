-- ===== src/Requests/Sites.antt =====
-- dsprod/crab.py: `resolve_whitelist`, which keeps excluded sites out of a whitelist of globs.
use dsprod.Common.{
  ◌≡◌, Bool, true, false, ◌&&◌, not, List, [], ◌∷◌, ◌++◌, String, arith, nat_beq, length,
  if◌then◌else◌, filter, any, elem, All, All-append, string_eq, fnmatch, Bool-cases, inl, inr,
  elem_self, All-of, sym, ◌∙◌, ap,
}

pub data Whitelist : Type 0 where
  sites : List String → Whitelist
  excludes_all : Whitelist

abbrev covers_excluded : List String → String → Bool
covers_excluded blacklist entry = any (λ b. fnmatch b entry) blacklist

abbrev matching : List String → String → List String → List String
matching blacklist entry all = filter (λ site. fnmatch site entry && not (elem site blacklist)) all

-- The loop over the entries.
unfoldable pub expand : List String → List String → List String → List String
expand [] blacklist all = []
expand (entry ∷ whitelist) blacklist all =
    let rest = expand whitelist blacklist all in
    if covers_excluded blacklist entry then matching blacklist entry all ++ rest else entry ∷ rest

unfoldable pub resolve_whitelist : List String → List String → List String → Whitelist
resolve_whitelist whitelist blacklist all =
    let out = expand whitelist blacklist all in
    if nat_beq (length blacklist) 0
    then sites whitelist
    else if nat_beq (length out) 0
    then excludes_all
    else sites out

-- The entry covers no site of the blacklist.
abbrev pub Spares : List String → String → Type 0
Spares blacklist entry = All (λ b. fnmatch b entry ≡ false) blacklist

-- The name stands for itself alone, among the names of the blacklist.
abbrev pub IsPlain : List String → String → Type 0
IsPlain blacklist site = All (λ b. fnmatch b site ≡ true → b ≡ site) blacklist

not_any : (q : String → Bool) (bs : List String) → any q bs ≡ false → All (λ b. q b ≡ false) bs
not_any q [] h = tt
not_any q (b ∷ bs) h = (ground arith, not_any q bs (ground arith))

excluded_differ :
    (bs cs : List String) (site : String)
    → elem site bs ≡ false
    → All (λ b. elem b bs ≡ true) cs
    → IsPlain cs site
    → Spares cs site
excluded_differ bs [] site absent known plain = tt
excluded_differ bs (c ∷ cs) site absent known plain = (
  elim (Bool-cases (fnmatch c site)) [
    | inl m ↦
        let contradiction : true ≡ false = sym known.0 ∙ ap (λ x. elem x bs) (plain.0 m) ∙ absent in
        cc
    | inr m ↦ m
  ],
  excluded_differ bs cs site absent known.1 plain.1,
)

matching-Spares :
    (blacklist : List String) (entry : String) (all : List String)
    → All (IsPlain blacklist) all
    → All (Spares blacklist) (matching blacklist entry all)
matching-Spares blacklist entry [] plain = tt
matching-Spares blacklist entry (site ∷ all) plain =
    let rest = matching-Spares blacklist entry all plain.1 in
    elim (Bool-cases (fnmatch site entry && not (elem site blacklist))) [
      | inl kept ↦ rw kept (
        excluded_differ blacklist blacklist site (ground arith) (elem_self blacklist) plain.0,
        rest,
      )
      | inr dropped ↦ rw dropped rest
    ]

expand-Spares :
    (whitelist blacklist all : List String)
    → All (IsPlain blacklist) all
    → All (Spares blacklist) (expand whitelist blacklist all)
unfolding expand
expand-Spares [] blacklist all plain = tt
expand-Spares (entry ∷ whitelist) blacklist all plain =
    let rest = expand-Spares whitelist blacklist all plain in
    elim (Bool-cases (covers_excluded blacklist entry)) [
      | inl covers ↦ rw covers (
          All-append (Spares blacklist) (matching blacklist entry all)
            (expand whitelist blacklist all) (matching-Spares blacklist entry all plain) rest)
      | inr spares ↦ rw spares (not_any (λ b. fnmatch b entry) blacklist spares, rest)
    ]

none_excluded :
    (blacklist whitelist : List String)
    → nat_beq (length blacklist) 0 ≡ true
    → All (Spares blacklist) whitelist
none_excluded [] whitelist h = All-of (Spares []) (λ w. tt) whitelist
none_excluded (b ∷ bs) whitelist h = ground arith

-- What holds of a whitelist, where there is one.
abbrev pub Lists : (List String → Type 0) → Whitelist → Type 0
Lists P (sites out) = P out
Lists P excludes_all = Unit

-- CRAB lets a whitelist overrule a blacklist; no entry of the whitelist that is sent covers a site
-- of the blacklist, if the name of a known site, read as a pattern, matches no other name of the
-- blacklist.
pub resolve_whitelist-Spares :
    (whitelist blacklist all : List String)
    → All (IsPlain blacklist) all
    → Lists (All (Spares blacklist)) (resolve_whitelist whitelist blacklist all)
unfolding resolve_whitelist
resolve_whitelist-Spares whitelist blacklist all plain =
    elim (Bool-cases (nat_beq (length blacklist) 0)) [
      | inl free ↦ rw free (none_excluded blacklist whitelist free)
      | inr some_excluded ↦
          rw some_excluded
            (elim (Bool-cases (nat_beq (length (expand whitelist blacklist all)) 0)) [
              | inl nothing ↦ rw nothing tt
              | inr something ↦ rw something (expand-Spares whitelist blacklist all plain)
            ])
    ]

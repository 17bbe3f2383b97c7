-- ===== src/Watchdog/Listing.antt =====
-- dsprod/watchdog.py: `StallWatchdog` reads the listing and the jobs' branches.
use dsprod.Common.{
  ℕ, ◌+◌, ◌-◌, Bool, true, false, List, [], ◌∷◌, ◌++◌, Option, none, some, String, leb, nat_beq,
  or_else, if◌then◌else◌, maximum, elem, add, nat_eq, string_eq, str,
}
use dsprod.Common.Dict.{Dict, get, put}
use dsprod.Jobs.{JobId, Key, key, key_eq, job_id_eq}
use dsprod.Watchdog.Types.{
  FileInfo, Note, note_eq, Message, cannot_list, readable_again, Known, JobEntry, StallWatchdog,
}

unfoldable pub publish : StallWatchdog → Message → StallWatchdog
publish w m = record w { published = w.published ++ m ∷ [] }

-- `_note`
unfoldable pub note : StallWatchdog → Note → Message → StallWatchdog
note w k m =
    if elem k w.reported
    then w
    else record w { reported = add k w.reported; published = w.published ++ m ∷ [] }

add_age : Dict String ℕ → FileInfo → Option ℕ → Dict String ℕ
add_age ages e none = ages
add_age ages e (some date) = if e.is_dir then ages else put ages e.name date

-- `{e.name: e.date for e in entries if …}`
ages_from : Dict String ℕ → List FileInfo → Dict String ℕ
unfolding add_age
ages_from ages [] = ages
ages_from ages (e ∷ es) = ages_from (add_age ages e e.date) es

refresh_failed : StallWatchdog → StallWatchdog
refresh_failed w =
    let failures = w.listing_failures + 1 in
    let told = if nat_beq failures 1 then w.published ++ cannot_list ∷ [] else w.published in
    record w {
      issued_this_interval = 0;
      listing_failures = failures;
      published = told;
      ages = none;
      listed = false;
      listed_at = none;
    }

refresh_read : StallWatchdog → ℕ → List FileInfo → StallWatchdog
unfolding ages_from
refresh_read w listed_at entries =
    let told =
      if nat_beq w.listing_failures 0
      then w.published
      else w.published ++ readable_again w.listing_failures ∷ [] in
    record w {
      issued_this_interval = 0;
      listing_failures = 0;
      published = told;
      ages = some (ages_from [] entries);
      listed = true;
      listed_at = some listed_at;
    }

-- `refresh`, over what `gfal_ls_safe` returned: `none` if the directory could not be listed. The
-- time of the listing is `now`, or the clock's.
unfoldable pub refresh :
    StallWatchdog → Option ℕ → ℕ → Option (List FileInfo) → StallWatchdog × Bool
unfolding refresh_failed refresh_read
refresh w now clock entries =
    let listed_at = or_else now clock in
    let after : StallWatchdog × Bool = elim entries [
      | none ↦ (refresh_failed w, false)
      | some es ↦ (refresh_read w listed_at es, true)
    ] in
    if w.cfg.enabled then after else (w, false)

abbrev pub keep_stamp : Option ℕ → ℕ → List ℕ → List ℕ
keep_stamp none since rest = rest
keep_stamp (some s) since rest = if leb since s then s ∷ rest else rest

-- The modification times of the branches' flags that are not older than `since`.
unfoldable pub stamps : Dict String ℕ → List ℕ → ℕ → List ℕ
stamps ages [] since = []
stamps ages (b ∷ bs) since = keep_stamp (get ages (str b)) since (stamps ages bs since)

-- The age of the freshest of them. `-` stops at 0, as the source's `max(0.0, …)` does.
unfoldable pub age_of : List ℕ → ℕ → Option ℕ
age_of [] now = none
age_of (s ∷ ss) now = some (now - maximum (s ∷ ss))

-- `_age`
unfoldable pub age : Dict String ℕ → List ℕ → ℕ → ℕ → Option ℕ
unfolding stamps age_of
age ages branches now since = age_of (stamps ages branches since) now

by_id_from : Dict Key Known → List (ℕ × JobEntry) → Dict Key Known
by_id_from known [] = known
by_id_from known ((job_num, entry) ∷ jobs) =
    let skip = by_id_from known jobs in
    let take_in : JobId → ℕ → List ℕ → Dict Key Known = λ id b bs.
      by_id_from (put known (key id) (record { job_num = job_num; branches = b ∷ bs })) jobs in
    elim entry.job_id [
      | none ↦ skip
      | some id ↦ elim entry.branches [ [] ↦ skip | b ∷ bs ↦ take_in id b bs ]
    ]

-- `set_jobs`
unfoldable pub set_jobs : StallWatchdog → List (ℕ × JobEntry) → StallWatchdog
unfolding by_id_from
set_jobs w jobs = record w { by_id = by_id_from [] jobs }

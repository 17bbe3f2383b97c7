-- ===== src/Tests/Sites.antt =====
-- dsprod/site_stats.py at concrete inputs: a production with one site that fails and one that does not.
use dsprod.Common.{
  ℕ, zero, suc, ◌≡◌, ◌<◌, refl, true, false, List, [], ◌∷◌, some, String, arith, All, string_eq,
  ◌++◌,
}
use dsprod.Common.Dict.{Dict, get}
use dsprod.SiteStats.Types.{defaults, Event, SiteRecord, SiteStats, is_site}
use dsprod.SiteStats.Judgement.{counts, ended_since}
use dsprod.SiteStats.Operations.{
  is_convicted, expire_record, judge, blacklist, quarantine, quarantine_from, expire, prune,
}
use dsprod.SiteStats.Fairness.{is_convicted_common}
use dsprod.SiteStats.Escalation.{second_chance}
use dsprod.SiteStats.Bans.{judge-keeps_ban}
use dsprod.SiteStats.Validity.{IsValid}
use dsprod.SiteStats.Blacklist.{IsBanned, blacklist-IsBanned}

abbrev times : ℕ → Event → List Event
times zero e = []
times (suc n) e = e ∷ times n e

-- `n_ok` jobs that finished and `n_fail` that failed, all at one time.
abbrev outcomes : ℕ → ℕ → ℕ → SiteRecord
outcomes n_ok n_fail at = record {
  events =
      times n_ok (record { at = at; ok = true }) ++ times n_fail (record { at = at; ok = false });
  quarantined_until = 0;
  quarantines = 0;
  cleared_at = 0;
}

abbrev banned_until : ℕ → SiteRecord
banned_until time = record (outcomes 0 6 90000) { quarantined_until = time; quarantines = 1 }

abbrev with_sites : Dict String SiteRecord → SiteStats
with_sites sites = record { cfg = defaults; sites = sites; in_flight = []; dirty = false }

-- A site at which everything fails beside one at which nothing does.
abbrev one_bad : SiteStats
one_bad = with_sites (("T2_A", outcomes 0 6 100000) ∷ ("T2_B", outcomes 25 0 100000) ∷ [])

-- A configuration error: every site fails alike.
abbrev all_bad : SiteStats
all_bad = with_sites (("T2_A", outcomes 0 30 100000) ∷ ("T2_B", outcomes 0 30 100000) ∷ [])

abbrev one_banned : SiteStats
one_banned = with_sites (("T2_A", banned_until 200000) ∷ ("T2_B", outcomes 25 0 100000) ∷ [])

IsValid-one_bad : IsValid one_bad
unfolding is_site
IsValid-one_bad = record {
  distinct = (refl, (refl, tt));
  recorded = (refl, (refl, tt));
  flying = tt;
}

blacklists_bad : (blacklist one_bad 100000).1 ≡ "T2_A" ∷ []
unfolding blacklist judge quarantine quarantine_from expire prune
blacklists_bad = refl

blacklists_none : (blacklist all_bad 100000).1 ≡ []
unfolding blacklist judge quarantine quarantine_from expire prune
blacklists_none = refl

is_convicted_common_example : is_convicted all_bad 100000 "T2_A" (outcomes 0 30 100000) ≡ false
unfolding counts ended_since
is_convicted_common_example =
    is_convicted_common all_bad 100000 "T2_A" (outcomes 0 30 100000) 1 1 1 1 (refl, (refl, tt)) refl
      (refl, (refl, tt)) refl (omega arith) (omega arith) (omega arith) (omega arith) (omega arith)
      (omega arith)

old_outcomes : All (λ e. e.at < 95000) (banned_until 95000).events
old_outcomes = ground arith

second_chance_example :
    is_convicted one_bad 100000 "T2_A" (expire_record 100000 (banned_until 95000)) ≡ false
second_chance_example =
    second_chance one_bad 100000 "T2_A" (banned_until 95000) refl old_outcomes (omega arith)
      (omega arith)

judge-keeps_ban_example :
    (rec' : SiteRecord) × (get (judge one_banned 100000).sites "T2_A" ≡ some rec')
    × (rec'.quarantined_until ≡ 200000)
    × (rec'.quarantines ≡ 1)
judge-keeps_ban_example =
    judge-keeps_ban one_banned 100000 "T2_A" (banned_until 200000) refl (omega arith)

blacklist-IsBanned_example :
    All (IsBanned (blacklist one_bad 100000).0 100000) (blacklist one_bad 100000).1
blacklist-IsBanned_example = blacklist-IsBanned one_bad 100000 IsValid-one_bad

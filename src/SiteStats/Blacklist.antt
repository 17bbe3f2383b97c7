-- ===== src/SiteStats/Blacklist.antt =====
-- dsprod/site_stats.py: the list that `blacklist` returns.
use dsprod.Common.{
  ℕ, ◌≤◌, ◌<◌, min, ◌≡◌, ◌∙◌, true, false, [], ◌∷◌, some, String, arith, if◌then◌else◌, ltb→lt,
  leb→le, filter, All, All-mono, All-sort, All-take, ap, length, length-take, length-map,
  length-sort, count, length-filter, take, drop, map, string_eq, IsSorted-split, sort-IsSorted,
  Bool-cases, inl, inr,
}
use dsprod.Common.Dict.{Dict, get, get-entries}
use dsprod.SiteStats.Types.{SiteRecord, SiteStats}
use dsprod.SiteStats.Operations.{is_active, is_worse, ranked, judge, blacklist, failures}
use dsprod.SiteStats.Validity.{IsValid, judge-IsValid}

-- The site has a record, and its ban is running.
abbrev pub IsBanned : SiteStats → ℕ → String → Type 0
IsBanned s now site =
    (rec : SiteRecord) × (get s.sites site ≡ some rec) × (now < rec.quarantined_until)

IsBanned-entries :
    (s : SiteStats) (now : ℕ) (es : Dict String SiteRecord)
    → All (λ e. get s.sites e.0 ≡ some e.1) es
    → All (λ e. IsBanned s now e.0) (filter (is_active now) es)
IsBanned-entries s now [] h = tt
IsBanned-entries s now (e ∷ es) h = elim (Bool-cases (is_active now e)) [
  | inl active ↦ rw active ((e.1, h.0, ltb→lt _ _ active), IsBanned-entries s now es h.1)
  | inr free ↦ rw free (IsBanned-entries s now es h.1)
]

All-names :
    (P : String → Type 0) (es : Dict String SiteRecord)
    → All (λ e. P e.0) es
    → All P (map (λ e. e.0) es)
All-names P [] h = tt
All-names P (e ∷ es) h = (h.0, All-names P es h.1)

blacklist_on :
    (s : SiteStats) (now : ℕ)
    → s.cfg.enabled ≡ true
    → blacklist s now
      ≡ (judge s now, map (λ e. e.0) (take s.cfg.max_sites (ranked (judge s now) now)))
unfolding blacklist
blacklist_on s now on =
    ap
      (λ b.
        if b
        then (judge s now, map (λ e. e.0) (take s.cfg.max_sites (ranked (judge s now) now)))
        else (s, []))
      on

blacklist_off : (s : SiteStats) (now : ℕ) → s.cfg.enabled ≡ false → blacklist s now ≡ (s, [])
unfolding blacklist
blacklist_off s now off =
    ap
      (λ b.
        if b
        then (judge s now, map (λ e. e.0) (take s.cfg.max_sites (ranked (judge s now) now)))
        else (s, []))
      off

-- From a valid state, whatever is on the list has a ban that is running, in the state that
-- `blacklist` leaves.
pub blacklist-IsBanned :
    (s : SiteStats) (now : ℕ)
    → IsValid s
    → All (IsBanned (blacklist s now).0 now) (blacklist s now).1
blacklist-IsBanned s now v = elim (Bool-cases s.cfg.enabled) [
  | inl on ↦
      let s' = judge s now in
      rw (blacklist_on s now on) (
        All-names (IsBanned s' now) (take s.cfg.max_sites (ranked s' now)) (
          All-take _ s.cfg.max_sites (ranked s' now) (
            All-sort (is_worse s') _ _ (
              IsBanned-entries s' now s'.sites
                (get-entries s'.sites (judge-IsValid s now v).distinct)))))
  | inr off ↦ rw (blacklist_off s now off) tt
]

-- The list holds as many of the banned sites as the cap allows, and nothing when it is disabled.
pub length-blacklist :
    (s : SiteStats) (now : ℕ)
    → length (blacklist s now).1 ≡ (
        if s.cfg.enabled
        then min s.cfg.max_sites (count (is_active now) (blacklist s now).0.sites)
        else 0)
length-blacklist s now = elim (Bool-cases s.cfg.enabled) [
  | inl on ↦
      let s' = judge s now in
      rw (blacklist_on s now on) (
        simp on (
          length-map (λ (e : String × SiteRecord). e.0) (take s.cfg.max_sites (ranked s' now))
          ∙ length-take s.cfg.max_sites (ranked s' now)
          ∙ rw (length-sort (is_worse s'), length-filter (is_active now) s'.sites)))
  | inr off ↦ rw (blacklist_off s now off) (simp off)
]

-- The cap keeps the worst offenders: no banned site that is cut off has more failures in its
-- window than one that is listed.
pub ranked-worst_first :
    (s : SiteStats) (now n : ℕ)
    → All
        (λ a. All (λ b. failures s b ≤ failures s a) (drop n (ranked s now)))
        (take n (ranked s now))
ranked-worst_first s now n =
    All-mono (λ a h. All-mono (λ b w. leb→le _ _ w) (drop n (ranked s now)) h)
      (take n (ranked s now))
      (IsSorted-split (is_worse s) n (ranked s now) (
        sort-IsSorted (is_worse s) (λ a b h. ground arith) (λ a b c h k. ground arith)
          (filter (is_active now) s.sites)))

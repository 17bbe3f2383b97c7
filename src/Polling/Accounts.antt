-- ===== src/Polling/Accounts.antt =====
-- dsprod/crab.py: the job manager's account of the submissions of this run, over any polls.
use dsprod.Common.{
  ℕ, ◌+◌, ◌≡◌, ◌≤◌, refl, Bool, true, false, List, [], ◌∷◌, Option, none, some, String, arith, ltb,
  leb, if◌then◌else◌, elem, add, length, All, IsDistinct, string_eq, nat_eq, Bool-cases, inl, inr,
  ltb→lt, leb→le,
}
use dsprod.Common.Dict.{Dict, get_or, put, put-IsDistinct, All-keys-put, length-put}
use dsprod.Jobs.{JobId}
use dsprod.Polling.Types.{
  Manager, StopReason, refused_submissions, failed_submissions, unscheduled, Parsed, jobs, refused,
  not_scheduled, submit_failed, unreadable_response, terminal_states,
}
use dsprod.Polling.Answers.{not_scheduled_yet, on_refused, on_submit_failed}
use dsprod.Polling.Stopping.{
  Explains, IsAccounted, Same-IsAccounted, heard_from-IsAccounted, take_in-Same,
}
use dsprod.Polling.Query.{Attempt, Answer, give_up, max_unreadable_polls, answer_to, query}

add-IsDistinct : (p : String) (ps : List String) → IsDistinct ps → IsDistinct (add p ps)
add-IsDistinct p ps h = elim (Bool-cases (elem p ps)) [
  | inl old ↦ rw old h
  | inr new ↦ rw new (new, h)
]

add-All : (Q : String → Type 0) (p : String) (ps : List String) → Q p → All Q ps → All Q (add p ps)
add-All Q p ps q h = elim (Bool-cases (elem p ps)) [ inl old ↦ rw old h | inr new ↦ rw new (q, h) ]

length-add-le : (p : String) (ps : List String) → length ps ≤ length (add p ps)
length-add-le p ps = ground arith

-- The account, with `gone` for the refused projects.
refused-IsAccounted :
    (m m' : Manager)
    → m'.submitted_projects ≡ m.submitted_projects
    → m'.failed_projects ≡ m.failed_projects
    → IsDistinct m'.refused_projects
    → All (λ p. elem p m.submitted_projects ≡ true) m'.refused_projects
    → Explains m' m'.stop_reason
    → IsAccounted m
    → IsAccounted m'
refused-IsAccounted m m' sub fail distinct own explained a = record {
  distinct = distinct;
  own = rw sub own;
  distinct_failed = rw fail a.distinct_failed;
  own_failed = rw (fail, sub) a.own_failed;
  explained = explained;
}

Explains-more :
    (m m' : Manager) (r : Option StopReason)
    → length m.refused_projects ≤ length m'.refused_projects
    → length m.failed_projects ≤ length m'.failed_projects
    → Explains m r
    → Explains m' r
Explains-more m m' none up up' h = tt
Explains-more m m' (some (refused_submissions n)) up up' h = (h.0, omega (arith, h.1, up))
Explains-more m m' (some (failed_submissions n)) up up' h = (h.0, omega (arith, h.1, up'))
Explains-more m m' (some (unscheduled proj n)) up up' h = h

Explains-if :
    (m : Manager) (b : Bool) (r : StopReason) (old : Option StopReason)
    → (b ≡ true → Explains m (some r))
    → Explains m old
    → Explains m (if b then some r else old)
Explains-if m true r old new h = new refl
Explains-if m false r old new h = h

not_scheduled_yet-IsAccounted :
    (m : Manager) (proj : String) (ids : List JobId)
    → IsAccounted m
    → IsAccounted (not_scheduled_yet m proj ids).0
unfolding not_scheduled_yet
not_scheduled_yet-IsAccounted m proj ids a =
    let m' = (not_scheduled_yet m proj ids).0 in
    refused-IsAccounted m m' refl refl a.distinct a.own
      (Explains-if m' _ _ m.stop_reason (λ late. ltb→lt _ _ late)
        (Explains-more m m' m.stop_reason (omega arith) (omega arith) a.explained))
      a

-- The refused projects, with `proj` if it is of this run.
abbrev with_own : List String → List String → String → List String
with_own sent gone proj = if elem proj sent then add proj gone else gone

counted :
    (sent gone : List String) (proj : String)
    → IsDistinct gone
    → All (λ p. elem p sent ≡ true) gone
    → IsDistinct (with_own sent gone proj)
      × All (λ p. elem p sent ≡ true) (with_own sent gone proj)
      × (length gone ≤ length (with_own sent gone proj))
counted sent gone proj distinct own = elim (Bool-cases (elem proj sent)) [
  | inl ours ↦ rw ours (
    add-IsDistinct proj gone distinct,
    add-All (λ p. elem p sent ≡ true) proj gone ours own,
    length-add-le proj gone,
  )
  | inr foreign ↦ rw foreign (distinct, own, omega arith)
]

on_refused-IsAccounted :
    (m : Manager) (proj text : String) (ids : List JobId)
    → IsAccounted m
    → IsAccounted (on_refused m proj text ids).0
unfolding on_refused
on_refused-IsAccounted m proj text ids a =
    let m' = (on_refused m proj text ids).0 in
    let (distinct, own, more) =
      counted m.submitted_projects m.refused_projects proj a.distinct a.own in
    refused-IsAccounted m m' refl refl distinct own
      (Explains-if m' _ _ m.stop_reason (λ many. (leb→le _ _ many, omega arith))
        (Explains-more m m' m.stop_reason more (omega arith) a.explained))
      a

length-put-ge :
    (d : Dict String (Option String)) (k : String) (v : Option String)
    → length d ≤ length (put d k v)
length-put-ge d k v = ground (arith, length-put d k v)

own_failure :
    (m : Manager) (proj : String) (failure : Option String)
    → elem proj m.submitted_projects ≡ true
    → IsAccounted m
    → IsAccounted (record m {
      failed_projects = put m.failed_projects proj failure;
      stop_reason =
          if leb 2 (length (put m.failed_projects proj failure))
          then some (failed_submissions (length (put m.failed_projects proj failure)))
          else m.stop_reason;
    })
own_failure m proj failure own a =
    let m' = record m {
      failed_projects = put m.failed_projects proj failure;
      stop_reason =
          if leb 2 (length (put m.failed_projects proj failure))
          then some (failed_submissions (length (put m.failed_projects proj failure)))
          else m.stop_reason;
    } in
    record {
      distinct = a.distinct;
      own = a.own;
      distinct_failed = put-IsDistinct m.failed_projects proj failure a.distinct_failed;
      own_failed =
          All-keys-put (λ p. elem p m.submitted_projects ≡ true) m.failed_projects proj failure own
            a.own_failed;
      explained =
          Explains-if m' _ _ m.stop_reason (λ many. (leb→le _ _ many, omega arith))
            (Explains-more m m' m.stop_reason (omega arith)
              (length-put-ge m.failed_projects proj failure) a.explained);
    }

on_submit_failed-IsAccounted :
    (m : Manager) (proj : String) (failure : Option String)
    → IsAccounted m
    → IsAccounted (on_submit_failed m proj failure)
unfolding on_submit_failed
on_submit_failed-IsAccounted m proj failure a = elim (Bool-cases (elem proj m.submitted_projects)) [
  | inr foreign ↦ rw foreign a
  | inl own ↦ rw own (own_failure m proj failure own a)
]

give_up-IsAccounted :
    (m : Manager) (proj : String) (ids : List JobId)
    → IsAccounted m
    → IsAccounted (give_up m proj ids).0
unfolding give_up
give_up-IsAccounted m proj ids a =
    let n = get_or m.unreadable proj 0 + 1 in
    let m' = record m { unreadable = put m.unreadable proj n } in
    let kept : IsAccounted m' = record {
      distinct = a.distinct;
      own = a.own;
      distinct_failed = a.distinct_failed;
      own_failed = a.own_failed;
      explained = Explains-more m m' m.stop_reason (omega arith) (omega arith) a.explained;
    } in
    elim (Bool-cases (ltb max_unreadable_polls n)) [
      | inl many ↦ rw many kept
      | inr few ↦ rw few kept
    ]

answer_to-IsAccounted :
    (now : ℕ) (proj text : String) (ids : List JobId) (m : Manager) (p : Parsed) (b : Bool)
    (next : Manager × Answer)
    → IsAccounted m
    → IsAccounted next.0
    → IsAccounted (answer_to now proj text ids m p b next).0
unfolding answer_to
answer_to-IsAccounted now proj text ids m (jobs result) b next a n =
    Same-IsAccounted (take_in-Same m now proj result) (heard_from-IsAccounted m proj a)
answer_to-IsAccounted now proj text ids m (refused ws) b next a n =
    on_refused-IsAccounted m proj text ids a
answer_to-IsAccounted now proj text ids m not_scheduled b next a n =
    not_scheduled_yet-IsAccounted m proj ids a
answer_to-IsAccounted now proj text ids m (submit_failed f result) b next a n =
    Same-IsAccounted (take_in-Same (on_submit_failed m proj f) now proj result) (
      heard_from-IsAccounted (on_submit_failed m proj f) proj
        (on_submit_failed-IsAccounted m proj f a))
answer_to-IsAccounted now proj text ids m unreadable_response true next a n =
    on_refused-IsAccounted m proj text ids a
answer_to-IsAccounted now proj text ids m unreadable_response false next a n = n

-- Whatever the server answers, a poll keeps the account, if it held before: refusals and failures
-- are counted once for each project and only for projects that this run submitted, and the run is
-- stopped only for two of either, or for a task that was not scheduled for more than 60 polls.
pub query-IsAccounted :
    (now : ℕ) (proj text : String) (ids : List JobId) (m : Manager) (attempts : List Attempt)
    → IsAccounted m
    → IsAccounted (query now proj text ids m attempts).0
unfolding query
query-IsAccounted now proj text ids m [] a = give_up-IsAccounted m proj ids a
query-IsAccounted now proj text ids m (t ∷ attempts) a =
    answer_to-IsAccounted now proj text ids m t.parsed (elem t.named_state terminal_states)
      (query now proj text ids m attempts) a (query-IsAccounted now proj text ids m attempts a)

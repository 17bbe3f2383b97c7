-- ===== src/Polling/Waiting.antt =====
-- dsprod/crab.py: how long the job manager waits for a task that the server does not schedule.
use dsprod.Common.{
  ℕ, ◌+◌, ◌<◌, ◌≡◌, ◌⊎◌, refl, sym, ◌∙◌, ap, subst, Bool, true, false, List, [], ◌∷◌, Option, none,
  some, String, ltb, ltb→lt, if◌then◌else◌, or_else, elem, string_eq, nat_eq, ◌==◌, Bool-cases, inl,
  inr, eq_of_==, ==-refl,
}
use dsprod.Common.Dict.{get_or, put, get-put, get-pop}
use dsprod.Jobs.{JobId}
use dsprod.Polling.Types.{
  Manager, StopReason, refused_submissions, failed_submissions, unscheduled, Parsed, jobs, refused,
  not_scheduled, submit_failed, unreadable_response, terminal_states,
}
use dsprod.Polling.Answers.{not_scheduled_yet, on_refused, on_submit_failed}
use dsprod.Polling.Query.{Attempt, Answer, give_up, max_unreadable_polls, take_in, answer_to, query}
use dsprod.Polling.Stopping.{Same, heard_from, take_in-Same, IsAccounted}
use dsprod.Polling.Accounts.{query-IsAccounted}

-- What a poll of a project tells of it: the states of its jobs, that it is not scheduled yet, or neither.
pub data Told : Type 0 where
  states : Told
  waiting : Told
  neither : Told

abbrev pub told_by : Parsed → Bool → Told → Told
told_by (jobs result) names_terminal next = states
told_by (submit_failed failure result) names_terminal next = states
told_by not_scheduled names_terminal next = waiting
told_by (refused warnings) names_terminal next = neither
told_by unreadable_response names_terminal next = if names_terminal then neither else next

abbrev pub told : List Attempt → Told
told [] = neither
told (a ∷ attempts) =
    let next = told attempts in told_by a.parsed (elem a.named_state terminal_states) next

-- The polls so far, the last one first.
abbrev pub History : Type 0
History = List (String × Told)

-- How many polls of a project told that it is not scheduled, since one told the states of its jobs.
abbrev pub waits_after : Told → ℕ → ℕ
waits_after states n = 0
waits_after waiting n = n + 1
waits_after neither n = n

abbrev pub waits : History → String → ℕ
waits [] p = 0
waits ((proj, t) ∷ h) p = let n = waits h p in if proj == p then waits_after t n else n

-- At some time there were `n` such polls.
abbrev pub HadWaits : History → String → ℕ → Type 0
HadWaits [] p n = ⊥
HadWaits (e ∷ h) p n = (waits (e ∷ h) p ≡ n) ⊎ HadWaits h p n

abbrev pub IsDueTo : History → Option StopReason → Type 0
IsDueTo h (some (unscheduled p n)) = (60 < n) × HadWaits h p n
IsDueTo h _ = Unit

-- The counters are what the polls make them, and a stop for waiting has as many polls behind it as it says.
pub record IsWaited (h : History) (m : Manager) : Type 0 where
  pub counted : (p : String) → get_or m.unscheduled p 0 ≡ waits h p
  pub due : IsDueTo h m.stop_reason

due_later :
    (e : String × Told) (h : History) (r : Option StopReason) → IsDueTo h r → IsDueTo (e ∷ h) r
due_later e h none d = tt
due_later e h (some (refused_submissions n)) d = tt
due_later e h (some (failed_submissions n)) d = tt
due_later e h (some (unscheduled p n)) d = (d.0, inr d.1)

due_if :
    (h : History) (b : Bool) (r : StopReason) (old : Option StopReason)
    → (b ≡ true → IsDueTo h (some r))
    → IsDueTo h old
    → IsDueTo h (if b then some r else old)
due_if h true r old new d = new refl
due_if h false r old new d = d

neither-waits : (h : History) (proj p : String) → waits ((proj, neither) ∷ h) p ≡ waits h p
neither-waits h proj p = elim (Bool-cases (proj == p)) [
  | inl same ↦ rw same refl
  | inr other ↦ rw other refl
]

-- A poll that tells neither.
neither-IsWaited :
    (h : History) (m m' : Manager) (proj : String)
    → m'.unscheduled ≡ m.unscheduled
    → IsDueTo h m'.stop_reason
    → IsWaited h m
    → IsWaited ((proj, neither) ∷ h) m'
neither-IsWaited h m m' proj same due w = record {
  counted = λ p. ap (λ d. get_or d p 0) same ∙ w.counted p ∙ sym (neither-waits h proj p);
  due = due_later (proj, neither) h m'.stop_reason due;
}

states-IsWaited :
    (h : History) (m m' : Manager) (proj : String)
    → Same (heard_from m proj) m'
    → IsWaited h m
    → IsWaited ((proj, states) ∷ h) m'
states-IsWaited h m m' proj same w = record {
  counted = λ p.
      ap (λ d. get_or d p 0) same.waits
      ∙ ap (λ o. or_else o 0) (get-pop m.unscheduled proj p)
      ∙ (elim (Bool-cases (proj == p)) [
        | inl here ↦ rw here refl
        | inr other ↦ rw other (w.counted p)
      ]);
  due =
      subst (IsDueTo ((proj, states) ∷ h)) (sym same.stop)
        (due_later (proj, states) h m.stop_reason w.due);
}

waiting-IsWaited :
    (h : History) (m : Manager) (proj : String) (ids : List JobId)
    → IsWaited h m
    → IsWaited ((proj, waiting) ∷ h) (not_scheduled_yet m proj ids).0
unfolding not_scheduled_yet
waiting-IsWaited h m proj ids w =
    let n = get_or m.unscheduled proj 0 + 1 in
    let counted : (p : String)
        → get_or (put m.unscheduled proj n) p 0 ≡ waits ((proj, waiting) ∷ h) p =
      λ p. ap (λ o. or_else o 0) (get-put m.unscheduled proj p n) ∙ (elim (Bool-cases (proj == p)) [
        | inl here ↦
            rw here
              (ap (λ k. k + 1) (w.counted proj) ∙ ap (λ q. waits h q + 1) (eq_of_== proj p here))
        | inr other ↦ rw other (w.counted p)
      ]) in
    record {
      counted = counted;
      due =
          due_if ((proj, waiting) ∷ h) _ (unscheduled proj n) m.stop_reason
            (λ late.
              (ltb→lt _ _ late, inl (rw (==-refl proj) (ap (λ k. k + 1) (sym (w.counted proj))))))
            (due_later (proj, waiting) h m.stop_reason w.due);
    }

on_submit_failed-IsWaited :
    (h : History) (m : Manager) (proj : String) (failure : Option String)
    → IsWaited h m
    → IsWaited h (on_submit_failed m proj failure)
unfolding on_submit_failed
on_submit_failed-IsWaited h m proj failure w = elim (Bool-cases (elem proj m.submitted_projects)) [
  | inr foreign ↦ rw foreign w
  | inl own ↦ rw own (record {
    counted = w.counted;
    due = due_if h _ (failed_submissions _) m.stop_reason (λ e. tt) w.due;
  })
]

on_refused-IsWaited :
    (h : History) (m : Manager) (proj text : String) (ids : List JobId)
    → IsWaited h m
    → IsWaited ((proj, neither) ∷ h) (on_refused m proj text ids).0
unfolding on_refused
on_refused-IsWaited h m proj text ids w =
    neither-IsWaited h m (on_refused m proj text ids).0 proj refl
      (due_if h _ (refused_submissions _) m.stop_reason (λ e. tt) w.due) w

give_up-IsWaited :
    (h : History) (m : Manager) (proj : String) (ids : List JobId)
    → IsWaited h m
    → IsWaited ((proj, neither) ∷ h) (give_up m proj ids).0
unfolding give_up
give_up-IsWaited h m proj ids w =
    let n = get_or m.unreadable proj 0 + 1 in
    let kept =
      neither-IsWaited h m (record m { unreadable = put m.unreadable proj n }) proj refl w.due w in
    elim (Bool-cases (ltb max_unreadable_polls n)) [
      | inl many ↦ rw many kept
      | inr few ↦ rw few kept
    ]

answer_to-IsWaited :
    (h : History) (now : ℕ) (proj text : String) (ids : List JobId) (m : Manager) (p : Parsed)
    (b : Bool) (next : Manager × Answer) (t : Told)
    → IsWaited h m
    → IsWaited ((proj, t) ∷ h) next.0
    → IsWaited ((proj, told_by p b t) ∷ h) (answer_to now proj text ids m p b next).0
unfolding answer_to
answer_to-IsWaited h now proj text ids m (jobs result) b next t w n =
    states-IsWaited h m (take_in m now proj result).0 proj (take_in-Same m now proj result) w
answer_to-IsWaited h now proj text ids m (refused ws) b next t w n =
    on_refused-IsWaited h m proj text ids w
answer_to-IsWaited h now proj text ids m not_scheduled b next t w n =
    waiting-IsWaited h m proj ids w
answer_to-IsWaited h now proj text ids m (submit_failed f result) b next t w n =
    states-IsWaited h (on_submit_failed m proj f)
      (take_in (on_submit_failed m proj f) now proj result).0 proj
      (take_in-Same (on_submit_failed m proj f) now proj result)
      (on_submit_failed-IsWaited h m proj f w)
answer_to-IsWaited h now proj text ids m unreadable_response true next t w n =
    on_refused-IsWaited h m proj text ids w
answer_to-IsWaited h now proj text ids m unreadable_response false next t w n = n

query-IsWaited :
    (h : History) (now : ℕ) (proj text : String) (ids : List JobId) (m : Manager)
    (attempts : List Attempt)
    → IsWaited h m
    → IsWaited ((proj, told attempts) ∷ h) (query now proj text ids m attempts).0
unfolding query
query-IsWaited h now proj text ids m [] w = give_up-IsWaited h m proj ids w
query-IsWaited h now proj text ids m (a ∷ attempts) w =
    answer_to-IsWaited h now proj text ids m a.parsed (elem a.named_state terminal_states)
      (query now proj text ids m attempts) (told attempts) w
      (query-IsWaited h now proj text ids m attempts w)

-- Whatever the server answers, a poll keeps the account, if it held before: refusals and failures
-- are counted once for each project and only for projects that this run submitted. The run is
-- stopped only for two of either, or for a task that the server called not scheduled in more than
-- 60 polls, with none between them that told the states of its jobs; the counter of each project
-- is the number of such polls.
pub query-accounts :
    (h : History) (now : ℕ) (proj text : String) (ids : List JobId) (m : Manager)
    (attempts : List Attempt)
    → IsAccounted m
    → IsWaited h m
    → IsAccounted (query now proj text ids m attempts).0
      × IsWaited ((proj, told attempts) ∷ h) (query now proj text ids m attempts).0
query-accounts h now proj text ids m attempts a w = (
  query-IsAccounted now proj text ids m attempts a,
  query-IsWaited h now proj text ids m attempts w,
)

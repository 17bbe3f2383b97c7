-- ===== src/Polling/Patience.antt =====
-- dsprod/crab.py: how long `query` bears with a task whose status cannot be read.
use dsprod.Common.{
  ℕ, zero, suc, ◌+◌, ◌≡◌, refl, ◌∙◌, ap, Bool, false, List, [], ◌∷◌, String, arith, ltb, or_else,
  if◌then◌else◌, elem, All, string_eq, nat_eq, Bool-cases, inl, inr,
}
use dsprod.Common.Dict.{get_or, get-put_self}
use dsprod.Jobs.{JobId}
use dsprod.Polling.Types.{Manager, unreadable_response, terminal_states}
use dsprod.Polling.Answers.{all_pending}
use dsprod.Polling.Query.{
  Attempt, Answer, gives, unreadable_for, give_up, answer_to, query, max_unreadable_polls,
}

-- An attempt that cannot be read, and whose error names no state of a task that will never run.
abbrev pub IsSilent : Attempt → Type 0
IsSilent a = (a.parsed ≡ unreadable_response) × (elem a.named_state terminal_states ≡ false)

module _ (now : ℕ) (proj text : String) (ids : List JobId) (attempts : List Attempt) where
  query-IsSilent :
      (m : Manager) (tries : List Attempt)
      → All IsSilent tries
      → query now proj text ids m tries ≡ give_up m proj ids
  unfolding query answer_to
  query-IsSilent m [] silent = refl
  query-IsSilent m (a ∷ tries) silent =
      ap
        (λ p.
          answer_to now proj text ids m p (elem a.named_state terminal_states)
            (query now proj text ids m tries))
        silent.0.0
      ∙ ap
          (λ (b : Bool).
            answer_to now proj text ids m unreadable_response b (query now proj text ids m tries))
          silent.0.1
      ∙ query-IsSilent m tries silent.1

  -- Polls one after the other that all find the same attempts.
  abbrev pub poll_times : ℕ → Manager → Manager
  poll_times zero m = m
  poll_times (suc k) m = poll_times k (query now proj text ids m attempts).0

  unreadable-give_up :
      (m : Manager)
      → get_or (give_up m proj ids).0.unreadable proj 0 ≡ get_or m.unreadable proj 0 + 1
  unfolding give_up
  unreadable-give_up m =
      elim (Bool-cases (ltb max_unreadable_polls (get_or m.unreadable proj 0 + 1))) [
        | inl many ↦ rw many (ap (λ o. or_else o 0) (get-put_self m.unreadable proj _))
        | inr few ↦ rw few (ap (λ o. or_else o 0) (get-put_self m.unreadable proj _))
      ]

  abbrev answer_for : ℕ → Answer
  answer_for n = if ltb max_unreadable_polls n then unreadable_for n else gives (all_pending ids)

  answer-give_up :
      (m : Manager) → (give_up m proj ids).1 ≡ answer_for (get_or m.unreadable proj 0 + 1)
  unfolding give_up
  answer-give_up m = elim (Bool-cases (ltb max_unreadable_polls (get_or m.unreadable proj 0 + 1))) [
    | inl many ↦ rw many refl
    | inr few ↦ rw few refl
  ]

  poll_times-counts :
      (k : ℕ) (m : Manager)
      → All IsSilent attempts
      → get_or (poll_times k m).unreadable proj 0 ≡ get_or m.unreadable proj 0 + k
  poll_times-counts zero m silent = omega arith
  poll_times-counts (suc k) m silent =
      poll_times-counts k (query now proj text ids m attempts).0 silent
      ∙ rw (query-IsSilent m attempts silent, unreadable-give_up m) (omega arith)

  -- A task whose status cannot be read, however often each poll tries, has its jobs reported
  -- pending for `max_unreadable_polls` polls in a row, if none was unreadable before; the next
  -- poll raises, and names how many polls there were. No error names a state of a task that will
  -- never run.
  pub query-patience :
      (k : ℕ) (m : Manager)
      → get_or m.unreadable proj 0 ≡ 0
      → All IsSilent attempts
      → (query now proj text ids (poll_times k m) attempts).1 ≡ (
          if ltb max_unreadable_polls (k + 1)
          then unreadable_for (k + 1)
          else gives (all_pending ids))
  query-patience k m none_yet silent =
      let count : get_or (poll_times k m).unreadable proj 0 + 1 ≡ k + 1 =
        rw (poll_times-counts k m silent, none_yet) (omega arith) in
      rw (query-IsSilent (poll_times k m) attempts silent)
        (answer-give_up (poll_times k m) ∙ ap answer_for count)

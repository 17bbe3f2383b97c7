-- ===== src/Watchdog/Heartbeat.antt =====
-- dsprod/watchdog.py: the loop of `Heartbeat`, which refreshes a job's flag.
--
-- The interval is in whole seconds, and a wait in quarters of a second, so that `interval / 4` is
-- exact. Whether a write succeeded is an argument.
use native.Mathlib.Nat.{pow-suc, one-le-pow}
use native.Mathlib.Decide.{dec_lt}
use dsprod.Common.{
  ℕ, suc, ◌+◌, ◌*◌, ◌^◌, ◌≤◌, ◌<◌, min, max, ◌≡◌, refl, Bool, List, [], ◌∷◌, arith, count,
  if◌then◌else◌,
}

pub record Heartbeat : Type 0 where
  pub interval : ℕ
  pub beats : ℕ
  pub failures : ℕ

-- `__init__`: at least a second
unfoldable pub init : ℕ → Heartbeat
init interval_seconds = record { interval = max 1 interval_seconds; beats = 0; failures = 0 }

abbrev pub retry_seconds : ℕ
retry_seconds = 60

-- The wait after a failed beat, when `failures` beats in a row had failed before it.
unfoldable pub retry_wait : ℕ → ℕ → ℕ
retry_wait interval failures = min (retry_seconds * 4 * 2 ^ min failures 16) interval

-- The body of `_loop`: the new state, and how long to wait for the stop event. `_write` counts a beat
-- that succeeds.
unfoldable pub round : Heartbeat → Bool → Heartbeat × ℕ
unfolding retry_wait
round h written =
    if written
    then (record h { beats = h.beats + 1; failures = 0 }, 4 * h.interval)
    else (record h { failures = h.failures + 1 }, retry_wait h.interval h.failures)

-- The loop over the outcomes of its writes.
unfoldable pub rounds : Heartbeat → List Bool → Heartbeat
rounds h [] = h
rounds h (w ∷ ws) = rounds (round h w).0 ws

powers : (f : ℕ) → (2 ^ min f 16 ≤ 2 ^ min (f + 1) 16) × (2 ^ min (f + 1) 16 ≤ 2 * 2 ^ min f 16)
powers f = elim (dec_lt f 16) [
  | yes below ↦
      let e : min f 16 ≡ f = omega arith in
      let e' : min (f + 1) 16 ≡ suc f = omega arith in rw (e, e') (omega (arith, pow-suc 2 f))
  | no above ↦
      let e : min f 16 ≡ 16 = omega arith in
      let e' : min (f + 1) 16 ≡ 16 = omega arith in rw (e, e') (omega arith)
]

capped_bounds :
    (a b interval : ℕ)
    → a ≤ b
    → b ≤ 2 * a
    → 1 ≤ a
    → 0 < interval
    → (0 < min (240 * a) interval)
      × (min (240 * a) interval ≤ interval)
      × (min (240 * a) interval ≤ min (240 * b) interval)
      × (min (240 * b) interval ≤ 2 * min (240 * a) interval)
capped_bounds a b interval grows doubles one pos = omega arith

-- For a positive interval, after failed beats in a row the waits grow, by at most a factor of two
-- each, and none is 0 or more than a quarter of the interval.
pub retry_wait_bounds :
    (interval failures : ℕ)
    → 0 < interval
    → (0 < retry_wait interval failures)
      × (retry_wait interval failures ≤ interval)
      × (retry_wait interval failures ≤ retry_wait interval (failures + 1))
      × (retry_wait interval (failures + 1) ≤ 2 * retry_wait interval failures)
unfolding retry_wait
retry_wait_bounds interval f pos =
    let (grows, doubles) = powers f in
    capped_bounds (2 ^ min f 16) (2 ^ min (f + 1) 16) interval grows doubles
      (one-le-pow (min f 16) 2 (omega arith)) pos

rounds-beats :
    (h : Heartbeat) (ws : List Bool)
    → ((rounds h ws).beats ≡ h.beats + count (λ w. w) ws) × ((rounds h ws).interval ≡ h.interval)
unfolding rounds round
rounds-beats h [] = (omega arith, refl)
rounds-beats h (w ∷ ws) = ground (arith, rounds-beats (round h w).0 ws)

-- However its writes end, a heartbeat counts exactly those that succeeded, and never waits longer
-- than one interval before the next.
pub rounds_lem :
    (interval_seconds : ℕ) (ws : List Bool) (w : Bool)
    → let h = rounds (init interval_seconds) ws in
      (h.beats ≡ count (λ b. b) ws) × ((round h w).1 ≤ 4 * max 1 interval_seconds)
unfolding round init retry_wait
rounds_lem interval ws w = ground (arith, rounds-beats (init interval) ws)

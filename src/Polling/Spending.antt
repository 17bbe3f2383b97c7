-- ===== src/Polling/Spending.antt =====
-- dsprod/crab.py: what a run has failed so far, against the time of its last listing.
use native.Mathlib.Nat.{mul-le-mul_left, mul-le-mul_right}
use dsprod.Common.{ℕ, ◌+◌, ◌*◌, ◌-◌, ◌≤◌, ◌≡◌, sym, ◌∙◌, ap, true, Option, none, some, arith}
use dsprod.Polling.Callback.{Timer, is_due}

-- `failed` jobs were failed so far, `issued` of them since the last listing, with `m` as the limit.
-- Without a listing there is nothing to divide them by.
unfoldable pub Spent : ℕ → ℕ → ℕ → ℕ → Option ℕ → ℕ → ℕ → Type 0
Spent begin end m interval none issued failed = failed ≤ issued
Spent begin end m interval (some last) issued failed =
    (last ≤ end) × (failed * interval + m * begin ≤ issued * interval + m * (last + interval))

unfoldable pub last_of : Option Timer → Option ℕ
last_of none = none
last_of (some t) = t.last_update

pub Spent-polls :
    (begin end m interval : ℕ) (last : Option ℕ) (issued issued' failed n : ℕ)
    → Spent begin end m interval last issued failed
    → n + issued ≤ issued'
    → Spent begin end m interval last issued' (failed + n)
unfolding Spent
Spent-polls begin end m interval none issued issued' failed n s h = omega (arith, s, h)
Spent-polls begin end m interval (some last) issued issued' failed n s h =
    (s.0, omega (arith, s.1, mul-le-mul_right interval h))

pub Spent-listing :
    (begin end m interval now : ℕ) (last : Option ℕ) (issued issued' failed : ℕ)
    → Spent begin end m interval last issued failed
    → issued ≤ m
    → begin ≤ now
    → now ≤ end
    → is_due (record { update_interval = interval; last_update = last }) now ≡ true
    → Spent begin end m interval (some now) issued' failed
unfolding Spent is_due
Spent-listing begin end m interval now none issued issued' failed s capped after before due = (
  before,
  omega (
    arith,
    mul-le-mul_right interval s,
    mul-le-mul_right interval capped,
    mul-le-mul_left m after,
  ),
)
Spent-listing begin end m interval now (some last) issued issued' failed s capped after before due =
    let late : last + interval ≤ now = ground arith in
    (before, omega (arith, s.1, mul-le-mul_right interval capped, mul-le-mul_left m late))

pub due_at :
    (t : Timer) (interval now : ℕ)
    → t.update_interval ≡ interval
    → is_due t now ≡ true
    → is_due (record { update_interval = interval; last_update = t.last_update }) now ≡ true
due_at t interval now same due =
    ap (λ i. is_due (record { update_interval = i; last_update = t.last_update }) now) (sym same)
    ∙ due

pub Spent-total :
    (begin end m interval : ℕ) (last : Option ℕ) (issued failed : ℕ)
    → Spent begin end m interval last issued failed
    → issued ≤ m
    → begin ≤ end
    → failed * interval ≤ m * ((end - begin) + 2 * interval)
unfolding Spent
Spent-total begin end m interval none issued failed s capped h =
    omega (arith, mul-le-mul_right interval s, mul-le-mul_right interval capped)
Spent-total begin end m interval (some last) issued failed s capped h =
    let elapsed : last ≤ begin + (end - begin) = omega (arith, h, s.0) in
    omega (arith, s.1, mul-le-mul_right interval capped, mul-le-mul_left m elapsed)

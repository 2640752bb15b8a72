-- ===== src/Loop/Timing.antt =====
-- The timer of `ipc_wait_event` (src/communication.c) after poll(2).
use native.Mathlib.Decide.{dec_lt}
use libipc_old.Prelude.{
  ℕ, suc, ◌+◌, ◌-◌, ◌*◌, ◌/◌, ◌^◌, ◌≤◌, ◌<◌, ◌≡◌, refl, ℤ, pos, true, false, arith, ltb, leb,
  lt→ltb, lt→leb, diff, times, over, plus, negate, minus, lez, int32, if◌then◌else◌,
}
use libipc_old.Env.{Time}
use libipc_old.Loop.{time_left}

int32-small : (a : ℕ) → a < 2 ^ 31 → int32 (pos a) ≡ pos a
unfolding int32
int32-small a h = ground arith

int32-minus : (a : ℕ) → a < 2 ^ 31 → int32 (minus a) ≡ minus a
unfolding int32 minus
int32-minus a h = ground arith

-- What is left of a timer of `n` milliseconds once `e` have passed.
left :
    (n e : ℕ)
    → n < 2 ^ 31
    → (if lez (pos n) (pos e) then pos 0 else int32 (plus (pos n) (negate (pos e)))) ≡ pos (n - e)
unfolding lez plus negate minus diff int32
left n e h = ground arith

-- A time in microseconds.
abbrev pub micros : Time → ℕ
micros t = t.sec * 1000000 + t.usec

-- The milliseconds between two times, as the code counts them.
unfoldable elapsed : Time → Time → ℤ
elapsed t1 t2 =
    int32
      (plus (int32 (times (diff t2.sec t1.sec) 1000)) (int32 (over (diff t2.usec t1.usec) 1000)))

elapsed_forward :
    (t1 t2 : Time)
    → t1.sec ≤ t2.sec
    → t1.usec ≤ t2.usec
    → t2.usec < 1000000
    → t2.sec - t1.sec ≤ 2000000
    → elapsed t1 t2 ≡ pos ((t2.sec - t1.sec) * 1000 + (t2.usec - t1.usec) / 1000)
unfolding elapsed diff times over plus
elapsed_forward t1 t2 s u below short = ground (
  arith,
  int32-small ((t2.sec - t1.sec) * 1000),
  int32-small ((t2.usec - t1.usec) / 1000),
  int32-small ((t2.sec - t1.sec) * 1000 + (t2.usec - t1.usec) / 1000),
)

over-diff : (a b : ℕ) → a < b → over (diff a b) 1000 ≡ minus ((b - a) / 1000)
unfolding over diff minus
over-diff a b h =
    let back : suc (b - a - 1) ≡ b - a = omega arith in
    let up : leb b a ≡ false = lt→leb b a h in
    let some_time : ltb 0 (b - a) ≡ true = lt→ltb 0 (b - a) (omega arith) in
    rw (up, some_time, back) refl

plus-minus : (m k : ℕ) → k ≤ m → plus (pos m) (minus k) ≡ pos (m - k)
unfolding plus minus diff
plus-minus m k h = ground arith

times-diff : (a b : ℕ) → b ≤ a → times (diff a b) 1000 ≡ pos ((a - b) * 1000)
unfolding times diff
times-diff a b h = ground arith

elapsed_borrow :
    (t1 t2 : Time)
    → t1.sec < t2.sec
    → t2.usec < t1.usec
    → t1.usec < 1000000
    → t2.sec - t1.sec ≤ 2000000
    → elapsed t1 t2 ≡ pos ((t2.sec - t1.sec) * 1000 - (t1.usec - t2.usec) / 1000)
unfolding elapsed
elapsed_borrow t1 t2 s u below short =
    let k : ℕ = (t1.usec - t2.usec) / 1000 in
    let m : ℕ = (t2.sec - t1.sec) * 1000 in
    let secs : times (diff t2.sec t1.sec) 1000 ≡ pos m = times-diff t2.sec t1.sec (omega arith) in
    rw (over-diff t2.usec t1.usec u) (
      rw (int32-minus k (omega arith)) (
        rw secs (
          rw (int32-small m (omega arith))
            (rw (plus-minus m k (omega arith)) (int32-small (m - k) (omega arith))))))

-- What `elapsed` answers: the milliseconds, to within one of them.
elapsed_lem :
    (t1 t2 : Time)
    → t1.usec < 1000000
    → t2.usec < 1000000
    → micros t1 ≤ micros t2
    → t2.sec - t1.sec ≤ 2000000
    → (e : ℕ) × (elapsed t1 t2 ≡ pos e)
      × (micros t2 < micros t1 + e * 1000 + 1000)
      × (micros t1 + e * 1000 < micros t2 + 1000)
elapsed_lem t1 t2 below below' h short = elim (dec_lt t2.usec t1.usec) [
  | yes u ↦ (
    (t2.sec - t1.sec) * 1000 - (t1.usec - t2.usec) / 1000,
    elapsed_borrow t1 t2 (omega arith) u below short,
    omega arith,
    omega arith,
  )
  | no u ↦ (
    (t2.sec - t1.sec) * 1000 + (t2.usec - t1.usec) / 1000,
    elapsed_forward t1 t2 (omega arith) (omega arith) below' short,
    omega arith,
    omega arith,
  )
]

-- For times with less than a million microseconds each, when the clock has not gone back, and at most
-- 2000000 seconds forth: a timer of `n` milliseconds, an `int`, runs down by the time that has passed,
-- to within a millisecond, and stops at 0.
pub time_left-elapsed :
    (t1 t2 : Time) (n : ℕ)
    → n < 2 ^ 31
    → t1.usec < 1000000
    → t2.usec < 1000000
    → micros t1 ≤ micros t2
    → t2.sec - t1.sec ≤ 2000000
    → (e : ℕ) × (time_left t1 t2 (pos n) ≡ pos (n - e))
      × (micros t2 < micros t1 + e * 1000 + 1000)
      × (micros t1 + e * 1000 < micros t2 + 1000)
unfolding time_left elapsed
time_left-elapsed t1 t2 n small below below' h short =
    let (e, counted, low, high) = elapsed_lem t1 t2 below below' h short in
    (e, rw counted (left n e small), low, high)

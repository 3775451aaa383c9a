-- ===== src/Event/Ish.antt =====
-- How far `eventAddIsh` of src/event.c moves the interval that it is given.
use unirc_ircd.Prelude.{ℕ, ◌+◌, ◌*◌, ◌/◌, ◌%◌, ◌≤◌, ◌<◌, arith}
use native.Mathlib.Nat.{mul-le-mul_right}
use unirc_ircd.Event.{ish}

mul_le : (k t : ℕ) → k < 1000 → k * t ≤ 999 * t
mul_le k t h = mul-le-mul_right t (omega arith)

-- The interval that `eventAddIsh` adds an event with is at least two thirds of the one given, less a
-- second for rounding, and at most four thirds, whatever number `rand` gives.
ish-bounds :
    (rand delta : ℕ) → (2 * delta ≤ 3 * ish rand delta + 2) × (3 * ish rand delta ≤ 4 * delta)
ish-bounds rand delta =
    let m = mul_le (rand % 1000) (2 * delta / 3) (omega arith) in ground (arith, m)

-- ===== src/Notebook/Backoff.antt =====
-- internal/notebook/backoff.go: the ceiling of a wait. A `time.Duration` is an `int64`, here its 64
-- bits as a number: from 2^63 on it is negative. The random draw below the ceiling and the timer are
-- left out.
pub mod Ceiling
use slivingdoc.Base.{
  ℕ, zero, suc, ◌+◌, ◌*◌, ◌%◌, ◌^◌, ◌-◌, Bool, true, false, not, ◌&&◌, ◌||◌, ◌==◌, nat_eq, ltb, leb,
  if◌then◌else◌,
}

abbrev pub is_negative : ℕ → Bool
is_negative d = leb (2 ^ 63) d

-- `a < b` for a bound that is not negative.
abbrev pub below_bound : ℕ → ℕ → Bool
below_bound d bound = is_negative d || ltb d bound

-- The rounds of the loop that are left, `attempt - 1` at first.
unfoldable pub doubled : ℕ → ℕ → ℕ → ℕ
doubled zero bound d = d
doubled (suc rounds) bound d =
    let rest = doubled rounds bound ((d * 2) % 2 ^ 64) in if below_bound d bound then rest else d

unfoldable pub wait_ceiling : ℕ → ℕ → ℕ → ℕ
wait_ceiling base bound attempt =
    let d = doubled (attempt - 1) bound base in
    if not (below_bound d bound || d == bound) || (is_negative d || d == 0) then bound else d

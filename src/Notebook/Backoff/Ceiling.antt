-- ===== src/Notebook/Backoff/Ceiling.antt =====
-- The ceiling of a wait of internal/notebook/backoff.go is positive and bounded.
use slivingdoc.Base.{ℕ, ◌^◌, ◌-◌, ◌<◌, ◌≤◌, not, ◌||◌, ◌==◌, nat_eq, if◌then◌else◌, arith}
use slivingdoc.Notebook.Backoff.{is_negative, below_bound, doubled, wait_ceiling}

-- For every attempt and a positive bound the ceiling is positive and at most the bound, also where
-- the doubling overflows, so that the random draw below it is defined.
pub wait_ceiling-bounds :
    (base bound attempt : ℕ)
    → 0 < bound
    → bound < 2 ^ 63
    → (0 < wait_ceiling base bound attempt) × (wait_ceiling base bound attempt ≤ bound)
unfolding wait_ceiling
wait_ceiling-bounds base bound attempt positive fits = within (doubled (attempt - 1) bound base)
  where
    within :
        (d : ℕ)
        → let c =
            if not (below_bound d bound || d == bound) || (is_negative d || d == 0)
            then bound
            else d in
          (0 < c) × (c ≤ bound)
    within d = ground arith

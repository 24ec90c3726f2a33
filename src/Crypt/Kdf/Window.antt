-- ===== src/Crypt/Kdf/Window.antt =====
-- What a gate of internal/crypt/kdf.go accepts.
use mathlib.Core.Path.{subst}
use slivingdoc.Base.{
  ℕ, ◌*◌, ◌≤◌, ◌<◌, ◌≡◌, ◌↔◌, arith, Bool-cases, inl, inr, ltb, not, ◌||◌, require, sym, Result, ok,
  require-ok, bind-ok, ◌>>◌,
}
use slivingdoc.Crypt.Door.{KdfParams}
use slivingdoc.Crypt.Kdf.{
  KdfWindow, KdfError, canonical_window, validate_params, new_kdf_gate, lowered,
  new_kdf_gate_for_cost,
}

-- The cost lies in the window.
pub record IsInside (w : KdfWindow) (p : KdfParams) : Type 0 where
  pub memory_low : w.min_memory_kib ≤ p.memory_kib
  pub memory_high : p.memory_kib ≤ w.max_memory_kib
  pub iterations_low : w.min_iterations ≤ p.iterations
  pub iterations_high : p.iterations ≤ w.max_iterations
  pub lanes_low : w.min_parallelism ≤ p.parallelism
  pub lanes_high : p.parallelism ≤ w.max_parallelism

-- The cost is at most the upper bounds of the canonical window.
pub record IsBelow (p : KdfParams) : Type 0 where
  pub memory_high : p.memory_kib ≤ canonical_window.max_memory_kib
  pub iterations_high : p.iterations ≤ canonical_window.max_iterations
  pub lanes_high : p.parallelism ≤ canonical_window.max_parallelism

pub validate_params_iff :
    (w : KdfWindow) (p : KdfParams) → (validate_params w p ≡ ok tt) ↔ IsInside w p
unfolding validate_params
validate_params_iff w p = (λ h. inside h, λ i. accepted i)
  where
    inside : validate_params w p ≡ ok tt → IsInside w p
    inside h =
        let (memory, h1) =
          require-ok _ KdfError.kdf_params
            (require (not (ltb p.iterations w.min_iterations || ltb w.max_iterations p.iterations))
                KdfError.kdf_params
              >> require
                  (not (ltb p.parallelism w.min_parallelism || ltb w.max_parallelism p.parallelism))
                  KdfError.kdf_params)
            h in
        let (turns, h2) =
          require-ok _ KdfError.kdf_params
            (require
              (not (ltb p.parallelism w.min_parallelism || ltb w.max_parallelism p.parallelism))
              KdfError.kdf_params)
            h1 in
        record {
          memory_low = ground (arith, memory);
          memory_high = ground (arith, memory);
          iterations_low = ground (arith, turns);
          iterations_high = ground (arith, turns);
          lanes_low = ground (arith, h2);
          lanes_high = ground (arith, h2);
        }

    accepted : IsInside w p → validate_params w p ≡ ok tt
    accepted i = ground (
      arith, i.memory_low, i.memory_high, i.iterations_low, i.iterations_high, i.lanes_low,
      i.lanes_high,
    )

abbrev gate_ok : KdfWindow → Result KdfError KdfWindow
gate_ok w = ok w

gate-injective : (a b : KdfWindow) → gate_ok a ≡ ok b → a ≡ b
gate-injective a b h = ground arith

-- A gate for an injected cost accepts that cost and everything that the canonical gate accepts, it
-- accepts nothing above the canonical memory, iterations and lanes, and Argon2id has eight KiB for each lane. The lanes are one byte.
pub new_kdf_gate_for_cost-window :
    (max_jobs : ℕ) (cost : KdfParams) (window : KdfWindow)
    → cost.parallelism < 256
    → new_kdf_gate_for_cost max_jobs cost ≡ ok window
    → IsInside window cost
      × ((p : KdfParams) → IsInside canonical_window p → IsInside window p)
      × ((p : KdfParams) → IsInside window p → IsBelow p)
      × (8 * cost.parallelism ≤ cost.memory_kib)
unfolding new_kdf_gate_for_cost new_kdf_gate
new_kdf_gate_for_cost-window max_jobs cost window small h =
    let (memory, h1) =
      require-ok _ KdfError.kdf_params (validate_params (lowered cost) cost >> new_gate) h in
    let (u, valid, h2) = bind-ok (validate_params (lowered cost) cost) (λ u. new_gate) h1 in
    let (jobs, h3) = require-ok _ KdfError.kdf_gate (gate_ok (lowered cost)) h2 in
    let same : lowered cost ≡ window = gate-injective (lowered cost) window h3 in
    let inside : IsInside (lowered cost) cost = (validate_params_iff (lowered cost) cost).0 valid in
    (
      subst (λ w. IsInside w cost) same inside,
      λ p i. subst (λ w. IsInside w p) same (wider p i),
      λ p i. upper p (subst (λ w. IsInside w p) (sym same) i),
      ground (arith, memory, small),
    )
  where
    new_gate : Result KdfError KdfWindow
    new_gate = new_kdf_gate max_jobs (lowered cost)

    wider : (p : KdfParams) → IsInside canonical_window p → IsInside (lowered cost) p
    wider p i = elim (Bool-cases (ltb cost.memory_kib canonical_window.min_memory_kib)) [
      | inl low ↦ record {
        memory_low = ground (arith, low, i.memory_low);
        memory_high = ground (arith, low, i.memory_high);
        iterations_low = ground (arith, low, i.iterations_low);
        iterations_high = ground (arith, low, i.iterations_high);
        lanes_low = ground (arith, low, i.lanes_low);
        lanes_high = ground (arith, low, i.lanes_high);
      }
      | inr high ↦ subst (λ w. IsInside w p) (ground (arith, high)) i
    ]

    upper : (p : KdfParams) → IsInside (lowered cost) p → IsBelow p
    upper p i = record {
      memory_high = ground (arith, i.memory_high);
      iterations_high = ground (arith, i.iterations_high);
      lanes_high = ground (arith, i.lanes_high);
    }

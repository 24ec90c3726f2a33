-- ===== src/Notebook/Checkpoint/Prefix.antt =====
-- The prefix that a plan selects: its last increment, and the tail behind it.
use slivingdoc.Base.{
  ℕ, zero, suc, ◌+◌, ◌≡◌, refl, true, Option, none, some, List, [], ◌∷◌, ◌++◌, inl, inr, length,
  get_elem?, take, In, arith,
}
use slivingdoc.Storage.Manifest.{
  Oid, Increment, Manifest, increment_eq, increment_beq_iff, IsTail, final_head, final_generation,
}
use slivingdoc.Notebook.Checkpoint.{CheckpointPlan, plan_checkpoint, same_prefix, prefix_present}

final_head-take :
    (n : ℕ) (xs : List Increment) (h : Oid) (last : Increment)
    → get_elem? xs n ≡ some last
    → final_head h (take (suc n) xs) ≡ last.head
unfolding take
final_head-take n [] h last e = cc
final_head-take zero (x ∷ xs) h last e = ground arith
final_head-take (suc n) (x ∷ xs) h last e = final_head-take n xs x.head last e

final_generation-take :
    (n : ℕ) (xs : List Increment) (g : ℕ) (last : Increment)
    → get_elem? xs n ≡ some last
    → final_generation g (take (suc n) xs) ≡ last.generation
unfolding take
final_generation-take n [] g last e = cc
final_generation-take zero (x ∷ xs) g last e = ground arith
final_generation-take (suc n) (x ∷ xs) g last e = final_generation-take n xs x.generation last e

In-take :
    (n : ℕ) (xs : List Increment) (last : Increment)
    → get_elem? xs n ≡ some last
    → In last (take (suc n) xs)
unfolding take
In-take n [] last e = cc
In-take zero (x ∷ xs) last e = inl (ground arith)
In-take (suc n) (x ∷ xs) last e = inr (In-take n xs last e)

take-same_prefix :
    (n : ℕ) (xs ys : List Increment) → same_prefix n xs ys ≡ true → take n xs ≡ take n ys
unfolding same_prefix take
take-same_prefix zero xs ys h = refl
take-same_prefix (suc n) (x ∷ xs) (y ∷ ys) h =
    ground (arith, increment_beq_iff x y, take-same_prefix n xs ys)
take-same_prefix (suc n) [] ys h = cc
take-same_prefix (suc n) (x ∷ xs) [] h = cc

-- What a plan that is still present says of the latest manifest: `last` ends the prefix.
pub record IsPrefix (plan : CheckpointPlan) (is : List Increment) : Type 0 where
  pub last : Increment
  pub held : In last (take plan.count is)
  pub publication : plan.publication ≡ last.publication
  pub head : plan.head ≡ last.head
  pub at_head : (h : Oid) → final_head h (take plan.count is) ≡ plan.head
  pub at_cutoff : (g : ℕ) → final_generation g (take plan.count is) ≡ plan.cutoff

pub plan-IsPrefix :
    (observed latest : Manifest) (threshold : ℕ) (plan : CheckpointPlan)
    → plan_checkpoint observed threshold ≡ some plan
    → prefix_present plan latest ≡ true
    → IsPrefix plan latest.increments
unfolding plan_checkpoint prefix_present
plan-IsPrefix observed latest zero plan p present = cc
plan-IsPrefix observed latest (suc t) plan p present = go (get_elem? observed.increments t) refl
  where
    go :
        (o : Option Increment)
        → get_elem? observed.increments t ≡ o
        → IsPrefix plan latest.increments
    go none e = absurd (ground arith)
    go (some last) e =
        let counted : plan.count ≡ suc t = ground arith in
        let same : take (suc t) latest.increments ≡ take (suc t) observed.increments =
          take-same_prefix (suc t) latest.increments observed.increments
            (ground (arith, counted)) in
        record {
          last = last;
          held = rw (counted, same) (In-take t observed.increments last e);
          publication = ground arith;
          head = ground arith;
          at_head = λ h.
              rw (counted, same, final_head-take t observed.increments h last e) (ground arith);
          at_cutoff = λ g.
              rw (counted, same, final_generation-take t observed.increments g last e)
                (ground arith);
        }

pub final_head-append :
    (h : Oid) (xs ys : List Increment) → final_head h (xs ++ ys) ≡ final_head (final_head h xs) ys
final_head-append h [] ys = refl
final_head-append h (x ∷ xs) ys = final_head-append x.head xs ys

pub final_generation-append :
    (g : ℕ) (xs ys : List Increment)
    → final_generation g (xs ++ ys) ≡ final_generation (final_generation g xs) ys
final_generation-append g [] ys = refl
final_generation-append g (x ∷ xs) ys = final_generation-append x.generation xs ys

pub IsTail-append :
    (h : Oid) (g : ℕ) (xs ys : List Increment)
    → IsTail h g (xs ++ ys)
    → IsTail h g xs × IsTail (final_head h xs) (final_generation g xs) ys
IsTail-append h g [] ys t = (tt, t)
IsTail-append h g (x ∷ xs) ys t =
    let (front, back) = IsTail-append x.head x.generation xs ys t.1 in ((t.0, front), back)

pub IsTail-joined :
    (h : Oid) (g : ℕ) (xs ys : List Increment)
    → IsTail h g xs
    → IsTail (final_head h xs) (final_generation g xs) ys
    → IsTail h g (xs ++ ys)
IsTail-joined h g [] ys t s = s
IsTail-joined h g (x ∷ xs) ys t s = (t.0, IsTail-joined x.head x.generation xs ys t.1 s)

-- Generations grow along a tail, by one for each increment.
pub final_generation-IsTail :
    (h : Oid) (g : ℕ) (xs : List Increment) → IsTail h g xs → final_generation g xs ≡ g + length xs
final_generation-IsTail h g [] t = omega arith
final_generation-IsTail h g (x ∷ xs) t =
    omega (arith, final_generation-IsTail x.head x.generation xs t.1, t.0.consecutive)

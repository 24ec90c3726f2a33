-- ===== src/Notebook/Commit.antt =====
-- internal/notebook/commit.go: the loop of `commit` over its attempts. An attempt is an operation on
-- the state of the notebook and its store, and so is the wait between two attempts.
pub mod Retries
pub mod Samples
use slivingdoc.Base.{
  ℕ, zero, suc, ◌+◌, Bool, true, false, not, ◌&&◌, Option, none, some, ltb, if◌then◌else◌, Result,
  ok, err,
}

-- `loadMode` of remote.go.
pub data LoadMode : Type 0 where
  load_reusing load_strict : LoadMode

-- How a commit fails: with the error of an attempt or of a wait, or because other writers kept
-- winning. `out_of_fuel` is no error of the code.
pub data CommitError (E : Type 0) : Type 0 where
  attempt_failed : E → CommitError E
  wait_failed : E → CommitError E
  remote_busy : CommitError E
  out_of_fuel : CommitError E

-- An attempt gives a result, `none` where the conditional write lost the race, or an error.
pub record Attempts (S E A : Type 0) : Type 0 where
  pub attempt_publication : LoadMode → S → Result E (Option A) × S
  pub wait : ℕ → S → Option E × S
  pub engine_failed : E → Bool
  pub retry_limit : ℕ

module _ {S E A : Type 0} (ops : Attempts S E A) where
  abbrev pub may_reload : LoadMode → E → Bool
  may_reload LoadMode.load_reusing e = ops.engine_failed e
  may_reload LoadMode.load_strict e = false

  -- One turn of the loop: the answer of `commit`, or the attempt and the mode to go on with.
  pub data Turn : Type 0 where
    answer : Result (CommitError E) A → Turn
    go_on : ℕ → LoadMode → Turn

  abbrev pub after_wait : ℕ → LoadMode → Option E × S → Turn × S
  after_wait attempt mode (some e, s) = (Turn.answer (err (CommitError.wait_failed e)), s)
  after_wait attempt mode (none, s) = (Turn.go_on (attempt + 1) mode, s)

  abbrev pub after_attempt : ℕ → LoadMode → Result E (Option A) × S → Turn × S
  after_attempt attempt mode (err e, s) =
      if may_reload mode e
      then (Turn.go_on attempt LoadMode.load_strict, s)
      else (Turn.answer (err (CommitError.attempt_failed e)), s)
  after_attempt attempt mode (ok (some a), s) = (Turn.answer (ok a), s)
  after_attempt attempt mode (ok none, s) =
      if ltb ops.retry_limit attempt
      then (Turn.answer (err CommitError.remote_busy), s)
      else after_wait attempt mode (ops.wait attempt s)

  unfoldable pub turn : ℕ → LoadMode → S → Turn × S
  turn attempt mode s = after_attempt attempt mode (ops.attempt_publication mode s)

  abbrev pub resume :
      (ℕ → LoadMode → S → Result (CommitError E) A × S) → Turn × S → Result (CommitError E) A × S
  resume rest (Turn.answer r, s) = (r, s)
  resume rest (Turn.go_on attempt mode, s) = rest attempt mode s

  unfoldable pub commit_loop : ℕ → ℕ → LoadMode → S → Result (CommitError E) A × S
  commit_loop zero attempt mode s = (err CommitError.out_of_fuel, s)
  commit_loop (suc fuel) attempt mode s = resume (commit_loop fuel) (turn attempt mode s)

  -- One turn for each attempt, and one for the strict reload.
  unfoldable pub commit_attempts : S → Result (CommitError E) A × S
  commit_attempts s = commit_loop (ops.retry_limit + 2) 1 LoadMode.load_reusing s

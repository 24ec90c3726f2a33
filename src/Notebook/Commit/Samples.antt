-- ===== src/Notebook/Commit/Samples.antt =====
-- Sample runs of the loop of `commit`: an attempt that loses every race.
use slivingdoc.Base.{ℕ, suc, ◌≡◌, refl, true, false, Option, none, some, Result, ok, err}
use slivingdoc.Notebook.Commit.{LoadMode, CommitError, Attempts, turn, commit_loop, commit_attempts}
use slivingdoc.Notebook.Commit.Retries.{Ended, commit_attempts-Ended}

-- The state counts the publications of other writers, and each attempt meets one more.
abbrev losing : Attempts ℕ (Unit {0}) ℕ
losing = record {
  attempt_publication = λ mode s. (ok none, suc s);
  wait = λ attempt s. (none, s);
  engine_failed = λ e. false;
  retry_limit = 2;
}

-- The first attempt fails in the engine, and the strict one after it succeeds.
abbrev reloading : Attempts ℕ (Unit {0}) ℕ
reloading = record {
  attempt_publication = λ mode s. reload mode s;
  wait = λ attempt s. (none, s);
  engine_failed = λ e. true;
  retry_limit = 0;
}
  where
    reload : LoadMode → ℕ → Result (Unit {0}) (Option ℕ) × ℕ
    reload LoadMode.load_reusing s = (err tt, s)
    reload LoadMode.load_strict s = (ok (some s), s)

losing_is_busy : commit_attempts losing 5 ≡ (err CommitError.remote_busy, 8)
unfolding commit_attempts commit_loop turn
losing_is_busy = refl

reloading_succeeds : commit_attempts reloading 5 ≡ (ok 5, 5)
unfolding commit_attempts commit_loop turn
reloading_succeeds = refl

commit_attempts-Ended_example : Ended losing 5 (commit_attempts losing 5)
commit_attempts-Ended_example = commit_attempts-Ended losing 5

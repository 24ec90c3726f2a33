-- ===== src/Notebook/Commit/Retries.antt =====
-- The loop of `commit` of internal/notebook/commit.go ends, and with what.
use slivingdoc.Base.{
  ℕ, zero, suc, ◌+◌, ◌≤◌, ◌<◌, ◌≡◌, refl, ap, arith, Bool, true, false, Option, none, some, ltb,
  if◌then◌else◌, Result, ok, err,
}
use slivingdoc.Notebook.Commit.{
  LoadMode, CommitError, Attempts, Turn, after_attempt, after_wait, turn, resume, commit_loop,
  commit_attempts,
}

module _ {S E A : Type 0} (ops : Attempts S E A) where
  -- The turns that the loop has left behind.
  pub data Retries (s : S) : ℕ → LoadMode → S → Type 0 where
    here : Retries s 1 LoadMode.load_reusing s
    next :
        {a b : ℕ} {m n : LoadMode} {t u : S}
        → Retries s a m t
        → turn ops a m t ≡ (Turn.go_on b n, u)
        → Retries s b n u

  -- A turn that was reached within the bound gave the answer.
  pub record Ended (s : S) (answer : Result (CommitError E) A × S) : Type 0 where
    pub attempt : ℕ
    pub mode : LoadMode
    pub at : S
    pub reached : Retries s attempt mode at
    pub bounded : attempt ≤ ops.retry_limit + 1
    pub answered : turn ops attempt mode at ≡ (Turn.answer answer.0, answer.1)

  abbrev goes_on : ℕ → LoadMode → S → Turn ops × S
  goes_on a m t = (Turn.go_on a m, t)

  abbrev answers : Result (CommitError E) A → S → Turn ops × S
  answers r t = (Turn.answer r, t)

  -- The turns that the mode still allows.
  abbrev reloads : LoadMode → ℕ
  reloads LoadMode.load_reusing = 1
  reloads LoadMode.load_strict = 0

  -- Where a turn goes on, it has used a reload or a lost attempt below the bound.
  data Advances (a : ℕ) (m : LoadMode) (b : ℕ) (n : LoadMode) : Type 0 where
    reloaded : m ≡ LoadMode.load_reusing → b ≡ a → n ≡ LoadMode.load_strict → Advances a m b n
    lost : a ≤ ops.retry_limit → b ≡ a + 1 → n ≡ m → Advances a m b n

  after_attempt-Advances :
      (a b : ℕ) (m n : LoadMode) (r : Result E (Option A) × S) (u : S)
      → after_attempt ops a m r ≡ (Turn.go_on b n, u)
      → Advances a m b n
  after_attempt-Advances a b LoadMode.load_reusing n (err e, s) u h =
      on_engine (ops.engine_failed e) h
    where
      on_engine :
          (c : Bool)
          → (if c
              then goes_on a LoadMode.load_strict s
              else answers (err (CommitError.attempt_failed e)) s)
            ≡ goes_on b n u
          → Advances a LoadMode.load_reusing b n
      on_engine true q = Advances.reloaded refl (ground arith) (ground arith)
      on_engine false q = absurd (ground arith)
  after_attempt-Advances a b LoadMode.load_strict n (err e, s) u h = absurd (ground arith)
  after_attempt-Advances a b m n (ok (some v), s) u h = absurd (ground arith)
  after_attempt-Advances a b m n (ok none, s) u h = on_bound (ltb ops.retry_limit a) refl h
    where
      on_wait :
          (w : Option E × S)
          → a ≤ ops.retry_limit
          → after_wait ops a m w ≡ (Turn.go_on b n, u)
          → Advances a m b n
      on_wait (some e, t) low q = absurd (ground arith)
      on_wait (none, t) low q = Advances.lost low (ground arith) (ground arith)

      on_bound :
          (c : Bool)
          → ltb ops.retry_limit a ≡ c
          → (if c
              then answers (err CommitError.remote_busy) s
              else after_wait ops a m (ops.wait a s))
            ≡ goes_on b n u
          → Advances a m b n
      on_bound true low q = absurd (ground arith)
      on_bound false low q = on_wait (ops.wait a s) (ground (arith, low)) q

  turn-Advances :
      (a b : ℕ) (m n : LoadMode) (t u : S) → turn ops a m t ≡ (Turn.go_on b n, u) → Advances a m b n
  unfolding turn
  turn-Advances a b m n t u h = after_attempt-Advances a b m n (ops.attempt_publication m t) u h

  -- The fuel that is left covers the turns that are left.
  loop-Ended :
      (s : S) (fuel a : ℕ) (m : LoadMode) (t : S)
      → Retries s a m t
      → a ≤ ops.retry_limit + 1
      → ops.retry_limit + 1 + reloads m < fuel + a
      → Ended s (commit_loop ops fuel a m t)
  unfolding commit_loop
  loop-Ended s zero a m t reached bound fuel = absurd (omega (arith, bound, fuel))
  loop-Ended s (suc fuel) a m t reached bound enough =
      on_turn (turn ops a m t) refl (λ b n u. loop-Ended s fuel b n u)
    where
      Rest : Type 0
      Rest =
          (b : ℕ) (n : LoadMode) (u : S)
          → Retries s b n u
          → b ≤ ops.retry_limit + 1
          → ops.retry_limit + 1 + reloads n < fuel + b
          → Ended s (commit_loop ops fuel b n u)

      on_advance :
          Rest
          → (b : ℕ) (n : LoadMode) (u : S) → turn ops a m t ≡ (Turn.go_on b n, u)
          → Advances a m b n
          → Ended s (commit_loop ops fuel b n u)
      on_advance rest b n u q (Advances.reloaded p1 p2 p3) =
          rest b n u (Retries.next reached q) (omega (arith, p2, bound))
            (omega (arith, p2, enough, ap reloads p1, ap reloads p3))
      on_advance rest b n u q (Advances.lost low p2 p3) =
          rest b n u (Retries.next reached q) (omega (arith, p2, low))
            (omega (arith, p2, enough, ap reloads p3))

      on_turn :
          (v : Turn ops × S)
          → turn ops a m t ≡ v
          → Rest
          → Ended s (resume ops (commit_loop ops fuel) v)
      on_turn (Turn.answer r, u) q rest = record {
        attempt = a;
        mode = m;
        at = t;
        reached = reached;
        bounded = bound;
        answered = q;
      }
      on_turn (Turn.go_on b n, u) q rest = on_advance rest b n u q (turn-Advances a b m n t u q)

  -- The loop of a commit ends within one turn for each attempt and one for the reload: its answer is
  -- that of a turn which it reached from its start, and whose attempt is at most one past the retry
  -- limit.
  pub commit_attempts-Ended : (s : S) → Ended s (commit_attempts ops s)
  unfolding commit_attempts
  commit_attempts-Ended s =
      loop-Ended s (ops.retry_limit + 2) 1 LoadMode.load_reusing s Retries.here (omega arith)
        (omega arith)

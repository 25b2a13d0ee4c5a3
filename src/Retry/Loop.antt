-- ===== src/Retry/Loop.antt =====
-- retry/retry.go: what a run of Do does, from its loop.
use kratos_kit.Base.{
  ℕ, zero, suc, ◌+◌, ◌<◌, ◌≤◌, ◌≡◌, ◌≢◌, ◌⊎◌, inl, inr, refl, true, Option, none, some, [], length,
  All, arith, ℕ_discrete,
}
use kratos_kit.Base.Int.{ℤ, pos, ◌≤ℤ◌}
use kratos_kit.Retry.{
  Round, Retrier, Outcome, success, Iteration, leave, again, Run, run_err, limited, iterate,
  note_delay, follow, do_rounds, do_retry,
}

module _ {E R : Type 0} (r : Retrier E R) where
  -- Both contexts are seen alive round a call, which returns `o`.
  pub record Answers (w : Round E R) (o : Option E) : Type 0 where
    pub alive_before : run_err (limited r) w.entry ≡ none
    pub alive_after : run_err (limited r) w.exit ≡ none
    pub returned : w.result ≡ o

  -- A failure that the classifier lets be tried again.
  pub record FailsFor (w : Round E R) (e : E) : Type 0 where
    pub answers : Answers w (some e)
    pub retryable : r.classifier e ≡ true

  iterate-again :
      (a : ℕ) (last : Option E) (w : Round E R) (e : E) (d : Option ℤ)
      → iterate r a last w ≡ again e d
      → FailsFor w e
  unfolding iterate
  iterate-again a last w e d h = ground arith

  iterate-success :
      (a : ℕ) (last : Option E) (w : Round E R) (n : ℕ) (d : Option ℤ)
      → iterate r a last w ≡ leave n d success
      → Answers w none × (n ≡ 1)
  unfolding iterate
  iterate-success a last w n d h = ground arith

  pub Iteration-cases :
      (i : Iteration E R)
      → ((n : ℕ) × (d : Option ℤ) × (o : Outcome E R) × (i ≡ leave n d o))
        ⊎ ((e : E) × (d : Option ℤ) × (i ≡ again e d))
  Iteration-cases (leave n d o) = inl (n, d, o, refl)
  Iteration-cases (again e d) = inr (e, d, refl)

  -- An iteration calls the operation at most once; it starts a timer only behind a call, and not
  -- in the last round, and the timer's delay is positive and comes from the backoff.
  record Paces (a : ℕ) (w : Round E R) (n : ℕ) (d : Option ℤ) : Type 0 where
    at_most_once : n ≤ 1
    after_call : length (note_delay d []) ≤ n
    not_last : suc a ≡ r.max_attempts → d ≡ none
    positive : All (λ t. pos 1 ≤ℤ t) (note_delay d [])

  leave-Paces :
      (a : ℕ) (last : Option E) (w : Round E R) (n : ℕ) (d : Option ℤ) (o : Outcome E R)
      → iterate r a last w ≡ leave n d o
      → Paces a w n d
  unfolding iterate
  leave-Paces a last w n d o h = ground arith

  again-Paces :
      (a : ℕ) (last : Option E) (w : Round E R) (e : E) (d : Option ℤ)
      → iterate r a last w ≡ again e d
      → Paces a w 1 d × (suc a ≢ r.max_attempts)
  unfolding iterate
  again-Paces a last w e d h = ground arith

  -- What bounds the run of `left` rounds.
  record IsPaced (left : ℕ) (run : Run E R) : Type 0 where
    calls_le : run.calls ≤ left
    delays_le : length run.delays ≤ run.calls
    delays_lt : 0 < left → length run.delays < left
    positive : All (λ t. pos 1 ≤ℤ t) run.delays

  rounds-IsPaced_leave :
      (a left n : ℕ) (d : Option ℤ) (o : Outcome E R) (w : Round E R) (k : E → Run E R)
      → a + suc left ≡ r.max_attempts
      → Paces a w n d
      → IsPaced (suc left) (follow (leave n d o) k)
  rounds-IsPaced_leave a left n d o w k h p = ground arith

  rounds-IsPaced_again :
      (a left : ℕ) (e : E) (d : Option ℤ) (w : Round E R) (k : E → Run E R)
      → a + suc left ≡ r.max_attempts
      → Paces a w 1 d × (suc a ≢ r.max_attempts)
      → IsPaced left (k e)
      → IsPaced (suc left) (follow (again e d) k)
  rounds-IsPaced_again a left e none w k h (p, _) q = ground arith
  rounds-IsPaced_again a left e (some t) w k h (p, _) q = ground arith

  -- The rounds behind attempt `a`, which failed with `e`.
  abbrev later : (ℕ → Round E R) → ℕ → ℕ → E → Run E R
  later world left a e = do_rounds r world left (suc a) (some e)

  rounds-IsPaced :
      (world : ℕ → Round E R) (left a : ℕ) (last : Option E)
      → a + left ≡ r.max_attempts
      → IsPaced left (do_rounds r world left a last)
  unfolding do_rounds
  rounds-IsPaced world zero a last h = omega arith
  rounds-IsPaced world (suc left) a last h = elim (Iteration-cases (iterate r a last (world a))) [
    | inl (n, d, o, p) ↦ rw p (
        rounds-IsPaced_leave a left n d o (world a) (later world left a) h
          (leave-Paces a last (world a) n d o p))
    | inr (e, d, p) ↦ rw p (
        rounds-IsPaced_again a left e d (world a) (later world left a) h
          (again-Paces a last (world a) e d p)
          (rounds-IsPaced world left (suc a) (some e) (omega arith)))
  ]

  -- Do calls the operation at most max_attempts times, starts at most one timer for each call
  -- and none behind the last attempt, and every timer that it starts has a positive delay.
  pub do_retry_bounds :
      (world : ℕ → Round E R)
      → ((do_retry r world).calls ≤ r.max_attempts)
        × (length (do_retry r world).delays ≤ (do_retry r world).calls)
        × (0 < r.max_attempts → length (do_retry r world).delays < r.max_attempts)
        × All (λ t. pos 1 ≤ℤ t) (do_retry r world).delays
  unfolding do_retry
  do_retry_bounds world =
      let p = rounds-IsPaced world r.max_attempts 0 none (omega arith) in
      (p.calls_le, p.delays_le, p.delays_lt, p.positive)

  -- Attempt `k` succeeded, all before it failed in a way that may be tried again.
  pub record SucceedsAt (world : ℕ → Round E R) (k : ℕ) : Type 0 where
    pub succeeded : Answers (world k) none
    pub failed : (i : ℕ) → i < k → (e : E) × FailsFor (world i) e

  -- The same from attempt `a` on, of a run of `left` rounds.
  record SucceedsFrom (world : ℕ → Round E R) (a left : ℕ) (run : Run E R) (k : ℕ) : Type 0 where
    from : a ≤ k
    within : k < a + left
    counted : run.calls + a ≡ suc k
    succeeded : Answers (world k) none
    failed : (i : ℕ) → a ≤ i → i < k → (e : E) × FailsFor (world i) e

  SucceedsFrom-again :
      (world : ℕ → Round E R) (a left k : ℕ) (e : E) (d : Option ℤ) (rest : E → Run E R)
      → FailsFor (world a) e
      → SucceedsFrom world (suc a) left (rest e) k
      → SucceedsFrom world a (suc left) (follow (again e d) rest) k
  SucceedsFrom-again world a left k e d rest f s = record {
    from = omega (arith, s.from);
    within = omega (arith, s.within);
    counted = omega (arith, s.counted);
    succeeded = s.succeeded;
    failed = λ i p q. elim (ℕ_discrete i a) [
      | yes same ↦ (e, rw same f)
      | no other ↦ s.failed i (omega arith) q
    ];
  }

  rounds-success :
      (world : ℕ → Round E R) (left a : ℕ) (last : Option E)
      → (do_rounds r world left a last).outcome ≡ success
      → (k : ℕ) × SucceedsFrom world a left (do_rounds r world left a last) k
  unfolding do_rounds
  rounds-success world zero a last h = absurd (cc)
  rounds-success world (suc left) a last h = elim (Iteration-cases (iterate r a last (world a))) [
    | inl (n, d, o, p) ↦
        let ended : o ≡ success = rw p at h in
        let (alive, once) = iterate-success a last (world a) n d (rw (← ended) p) in
        rw p (
          a,
          record {
            from = omega arith;
            within = omega arith;
            counted = omega arith;
            succeeded = alive;
            failed = λ i from below. absurd (omega arith);
          },
        )
    | inr (e, d, p) ↦
        let ended : (later world left a e).outcome ≡ success = rw p at h in
        let (k, s) = rounds-success world left (suc a) (some e) ended in
        rw p (
          k,
          SucceedsFrom-again world a left k e d (later world left a)
              (iterate-again a last (world a) e d p) s,
        )
  ]

  -- When Do returns nil, some attempt before the limit returned nil with both contexts alive, it
  -- was the last call of the operation, and every attempt before it had failed with an error that
  -- the classifier lets be tried again.
  pub do_retry-success :
      (world : ℕ → Round E R)
      → (do_retry r world).outcome ≡ success
      → (k : ℕ) × (k < r.max_attempts) × ((do_retry r world).calls ≡ suc k) × SucceedsAt world k
  unfolding do_retry
  do_retry-success world h =
      let (k, s) = rounds-success world r.max_attempts 0 none h in
      (
        k,
        omega (arith, s.within),
        omega (arith, s.counted),
        record { succeeded = s.succeeded; failed = λ i below. s.failed i (omega arith) below },
      )

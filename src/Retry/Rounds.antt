-- ===== src/Retry/Rounds.antt =====
-- retry/retry.go: the run of Do in full, where the caller's answers lead to a given round.
use native.Mathlib.Nat.{zero-add}
use kratos_kit.Base.{
  ℕ, zero, suc, ◌+◌, ◌<◌, ◌≤◌, ◌≡◌, ◌≢◌, false, Option, none, some, List, [], arith, if◌then◌else◌,
}
use kratos_kit.Base.Int.{ℤ, pos, ltb_ℤ}
use kratos_kit.Retry.{
  Round, Retrier, Outcome, success, rejected, max_attempts_exceeded, ContextError, leave, again,
  Run, run_err, limited, interrupted, iterate, note_delay, do_rounds, do_retry,
}
use kratos_kit.Retry.Loop.{Answers, FailsFor}

module _ {E R : Type 0} (r : Retrier E R) where
  -- A failure that the loop goes on from: its wait, if it has one, runs to its end.
  pub record GoesOn (w : Round E R) (e : E) : Type 0 where
    pub fails : FailsFor r w e
    pub waited : run_err (limited r) w.wait ≡ none

  -- The wait that is due behind attempt `a`: the jitter of the backoff, if it is positive.
  abbrev pub due : ℕ → Round E R → Option ℤ
  due a w = let d = r.jitter (r.backoff (pos a)) w.draw in if ltb_ℤ (pos 0) d then some d else none

  -- The waits of `k` rounds from attempt `a` on.
  abbrev pub schedule : (ℕ → Round E R) → ℕ → ℕ → List ℤ
  schedule world a zero = []
  schedule world a (suc k) = note_delay (due a (world a)) (schedule world (suc a) k)

  -- How a round ends the run with a call of the operation.
  pub data Ends (k : ℕ) (w : Round E R) : Outcome E R → Type 0 where
    succeeds : Answers r w none → Ends k w success
    rejects : {e : E} → Answers r w (some e) → r.classifier e ≡ false → Ends k w (rejected e)
    exhausts :
        {e : E}
        → FailsFor r w e
        → suc k ≡ r.max_attempts
        → Ends k w (max_attempts_exceeded (some e))
    interrupts :
        {c : ContextError}
        → run_err (limited r) w.entry ≡ none
        → run_err (limited r) w.exit ≡ some c
        → Ends k w (interrupted w.exit w.result)

  iterate-GoesOn :
      (a : ℕ) (last : Option E) (w : Round E R) (e : E)
      → GoesOn w e
      → suc a ≢ r.max_attempts
      → iterate r a last w ≡ again e (due a w)
  unfolding iterate
  iterate-GoesOn a last w e g more = ground arith

  iterate-Ends :
      (a : ℕ) (last : Option E) (w : Round E R) (o : Outcome E R)
      → Ends a w o
      → iterate r a last w ≡ leave 1 none o
  unfolding iterate
  iterate-Ends a last w o (succeeds p) = ground arith
  iterate-Ends a last w o (rejects p q) = ground arith
  iterate-Ends a last w o (exhausts p q) = ground arith
  iterate-Ends a last w o (interrupts p q) = ground arith

  abbrev run_of : (ℕ → Round E R) → ℕ → ℕ → Outcome E R → Run E R
  run_of world a k o = record { calls = suc k; delays = schedule world a k; outcome = o }

  rounds-run :
      (world : ℕ → Round E R) (errors : ℕ → E) (k left a : ℕ) (last : Option E) (o : Outcome E R)
      → k < left
      → a + left ≡ r.max_attempts
      → ((i : ℕ) → a ≤ i → i < a + k → GoesOn (world i) (errors i))
      → Ends (a + k) (world (a + k)) o
      → do_rounds r world left a last ≡ run_of world a k o
  unfolding do_rounds
  rounds-run world errors k zero a last o below total on ends = absurd (omega arith)
  rounds-run world errors zero (suc left) a last o below total on ends =
      let same : a + 0 ≡ a = omega arith in rw (iterate-Ends a last (world a) o (rw same at ends))
  rounds-run world errors (suc k) (suc left) a last o below total on ends =
      let next : a + suc k ≡ suc a + k = omega arith in
      let ih =
        rounds-run world errors k left (suc a) (some (errors a)) o (omega arith) (omega arith)
          (λ i p q. on i (omega arith) (omega arith)) (rw next at ends) in
      rw
        (iterate-GoesOn a last (world a) (errors a) (on a (omega arith) (omega arith))
          (omega arith))
        (rw ih)

  -- Do runs as the answers lead it: if every attempt before `k` fails in a way that may be tried
  -- again, with its wait run to the end, and attempt `k` ends the run (with success, an error
  -- that may not be tried again, the last attempt used up, or a context done behind the call),
  -- then Do has called the operation k + 1 times, has slept what the jitter of the backoff gives
  -- for attempts 0 to k - 1, in order, those not positive left out, and returns that end.
  pub do_retry-run :
      (world : ℕ → Round E R) (errors : ℕ → E) (k : ℕ) (o : Outcome E R)
      → k < r.max_attempts
      → ((i : ℕ) → i < k → GoesOn (world i) (errors i))
      → Ends k (world k) o
      → do_retry r world ≡ record { calls = suc k; delays = schedule world 0 k; outcome = o }
  unfolding do_retry
  do_retry-run world errors k o below on ends =
      rounds-run world errors k r.max_attempts 0 none o below (omega arith)
        (λ i p q. on i (omega arith)) (rw zero-add ends)

-- ===== src/Retry/Tests.antt =====
-- Runs of the Retrier at concrete inputs.
use kratos_kit.Base.{
  ℕ, zero, suc, ◌≡◌, refl, ◌<◌, ◌≤◌, ◌^◌, false, Option, none, some, [], ◌∷◌, arith, All, length,
}
use kratos_kit.Base.Int.{pos, negsuc, wrap, ◌+ℤ◌, ◌*ℤ◌, ◌≤ℤ◌}
use kratos_kit.Retry.{
  Signal, Round, Retrier, success, max_attempts_exceeded, no_jitter, retry_any, do_retry, iterate,
}
use kratos_kit.Retry.Backoff.{LinearBackoff, linear_delay, linear_delay_wraps}
use kratos_kit.Retry.Loop.{do_retry_bounds}
use kratos_kit.Retry.Rounds.{exhausts, schedule, do_retry-run}

abbrev slope : LinearBackoff
slope = record { initial = pos 100; increment = pos 50; max_delay = pos 180 }

abbrev retrier : Retrier ℕ ℕ
retrier = record {
  max_attempts = 3;
  backoff = linear_delay slope;
  jitter = no_jitter;
  classifier = retry_any;
  max_total_wait = pos 0;
}

abbrev quiet : Signal
quiet = record { ctx = none; expired = false; ctx_later = none }

abbrev answer : Option ℕ → Round ℕ ℕ
answer o = record { entry = quiet; result = o; exit = quiet; draw = 0; wait = quiet }

-- Attempt 2 succeeds; the earlier ones fail.
abbrev third_time : ℕ → Round ℕ ℕ
third_time zero = answer (some 7)
third_time (suc zero) = answer (some 8)
third_time (suc (suc n)) = answer none

-- Every attempt fails with its number.
abbrev hopeless : ℕ → Round ℕ ℕ
hopeless n = answer (some n)

retries_twice :
    do_retry retrier third_time
    ≡ record { calls = 3; delays = pos 100 ∷ pos 150 ∷ []; outcome = success }
unfolding do_retry iterate linear_delay wrap ◌+ℤ◌ ◌*ℤ◌
retries_twice = refl

do_retry-run_example : do_retry retrier hopeless ≡ record {
  calls = 3;
  delays = schedule retrier hopeless 0 2;
  outcome = max_attempts_exceeded (some 2);
}
do_retry-run_example =
    do_retry-run retrier hopeless (λ n. n) 2 (max_attempts_exceeded (some 2)) (omega arith)
      (λ i h. record {
        fails = record {
          answers = record { alive_before = refl; alive_after = refl; returned = refl };
          retryable = refl;
        };
        waited = refl;
      })
      (exhausts
        (record {
          answers = record { alive_before = refl; alive_after = refl; returned = refl };
          retryable = refl;
        })
        refl)

do_retry_bounds_example :
    ((do_retry retrier hopeless).calls ≤ 3)
    × (length (do_retry retrier hopeless).delays ≤ (do_retry retrier hopeless).calls)
    × (0 < 3 → length (do_retry retrier hopeless).delays < 3)
    × All (λ t. pos 1 ≤ℤ t) (do_retry retrier hopeless).delays
do_retry_bounds_example = do_retry_bounds retrier hopeless

abbrev steep : LinearBackoff
steep = record { initial = pos (2 ^ 62); increment = pos (2 ^ 62); max_delay = pos 1000 }

linear_delay_wraps_example : linear_delay steep (pos 1) ≤ℤ negsuc 0
unfolding ◌+ℤ◌ ◌*ℤ◌
linear_delay_wraps_example = linear_delay_wraps steep 1 (omega arith) (omega arith) (omega arith)

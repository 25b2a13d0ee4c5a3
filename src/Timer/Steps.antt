-- ===== src/Timer/Steps.antt =====
-- transport/hptimer/high_precision_timer.go: runs of the engine, as sequences of the sections that
-- callers and the loop enter under `mu`, in any order.
use kratos_kit.Base.{ℕ, String, Option, some, List, [], ◌∷◌}
use kratos_kit.Base.Time.{Time}
use kratos_kit.Timer.{
  Engine, new_engine, cancel, start, stop, add_task, displace, remove_task, turn, repeat_task,
}
use kratos_kit.Timer.Heap.{Task, HeapLib}
use kratos_kit.Timer.Invariant.{
  IsSound, add_task-IsSound, displace-IsSound, remove_task-IsSound, stop-IsSound, start-IsSound,
  turn-IsSound, repeat_task-IsSound,
}
use kratos_kit.Timer.Mirror.{Mirrors-nil}

-- A section under `mu`, with its readings of the clock; `revoke` is a caller that ends a context.
pub data Command : Type 0 where
  add : ℕ → Task → Command
  displaces removes : String → Command
  turns : ℕ → Command
  repeats : ℕ → ℕ → Task → Command
  starts stops : Command
  revoke : ℕ → Command

module _ (lib : HeapLib) (next_cron : String → ℕ → Option Time) where
  unfoldable pub step : Command → Engine → Engine
  step (add now t) e = (add_task lib next_cron now t e).0
  step (displaces id) e = displace lib next_cron id e
  step (removes id) e = (remove_task lib next_cron id e).0
  step (turns now) e = (turn lib next_cron now e).0
  step (repeats fired now t) e = repeat_task lib next_cron fired now t e
  step starts e = start e
  step stops e = stop e
  step (revoke c) e = cancel (some c) e

  unfoldable pub run : List Command → Engine → Engine
  run [] e = e
  run (x ∷ xs) e = run xs (step x e)

  step-IsSound :
      (x : Command) (e : Engine) → IsSound lib next_cron e → IsSound lib next_cron (step x e)
  unfolding step
  step-IsSound (add now t) e s = add_task-IsSound lib next_cron now t e s
  step-IsSound (displaces id) e s = displace-IsSound lib next_cron id e s
  step-IsSound (removes id) e s = remove_task-IsSound lib next_cron id e s
  step-IsSound (turns now) e s = turn-IsSound lib next_cron now e s
  step-IsSound (repeats fired now t) e s = repeat_task-IsSound lib next_cron fired now t e s
  step-IsSound starts e s = start-IsSound lib next_cron e s
  step-IsSound stops e s = stop-IsSound lib next_cron e s
  step-IsSound (revoke c) e s = record { heaped = s.heaped; mirrored = s.mirrored }

  pub run_on-IsSound :
      (xs : List Command) (e : Engine) → IsSound lib next_cron e → IsSound lib next_cron (run xs e)
  unfolding run
  run_on-IsSound [] e s = s
  run_on-IsSound (x ∷ xs) e s = run_on-IsSound xs (step x e) (step-IsSound x e s)

  -- Whatever callers and the loop do, in any order, the heap of the engine is a heap, its tasks are
  -- those of the index, each under its own ID, and no ID is there twice.
  pub run-IsSound : (xs : List Command) → IsSound lib next_cron (run xs new_engine)
  run-IsSound xs =
      run_on-IsSound xs new_engine (record { heaped = lib.nil-IsHeap; mirrored = Mirrors-nil })

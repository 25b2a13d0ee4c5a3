-- ===== src/Timer/Removal.antt =====
-- transport/hptimer/high_precision_timer.go: RemoveTask, and what comes behind Stop.
use kratos_kit.Base.{
  ℕ, ◌≡◌, String, true, false, Option, some, none, List, [], ◌∷◌, ◌==◌, eq_iff, eq_refl, arith,
  Option-cases, Bool-cases, inl, inr,
}
use kratos_kit.Base.Dict.{lookup, erase, lookup-erase}
use kratos_kit.Base.Time.{Time}
use kratos_kit.Timer.{
  Engine, new_engine, with_context, cancel, quit, start, stop, enqueue, add_task, detach, pull,
  displace, remove_task, turn, repeat_task, is_over, next_time,
}
use kratos_kit.Timer.Heap.{Task, HeapLib, has_id}
use kratos_kit.Timer.Invariant.{IsSound, detach-IsSound}
use kratos_kit.Timer.Mirror.{count}
use kratos_kit.Timer.Steps.{
  Command, add, displaces, removes, turns, repeats, starts, stops, revoke, step, run, run-IsSound,
}

module _ (lib : HeapLib) (next_cron : String → ℕ → Option Time) where
  stopped_cancel : (c : Option ℕ) (e : Engine) → e.stopped ≡ true → (cancel c e).stopped ≡ true
  stopped_cancel none e h = h
  stopped_cancel (some c) e h = h

  stopped_add :
      (now : ℕ) (t : Task) (e : Engine)
      → e.stopped ≡ true
      → (add_task lib next_cron now t e).0.stopped ≡ true
  unfolding add_task enqueue with_context
  stopped_add now t e h = ground arith

  stopped_step :
      (x : Command) (e : Engine) → e.stopped ≡ true → (step lib next_cron x e).stopped ≡ true
  unfolding step add_task enqueue with_context displace detach pull remove_task turn repeat_task
      start stop
  stopped_step (add now t) e h = stopped_add now t e h
  stopped_step (displaces id) e h = elim (Option-cases (lookup id e.tasks)) [
    | inl q ↦ rw (displace, q) h
    | inr (t, q) ↦ rw (displace, q) (stopped_cancel t.cancels e h)
  ]
  stopped_step (removes id) e h = elim (Option-cases (lookup id e.tasks)) [
    | inl q ↦ rw (step, remove_task, q) h
    | inr (t, q) ↦ elim (Bool-cases e.running) [
      | inl r ↦ rw (step, remove_task, q) (simp r (stopped_cancel t.cancels e h))
      | inr r ↦ rw (step, remove_task, q) (simp r h)
    ]
  ]
  stopped_step (turns now) e h = ground arith
  stopped_step (repeats fired now t) e h = elim (Bool-cases (is_over e t)) [
    | inl q ↦ simp q h
    | inr q ↦ elim (Option-cases (next_time lib next_cron fired t)) [
      | inl r ↦ simp (q, r) h
      | inr (due, r) ↦ simp (q, r) (ground (arith, stopped_add now (record t { due = due }) e h))
    ]
  ]
  stopped_step starts e h = ground arith
  stopped_step stops e h = ground arith
  stopped_step (revoke c) e h = h

  stopped_run :
      (xs : List Command) (e : Engine) → e.stopped ≡ true → (run lib next_cron xs e).stopped ≡ true
  unfolding run
  stopped_run [] e h = h
  stopped_run (x ∷ xs) e h = stopped_run xs (step lib next_cron x e) (stopped_step x e h)

  -- Stop is for good: whatever comes behind it, Start included, the loop never triggers a task again
  -- but quits at its next turn.
  pub stop-quit :
      (xs ys : List Command) (now : ℕ)
      → (turn lib next_cron now (run lib next_cron ys (stop (run lib next_cron xs new_engine)))).1
        ≡ quit
  unfolding turn stop
  stop-quit xs ys now = ground (
    arith,
    stopped_run ys (stop (run lib next_cron xs new_engine))
        (stop_stops (run lib next_cron xs new_engine)),
  )
    where
      stop_stops : (e : Engine) → (stop e).stopped ≡ true
      stop_stops e = ground arith

  pub record Removed (id : String) (e e' : Engine) : Type 0 where
    pub gone : lookup id e'.tasks ≡ none
    pub out : count (has_id id) e'.heap ≡ 0
    pub others : (j : String) → (j == id) ≡ false → lookup j e'.tasks ≡ lookup j e.tasks
    pub cancelled :
        (t : Task) (c : ℕ) → lookup id e.tasks ≡ some t → t.cancels ≡ some c → e'.is_done c ≡ true

  detach-Removed :
      (id : String) (t : Task) (e : Engine)
      → lookup id e.tasks ≡ some t
      → IsSound lib next_cron e
      → Removed id e (detach lib next_cron t id e)
  unfolding detach
  detach-Removed id t e q s =
      let gone : lookup id (erase id e.tasks) ≡ none =
        ground (arith, lookup-erase id id e.tasks, eq_refl id) in
      let left = detach-IsSound lib next_cron id t e q s in
      record {
        gone = gone;
        out = ground (arith, left.mirrored.counted id, gone);
        others = λ j h. ground (arith, lookup-erase id j e.tasks, eq_iff id j, eq_iff j id);
        cancelled = λ u c p r. ground (arith, q, p, r);
      }

  -- After a RemoveTask that answers true, no task has its ID in index or heap, the context of the
  -- task that it found is cancelled, and the tasks of other IDs are indexed as before.
  pub remove_task-Removed :
      (xs : List Command) (id : String)
      → (remove_task lib next_cron id (run lib next_cron xs new_engine)).1 ≡ true
      → Removed id
          (run lib next_cron xs new_engine)
          (remove_task lib next_cron id (run lib next_cron xs new_engine)).0
  unfolding remove_task detach
  remove_task-Removed xs id q =
      go (run lib next_cron xs new_engine) (run-IsSound lib next_cron xs) q
    where
      go :
          (e : Engine)
          → IsSound lib next_cron e
          → (remove_task lib next_cron id e).1 ≡ true
          → Removed id e (remove_task lib next_cron id e).0
      go e s q = elim (Option-cases (lookup id e.tasks)) [
        | inl p ↦ absurd (ground arith)
        | inr (t, p) ↦
            let r : e.running ≡ true = ground (arith, q, p) in
            rw (remove_task, p) (simp r (detach-Removed id t e p s))
      ]

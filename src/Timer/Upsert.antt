-- ===== src/Timer/Upsert.antt =====
-- transport/hptimer/high_precision_timer.go: UpsertTask, with the sections of others that come between its
-- own.
use kratos_kit.Base.{
  ℕ, ◌≡◌, refl, String, true, false, Option, some, none, List, ◌==◌, eq_iff, eq_refl, arith,
  Option-cases, inl, inr,
}
use kratos_kit.Base.Dict.{lookup, lookup-erase, lookup-insert}
use kratos_kit.Base.Time.{Time, is_zero}
use kratos_kit.Timer.{
  Engine, new_engine, with_context, enqueue, add_task, detach, displace, upsert_task,
}
use kratos_kit.Timer.Heap.{Task, HeapLib, has_id}
use kratos_kit.Timer.Invariant.{IsSound, add_task-IsSound, displace-IsSound}
use kratos_kit.Timer.Mirror.{count}
use kratos_kit.Timer.Steps.{Command, run, run-IsSound, run_on-IsSound}
use kratos_kit.Timer.Absent.{AllSpareId, absent_run}

module _ (lib : HeapLib) (next_cron : String → ℕ → Option Time) where
  -- What the section of UpsertTask that comes first leaves.
  record Displaced (id : String) (e e' : Engine) : Type 0 where
    cleared : lookup id e'.tasks ≡ none
    others : (j : String) → (j == id) ≡ false → lookup j e'.tasks ≡ lookup j e.tasks
    still : e'.running ≡ e.running

  displace-Displaced : (id : String) (e : Engine) → Displaced id e (displace lib next_cron id e)
  unfolding displace detach
  displace-Displaced id e = elim (Option-cases (lookup id e.tasks)) [
    | inl q ↦ rw (displace, q) (record { cleared = q; others = λ j h. refl; still = refl })
    | inr (t, q) ↦
        rw (displace, q)
          (record {
            cleared = ground (arith, lookup-erase id id e.tasks, eq_refl id);
            others = λ j h. ground (arith, lookup-erase id j e.tasks, eq_iff id j, eq_iff j id);
            still = ground arith;
          })
  ]

  -- The task but for its context, which AddTask makes where there is none.
  abbrev pub IsLike : Task → Task → Type 0
  IsLike t u = record t { context = u.context; cancels = u.cancels } ≡ u

  -- A task that has its time is put into index and heap, once.
  pub record Places (t : Task) (e e' : Engine) : Type 0 where
    pub held : (u : Task) × (lookup t.id e'.tasks ≡ some u) × IsLike t u
    pub single : count (has_id t.id) e'.heap ≡ 1
    pub others : (j : String) → (j == t.id) ≡ false → lookup j e'.tasks ≡ lookup j e.tasks

  with_context-IsLike :
      (t : Task) (e : Engine) → IsLike t (record ((with_context t e).1) { due = t.due })
  unfolding with_context
  with_context-IsLike t e = elim (Option-cases t.context) [
    | inl q ↦ rw (with_context, q) refl
    | inr (c, q) ↦ rw (with_context, q) refl
  ]

  add_task-Places :
      (now : ℕ) (t : Task) (e : Engine)
      → e.running ≡ true
      → (t.id == "") ≡ false
      → is_zero t.due ≡ false
      → lookup t.id e.tasks ≡ none
      → IsSound lib next_cron e
      → ((add_task lib next_cron now t e).1 ≡ t.id) × Places t e (add_task lib next_cron now t e).0
  unfolding add_task enqueue with_context
  add_task-Places now t e r named dated fresh s =
      let e' = (add_task lib next_cron now t e).0 in
      let sound = add_task-IsSound lib next_cron now t e s in
      let u : Task = record ((with_context t e).1) { due = t.due } in
      let held : lookup t.id e'.tasks ≡ some u =
        ground (arith, lookup-insert t.id t.id u e.tasks, eq_refl t.id) in
      (
        ground arith,
        record {
          held = (u, held, with_context-IsLike t e);
          single = ground (arith, sound.mirrored.counted t.id, held);
          others =
              λ j h. ground (arith, lookup-insert t.id j u e.tasks, eq_iff t.id j, eq_iff j t.id);
        },
      )

  -- The engine when UpsertTask enters AddTask, after the sections `ys` of others
  abbrev pub after_displacing : List Command → List Command → String → Engine
  after_displacing xs ys id =
      run lib next_cron ys (displace lib next_cron id (run lib next_cron xs new_engine))

  -- UpsertTask of a task with an ID and a time is accepted, whatever other sections come between its
  -- first one and AddTask, provided that the engine runs after them and that none of them adds a task
  -- of this ID: then the index holds the task under its ID, unchanged but for the context that AddTask
  -- makes, the heap has one task of the ID, and the other IDs are as the sections in between left them.
  pub upsert_task-Replaces :
      (xs ys : List Command) (now : ℕ) (t : Task)
      → (after_displacing xs ys t.id).running ≡ true
      → (t.id == "") ≡ false
      → is_zero t.due ≡ false
      → AllSpareId t.id ys
      → (let (e, answer) =
            upsert_task lib next_cron
              (run lib next_cron ys)
              now
              t
              (run lib next_cron xs new_engine) in
          (answer ≡ t.id) × Places t (after_displacing xs ys t.id) e)
  upsert_task-Replaces xs ys now t r named dated spared =
      let e = run lib next_cron xs new_engine in
      let sound =
        run_on-IsSound lib next_cron ys _
          (displace-IsSound lib next_cron t.id e (run-IsSound lib next_cron xs)) in
      let cleared = absent_run lib next_cron t.id ys _ spared (displace-Displaced t.id e).cleared in
      rw named (add_task-Places now t (after_displacing xs ys t.id) r named dated cleared sound)

  -- UpsertTask of a cron task whose expression cannot be parsed is refused, and yet the task that
  -- stood under its ID is gone, whatever sections that add no task of this ID come in between.
  pub upsert_task_loses :
      (e : Engine) (ys : List Command) (now : ℕ) (t : Task)
      → (t.id == "") ≡ false
      → is_zero t.due ≡ true
      → (t.cron == "") ≡ false
      → next_cron t.cron now ≡ none
      → AllSpareId t.id ys
      → (let (e', answer) = upsert_task lib next_cron (run lib next_cron ys) now t e in
          (answer ≡ "") × (lookup t.id e'.tasks ≡ none))
  unfolding add_task with_context
  upsert_task_loses e ys now t named undated cron bad spared =
      let cleared =
        absent_run lib next_cron t.id ys (displace lib next_cron t.id e) spared
          (displace-Displaced t.id e).cleared in
      ground (arith, cleared, named, undated, cron, bad)

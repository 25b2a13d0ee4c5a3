-- ===== src/Timer/Absent.antt =====
-- transport/hptimer/high_precision_timer.go: sections that put no task under an ID in the index.
use kratos_kit.Base.{
  ℕ, ◌≡◌, refl, ap, ◌∙◌, not, ◌||◌, String, false, Option, none, List, [], ◌∷◌, ◌==◌, arith,
  Option-cases, Bool-cases, inl, inr,
}
use kratos_kit.Base.Dict.{lookup, lookup-erase, lookup-insert}
use kratos_kit.Base.Time.{Time, is_zero}
use kratos_kit.Timer.{
  Engine, with_context, start, stop, enqueue, add_task, detach, displace, remove_task, turn,
  repeat_task, is_over, next_time, due_time,
}
use kratos_kit.Timer.Heap.{Task, HeapLib}
use kratos_kit.Timer.Steps.{
  Command, add, displaces, removes, turns, repeats, starts, stops, revoke, step, run,
}

-- The section adds no task of this ID.
abbrev pub SparesId : String → Command → Type 0
SparesId id (add now t) = (t.id == id) ≡ false
SparesId id (repeats fired now t) = (t.id == id) ≡ false
SparesId id x = Unit

abbrev pub AllSpareId : String → List Command → Type 0
AllSpareId id [] = Unit
AllSpareId id (x ∷ xs) = SparesId id x × AllSpareId id xs

module _ (lib : HeapLib) (next_cron : String → ℕ → Option Time) where
  absent_enqueue :
      (id : String) (u : Task) (e : Engine)
      → (u.id == id) ≡ false
      → lookup id e.tasks ≡ none
      → lookup id (enqueue lib next_cron u e).0.tasks ≡ none
  unfolding enqueue
  absent_enqueue id u e other h = ground (arith, lookup-insert u.id id u e.tasks)

  with_context-keeps :
      (t : Task) (e : Engine)
      → ((with_context t e).0.tasks ≡ e.tasks) × ((with_context t e).1.id ≡ t.id)
  unfolding with_context
  with_context-keeps t e = ground arith

  absent_add :
      (id : String) (now : ℕ) (t : Task) (e : Engine)
      → (t.id == id) ≡ false
      → lookup id e.tasks ≡ none
      → lookup id (add_task lib next_cron now t e).0.tasks ≡ none
  unfolding add_task
  absent_add id now t e other h =
      let (same_tasks, same_id) = with_context-keeps t e in
      let there = ap (lookup id) same_tasks ∙ h in
      let enqueued = λ (due : Time).
        absent_enqueue id (record ((with_context t e).1) { due = due }) (with_context t e).0
          (ap (λ i. i == id) same_id ∙ other) there in
      elim (Bool-cases (not e.running || t.id == "")) [
        | inl q ↦ simp q h
        | inr q ↦ elim (Option-cases (due_time lib next_cron now t)) [
          | inl r ↦ simp (q, r) there
          | inr (due, r) ↦ simp (q, r) (enqueued due)
        ]
      ]

  absent_detach :
      (id j : String) (t : Task) (e : Engine)
      → lookup id e.tasks ≡ none
      → lookup id (detach lib next_cron t j e).tasks ≡ none
  unfolding detach
  absent_detach id j t e h = ground (arith, lookup-erase j id e.tasks)

  absent_turn :
      (id : String) (now : ℕ) (e : Engine) (heap : List Task)
      → e.heap ≡ heap
      → lookup id e.tasks ≡ none
      → lookup id (turn lib next_cron now e).0.tasks ≡ none
  unfolding turn
  absent_turn id now e [] p h = ground arith
  absent_turn id now e (t ∷ ts) p h = ground (arith, lookup-erase t.id id e.tasks)

  absent_step :
      (id : String) (x : Command) (e : Engine)
      → SparesId id x
      → lookup id e.tasks ≡ none
      → lookup id (step lib next_cron x e).tasks ≡ none
  unfolding step displace remove_task turn repeat_task start stop lookup
  absent_step id (add now t) e spared h = absent_add id now t e spared h
  absent_step id (displaces j) e spared h = elim (Option-cases (lookup j e.tasks)) [
    | inl q ↦ rw (displace, q) h
    | inr (t, q) ↦ rw (displace, q) (absent_detach id j t e h)
  ]
  absent_step id (removes j) e spared h = elim (Option-cases (lookup j e.tasks)) [
    | inl q ↦ rw (step, remove_task, q) h
    | inr (t, q) ↦ elim (Bool-cases e.running) [
      | inl r ↦ rw (step, remove_task, q) (simp r (absent_detach id j t e h))
      | inr r ↦ rw (step, remove_task, q) (simp r h)
    ]
  ]
  absent_step id (turns now) e spared h = absent_turn id now e e.heap refl h
  absent_step id (repeats fired now t) e spared h = elim (Bool-cases (is_over e t)) [
    | inl q ↦ simp q h
    | inr q ↦ elim (Option-cases (next_time lib next_cron fired t)) [
      | inl r ↦ simp (q, r) h
      | inr (due, r) ↦ elim (Bool-cases (is_zero due)) [
        | inl z ↦ simp (q, r, z) h
        | inr z ↦ simp (q, r, z) (absent_add id now (record t { due = due }) e spared h)
      ]
    ]
  ]
  absent_step id starts e spared h = ground arith
  absent_step id stops e spared h = ground arith
  absent_step id (revoke c) e spared h = h

  -- What is not in the index stays out of it while no section adds it.
  pub absent_run :
      (id : String) (xs : List Command) (e : Engine)
      → AllSpareId id xs
      → lookup id e.tasks ≡ none
      → lookup id (run lib next_cron xs e).tasks ≡ none
  unfolding run
  absent_run id [] e spared h = h
  absent_run id (x ∷ xs) e (spared, rest) h =
      absent_run id xs (step lib next_cron x e) rest (absent_step id x e spared h)

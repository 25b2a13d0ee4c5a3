-- ===== src/Timer/Invariant.antt =====
-- transport/hptimer/high_precision_timer.go: the heap and the index of the engine.
use kratos_kit.Base.{
  ℕ, ◌≡◌, refl, String, Option, some, List, [], ◌∷◌, ◌==◌, not, ◌||◌, eq_iff, arith, Option-cases,
  Bool-cases, inl, inr, ◌∙◌,
}
use mathlib.Core.Path.{subst}
use kratos_kit.Base.Dict.{lookup, erase}
use kratos_kit.Base.Time.{Time, is_zero}
use kratos_kit.Timer.{
  Engine, with_context, due_time, enqueue, add_task, pull, detach, is_there, displace, remove_task,
  start, stop, delay_of, turn, is_over, next_time, repeat_task,
}
use kratos_kit.Base.Int.{pos, ltb_ℤ}
use kratos_kit.Timer.Heap.{Task, HeapLib}
use kratos_kit.Timer.Mirror.{Mirrors, Mirrors-nil, Mirrors-push, Mirrors-drop, Found-of_count}

module _ (lib : HeapLib) (next_cron : String → ℕ → Option Time) where
  -- The heap is one, and the index mirrors it.
  pub record IsSound (e : Engine) : Type 0 where
    pub heaped : lib.IsHeap e.heap
    pub mirrored : Mirrors e.heap e.tasks

  pub enqueue-IsSound : (t : Task) (e : Engine) → IsSound e → IsSound (enqueue lib next_cron t e).0
  unfolding enqueue
  enqueue-IsSound t e s = elim (Bool-cases (is_zero t.due || is_there (lookup t.id e.tasks))) [
    | inl q ↦ rw q s
    | inr q ↦ rw q (record {
      heaped = lib.push-IsHeap t e.heap s.heaped;
      mirrored =
          Mirrors-push t e.heap (lib.push t e.heap) e.tasks s.mirrored (ground arith)
            (lib.push-Perm t e.heap s.heaped);
    })
  ]

  with_context-IsSound : (t : Task) (e : Engine) → IsSound e → IsSound (with_context t e).0
  unfolding with_context
  with_context-IsSound t e s = elim (Option-cases t.context) [
    | inl q ↦ rw q (record { heaped = s.heaped; mirrored = s.mirrored })
    | inr (c, q) ↦ rw q s
  ]

  pub add_task-IsSound :
      (now : ℕ) (t : Task) (e : Engine) → IsSound e → IsSound (add_task lib next_cron now t e).0
  unfolding add_task
  add_task-IsSound now t e s = elim (Bool-cases (not e.running || t.id == "")) [
    | inl q ↦ rw q s
    | inr q ↦ rw q (elim (Option-cases (due_time lib next_cron now t)) [
      | inl r ↦ rw r (with_context-IsSound t e s)
      | inr (a, r) ↦ rw r (enqueue-IsSound _ _ (with_context-IsSound t e s))
    ])
  ]

  -- The task that the index holds is the one that leaves.
  pub detach-IsSound :
      (id : String) (t : Task) (e : Engine)
      → lookup id e.tasks ≡ some t
      → IsSound e
      → IsSound (detach lib next_cron t id e)
  unfolding detach pull
  detach-IsSound id t e q s =
      let f = Found-of_count id e.heap (s.mirrored.counted id ∙ ground arith) in
      let same : f.task.id ≡ id = (eq_iff f.task.id id).0 f.named in
      rw (detach, pull, f.index)
        (record {
          heaped = lib.remove-IsHeap f.place e.heap f.task s.heaped f.there;
          mirrored =
              subst (λ k. Mirrors (lib.remove f.place e.heap) (erase k e.tasks)) same
                (Mirrors-drop f.task e.heap (lib.remove f.place e.heap) e.tasks s.mirrored
                  (lib.remove-Perm f.place e.heap f.task s.heaped f.there));
        })

  pub displace-IsSound :
      (id : String) (e : Engine) → IsSound e → IsSound (displace lib next_cron id e)
  unfolding displace
  displace-IsSound id e s = elim (Option-cases (lookup id e.tasks)) [
    | inl q ↦ rw (displace, q) s
    | inr (t, q) ↦ rw (displace, q) (detach-IsSound id t e q s)
  ]

  pub remove_task-IsSound :
      (id : String) (e : Engine) → IsSound e → IsSound (remove_task lib next_cron id e).0
  unfolding remove_task detach
  remove_task-IsSound id e s = elim (Option-cases (lookup id e.tasks)) [
    | inl q ↦ rw (remove_task, q) s
    | inr (t, q) ↦ elim (Bool-cases e.running) [
      | inl r ↦ rw (remove_task, q) (simp r (detach-IsSound id t e q s))
      | inr r ↦ rw (remove_task, q) (simp r s)
    ]
  ]

  pub stop-IsSound : (e : Engine) → IsSound e → IsSound (stop e)
  unfolding stop
  stop-IsSound e s = elim (Bool-cases e.running) [
    | inl r ↦ rw r (record { heaped = lib.nil-IsHeap; mirrored = Mirrors-nil })
    | inr r ↦ rw r (record { heaped = s.heaped; mirrored = s.mirrored })
  ]

  pub start-IsSound : (e : Engine) → IsSound e → IsSound (start e)
  unfolding start
  start-IsSound e s = elim (Bool-cases e.running) [
    | inl r ↦ simp r s
    | inr r ↦ rw r (record { heaped = s.heaped; mirrored = s.mirrored })
  ]

  -- The first task of the heap leaves it and the index.
  pub pop-IsSound :
      (t : Task) (ts : List Task) (e : Engine)
      → e.heap ≡ t ∷ ts
      → IsSound e
      → IsSound (record e { heap = lib.remove 0 (t ∷ ts); tasks = erase t.id e.tasks })
  pop-IsSound t ts e q s =
      let heaped = subst lib.IsHeap q s.heaped in
      record {
        heaped = lib.remove-IsHeap 0 (t ∷ ts) t heaped refl;
        mirrored =
            Mirrors-drop t (t ∷ ts) (lib.remove 0 (t ∷ ts)) e.tasks
              (subst (λ h. Mirrors h e.tasks) q s.mirrored)
              (lib.remove-Perm 0 (t ∷ ts) t heaped refl);
      }

  pub turn-IsSound : (now : ℕ) (e : Engine) → IsSound e → IsSound (turn lib next_cron now e).0
  unfolding turn
  turn-IsSound now e s = go e.heap refl
    where
      go : (h : List Task) → e.heap ≡ h → IsSound (turn lib next_cron now e).0
      go [] q = elim (Bool-cases (not e.running || e.stopped)) [
        | inl r ↦ simp (r, q) s
        | inr r ↦ simp (r, q) s
      ]
      go (t ∷ ts) q = elim (Bool-cases (not e.running || e.stopped)) [
        | inl r ↦ simp r s
        | inr r ↦ elim (Bool-cases (ltb_ℤ (pos 0) (delay_of now t.due))) [
          | inl d ↦
              simp (r, q, d)
                (record {
                  heaped = subst lib.IsHeap q s.heaped;
                  mirrored = subst (λ h. Mirrors h e.tasks) q s.mirrored;
                })
          | inr d ↦ simp (r, q, d) (pop-IsSound t ts e q s)
        ]
      ]

  pub repeat_task-IsSound :
      (fired now : ℕ) (t : Task) (e : Engine)
      → IsSound e
      → IsSound (repeat_task lib next_cron fired now t e)
  unfolding repeat_task
  repeat_task-IsSound fired now t e s = elim (Bool-cases (is_over e t)) [
    | inl q ↦ rw q s
    | inr q ↦ rw q (elim (Option-cases (next_time lib next_cron fired t)) [
      | inl r ↦ rw r s
      | inr (due, r) ↦ elim (Bool-cases (is_zero due)) [
        | inl z ↦ rw (r, z) s
        | inr z ↦ rw (r, z) (add_task-IsSound now (record t { due = due }) e s)
      ]
    ])
  ]

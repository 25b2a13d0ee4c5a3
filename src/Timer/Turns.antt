-- ===== src/Timer/Turns.antt =====
-- transport/hptimer/high_precision_timer.go: what the turns of the loop trigger and wait for.
use kratos_kit.Base.{
  ℕ, ◌+◌, ◌≡◌, refl, String, false, ◌||◌, not, Option, some, none, List, [], ◌∷◌, All, All-map,
  eq_refl, sym, arith, Bool-cases, inl, inr,
}
use mathlib.Core.Path.{subst}
use kratos_kit.Base.Int.{pos, ltb_ℤ}
use kratos_kit.Base.Dict.{lookup, erase, lookup-erase}
use kratos_kit.Base.Time.{Time, zero_time, at}
use kratos_kit.Timer.{Engine, new_engine, Turn, wait, trigger, delay_of, turn}
use kratos_kit.Timer.Heap.{Task, HeapLib, has_id, less, earlier}
use kratos_kit.Timer.Invariant.{IsSound, pop-IsSound}
use kratos_kit.Timer.Mirror.{Mirrors, count}
use kratos_kit.Timer.Steps.{Command, run, run-IsSound}

module _ (lib : HeapLib) (next_cron : String → ℕ → Option Time) where
  -- What a turn that triggers `t` has found, and what it leaves.
  pub record Fires (now : ℕ) (t : Task) (e e' : Engine) : Type 0 where
    pub due : earlier (at now) t.due ≡ false
    pub first : All (λ u. less u t ≡ false) e.heap
    pub held : lookup t.id e.tasks ≡ some t
    pub gone : lookup t.id e'.tasks ≡ none
    pub out : count (has_id t.id) e'.heap ≡ 0

  less_self : (t : Task) → less t t ≡ false
  less_self t = go t.due
    where
      go : (d : Time) → earlier d d ≡ false
      go zero_time = refl
      go (at n) = ground arith

  due_of_delay :
      (now : ℕ) (d : Time) → ltb_ℤ (pos 0) (delay_of now d) ≡ false → earlier (at now) d ≡ false
  due_of_delay now zero_time h = refl
  due_of_delay now (at n) h = ground arith

  pop-Fires :
      (now : ℕ) (t : Task) (ts : List Task) (e : Engine)
      → e.heap ≡ t ∷ ts
      → ltb_ℤ (pos 0) (delay_of now t.due) ≡ false
      → IsSound lib next_cron e
      → Fires now t e (record e { heap = lib.remove 0 (t ∷ ts); tasks = erase t.id e.tasks })
  pop-Fires now t ts e p d s =
      let least = lib.first_least t ts (subst lib.IsHeap p s.heaped) in
      let held = (subst (λ h. Mirrors h e.tasks) p s.mirrored).indexed.0 in
      let popped = pop-IsSound lib next_cron t ts e p s in
      let gone : lookup t.id (erase t.id e.tasks) ≡ none =
        ground (arith, lookup-erase t.id t.id e.tasks, eq_refl t.id) in
      record {
        due = due_of_delay now t.due d;
        first = subst (All (λ u. less u t ≡ false)) (sym p) (less_self t, least);
        held = held;
        gone = gone;
        out = ground (arith, popped.mirrored.counted t.id, gone);
      }

  -- A turn of the loop triggers a task only if it is due, no task of the engine is due before it,
  -- and the index holds it under its ID; the turn takes it out of heap and index.
  pub turn-trigger :
      (xs : List Command) (now : ℕ) (t : Task)
      → (turn lib next_cron now (run lib next_cron xs new_engine)).1 ≡ trigger t
      → Fires now t
          (run lib next_cron xs new_engine)
          (turn lib next_cron now (run lib next_cron xs new_engine)).0
  unfolding turn
  turn-trigger xs now t q =
      fires (run lib next_cron xs new_engine) (run lib next_cron xs new_engine).heap refl
        (run-IsSound lib next_cron xs) q
    where
      Shows : Engine → Engine × Turn → Type 0
      Shows e r = r.1 ≡ trigger t → Fires now t e r.0

      fires :
          (e : Engine) (h : List Task)
          → e.heap ≡ h
          → IsSound lib next_cron e
          → Shows e (turn lib next_cron now e)
      fires e [] p s = elim (Bool-cases (not e.running || e.stopped)) [
        | inl r ↦ simp r (λ q. absurd (cc))
        | inr r ↦ simp (r, p) (λ q. absurd (cc))
      ]
      fires e (u ∷ ts) p s = elim (Bool-cases (not e.running || e.stopped)) [
        | inl r ↦ simp r (λ q. absurd (cc))
        | inr r ↦ elim (Bool-cases (ltb_ℤ (pos 0) (delay_of now u.due))) [
          | inl d ↦ simp (r, p, d) (λ q. absurd (cc))
          | inr d ↦
              simp (r, p, d)
                (λ q.
                  let same : u ≡ t = cc in
                  let popped = record e {
                    heap = lib.remove 0 (u ∷ ts);
                    tasks = erase u.id e.tasks;
                  } in
                  subst (λ v. Fires now v e popped) same (pop-Fires now u ts e p d s))
        ]
      ]

  -- While the loop waits for `d`, no task of the engine is due before the end of that wait.
  pub turn-wait :
      (xs : List Command) (now d : ℕ)
      → (turn lib next_cron now (run lib next_cron xs new_engine)).1 ≡ wait (pos d)
      → All (λ t. earlier t.due (at (now + d)) ≡ false) (run lib next_cron xs new_engine).heap
  unfolding turn
  turn-wait xs now d q =
      waits (run lib next_cron xs new_engine) (run lib next_cron xs new_engine).heap refl
        (run-IsSound lib next_cron xs) q
    where
      later :
          (t u : Time)
          → earlier u t ≡ false
          → delay_of now t ≡ pos d
          → earlier u (at (now + d)) ≡ false
      later zero_time u h q = absurd (ground arith)
      later (at n) zero_time h q = absurd (ground arith)
      later (at n) (at m) h q = ground arith

      Late : Engine → Engine × Turn → Type 0
      Late e r = r.1 ≡ wait (pos d) → All (λ t. earlier t.due (at (now + d)) ≡ false) e.heap

      waits :
          (e : Engine) (h : List Task)
          → e.heap ≡ h
          → IsSound lib next_cron e
          → Late e (turn lib next_cron now e)
      waits e [] p s = elim (Bool-cases (not e.running || e.stopped)) [
        | inl r ↦ simp r (λ q. absurd (cc))
        | inr r ↦ simp (r, p) (λ q. absurd (cc))
      ]
      waits e (t ∷ ts) p s = elim (Bool-cases (not e.running || e.stopped)) [
        | inl r ↦ simp r (λ q. absurd (cc))
        | inr r ↦ elim (Bool-cases (ltb_ℤ (pos 0) (delay_of now t.due))) [
          | inr w ↦ simp (r, p, w) (λ q. absurd (cc))
          | inl w ↦
              simp (r, p, w)
                (λ q.
                  let same : delay_of now t.due ≡ pos d = cc in
                  (
                    later t.due t.due (less_self t) same,
                    All-map {P = λ u. less u t ≡ false}
                        {Q = λ u. earlier u.due (at (now + d)) ≡ false}
                        (λ u h. later t.due u.due h same) ts
                        (lib.first_least t ts (subst lib.IsHeap p s.heaped)),
                  ))
        ]
      ]

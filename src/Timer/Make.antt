-- ===== src/Timer/Make.antt =====
-- transport/hptimer/timer_task.go: NewTimerTask and its options. `fresh` is the number of the next
-- context, which grows with every context that is made.
use kratos_kit.Base.{ℕ, suc, ◌≡◌, ◌≤◌, refl, sym, String, Option, none, some, List, [], ◌∷◌, arith}
use mathlib.Core.Path.{subst}
use kratos_kit.Base.Int.{ℤ, pos}
use kratos_kit.Base.Time.{Time}
use kratos_kit.Timer.Heap.{Task}

-- A TimerTaskOption; `with_parent` is WithContext, whose parent may be nil.
pub data TaskOption : Type 0 where
  with_interval : ℤ → TaskOption
  with_cron : String → TaskOption
  with_payload with_priority : ℕ → TaskOption
  with_parent : Option ℕ → TaskOption

-- Options one by one, over the number of the next context
unfoldable pub apply_option : TaskOption → ℕ × Task → ℕ × Task
apply_option (with_interval d) (fresh, t) = (fresh, record t { interval = d })
apply_option (with_cron expression) (fresh, t) = (fresh, record t { cron = expression })
apply_option (with_payload p) (fresh, t) = (fresh, record t { payload = p })
apply_option (with_priority p) (fresh, t) = (fresh, record t { priority = p })
apply_option (with_parent none) (fresh, t) = (fresh, t)
apply_option (with_parent (some parent)) (fresh, t) =
    (suc fresh, record t { context = some fresh; cancels = some fresh })

unfoldable pub apply_options : List TaskOption → ℕ × Task → ℕ × Task
apply_options [] p = p
apply_options (o ∷ os) p = apply_options os (apply_option o p)

abbrev fresh_task : String → Time → ℕ → Task
fresh_task id due fresh = record {
  id = id;
  due = due;
  interval = pos 0;
  cron = "";
  priority = 2;
  payload = 0;
  context = some fresh;
  cancels = some fresh;
}

-- The end of NewTimerTask: a context without a cancel function gets one.
abbrev with_cancel_by : Option ℕ → ℕ × Task → ℕ × Task
with_cancel_by (some _) p = p
with_cancel_by none p = elim p.1.context [
  | none ↦ p
  | some _ ↦ (suc p.0, record (p.1) { context = some p.0; cancels = some p.0 })
]

abbrev pub with_cancel : ℕ × Task → ℕ × Task
with_cancel p = with_cancel_by p.1.cancels p

-- NewTimerTask
unfoldable pub new_timer_task : String → Time → List TaskOption → ℕ → ℕ × Task
new_timer_task id due os fresh = with_cancel (apply_options os (suc fresh, fresh_task id due fresh))

-- A task whose cancel function ends its own context, made before `fresh`.
pub record IsCancellable (p : ℕ × Task) : Type 0 where
  pub number : ℕ
  pub own : p.1.context ≡ some number
  pub ends : p.1.cancels ≡ some number
  pub made : suc number ≤ p.0

apply_option-IsCancellable :
    (o : TaskOption) (p : ℕ × Task) → IsCancellable p → IsCancellable (apply_option o p)
unfolding apply_option
apply_option-IsCancellable (with_interval d) (fresh, t) h = record {
  number = h.number;
  own = h.own;
  ends = h.ends;
  made = h.made;
}
apply_option-IsCancellable (with_cron e) (fresh, t) h = record {
  number = h.number;
  own = h.own;
  ends = h.ends;
  made = h.made;
}
apply_option-IsCancellable (with_payload q) (fresh, t) h = record {
  number = h.number;
  own = h.own;
  ends = h.ends;
  made = h.made;
}
apply_option-IsCancellable (with_priority q) (fresh, t) h = record {
  number = h.number;
  own = h.own;
  ends = h.ends;
  made = h.made;
}
apply_option-IsCancellable (with_parent none) (fresh, t) h = h
apply_option-IsCancellable (with_parent (some parent)) (fresh, t) h = record {
  number = fresh;
  own = refl;
  ends = refl;
  made = omega arith;
}

apply_options-IsCancellable :
    (os : List TaskOption) (p : ℕ × Task) → IsCancellable p → IsCancellable (apply_options os p)
unfolding apply_options
apply_options-IsCancellable [] p h = h
apply_options-IsCancellable (o ∷ os) p h =
    apply_options-IsCancellable os (apply_option o p) (apply_option-IsCancellable o p h)

-- Whatever the options, the task that NewTimerTask makes has a context of its own, and its cancel
-- function ends that context.
pub new_timer_task-IsCancellable :
    (id : String) (due : Time) (os : List TaskOption) (fresh : ℕ)
    → IsCancellable (new_timer_task id due os fresh)
unfolding new_timer_task
new_timer_task-IsCancellable id due os fresh =
    kept (apply_options os (suc fresh, fresh_task id due fresh)) (
      apply_options-IsCancellable os (suc fresh, fresh_task id due fresh)
        (record { number = fresh; own = refl; ends = refl; made = omega arith }))
  where
    kept : (p : ℕ × Task) → IsCancellable p → IsCancellable (with_cancel p)
    kept p h = subst (λ c. IsCancellable (with_cancel_by c p)) (sym h.ends) h

-- ===== src/Timer/Heap.antt =====
-- transport/hptimer/timer_task.go and timer_heap.go: tasks, their order, and container/heap as the
-- engine uses it. The laws are those that its package documents, over Less and an initialised heap.
use kratos_kit.Base.{
  ℕ, zero, suc, ◌≡◌, refl, ◌++◌, String, Bool, true, false, Option, none, some, List, [], ◌∷◌, ◌==◌,
  ltb, get_elem?, All,
}
use mathlib.Core.List.{Permᴰ}
use kratos_kit.Base.Int.{ℤ}
use kratos_kit.Base.Time.{Time, zero_time, at}

-- TimerTask: `due` is At, `payload` stands for Data and Callback, which the engine hands on only.
-- A context has a number; `cancels` is the context that `cancel` ends, if it is not nil.
pub record Task : Type 0 where
  pub id : String
  pub due : Time
  pub interval : ℤ
  pub cron : String
  pub priority : ℕ
  pub payload : ℕ
  pub context : Option ℕ
  pub cancels : Option ℕ

abbrev pub has_id : String → Task → Bool
has_id id t = t.id == id

-- a.Before(b)
abbrev pub earlier : Time → Time → Bool
earlier zero_time zero_time = false
earlier zero_time (at n) = true
earlier (at m) zero_time = false
earlier (at m) (at n) = ltb m n

-- Less
abbrev pub less : Task → Task → Bool
less t u = earlier t.due u.due

-- Swap, Push and Pop of timerHeap, which container/heap calls and the engine does not; none for a panic.
-- Len is `length`.
unfoldable pub set_task : ℕ → Task → List Task → List Task
set_task i t [] = []
set_task zero t (u ∷ h) = t ∷ h
set_task (suc i) t (u ∷ h) = u ∷ set_task i t h

abbrev exchanged : ℕ → ℕ → List Task → Option Task → Option Task → Option (List Task)
exchanged i j h (some t) (some u) = some (set_task j t (set_task i u h))
exchanged i j h t u = none

abbrev pub swap : ℕ → ℕ → List Task → Option (List Task)
swap i j h = exchanged i j h (get_elem? h i) (get_elem? h j)

abbrev pub push_last : Task → List Task → List Task
push_last t h = h ++ t ∷ []

unfoldable pub pop_last : List Task → Option (Task × List Task)
pop_last [] = none
pop_last (t ∷ h) = elim (pop_last h) [ none ↦ some (t, []) | some (u, rest) ↦ some (u, t ∷ rest) ]

-- Pop takes out what Push has put in last, which container/heap relies on.
pop_last-push_last : (t : Task) (h : List Task) → pop_last (push_last t h) ≡ some (t, h)
unfolding pop_last
pop_last-push_last t [] = refl
pop_last-push_last t (u ∷ h) = rw (pop_last-push_last t h) refl

-- Push, Remove and Pop (which is Remove at 0) of container/heap over these methods: they keep a heap a heap, add or
-- take out just the element in question, and nothing is less than the first element.
pub record HeapLib : Type 1 where
  pub push : Task → List Task → List Task
  pub remove : ℕ → List Task → List Task
  pub IsHeap : List Task → Type 0
  pub nil-IsHeap : IsHeap []
  pub push-IsHeap : (t : Task) (h : List Task) → IsHeap h → IsHeap (push t h)
  pub push-Perm : (t : Task) (h : List Task) → IsHeap h → Permᴰ (push t h) (t ∷ h)
  pub remove-IsHeap :
      (i : ℕ) (h : List Task) (t : Task) → IsHeap h → get_elem? h i ≡ some t → IsHeap (remove i h)
  pub remove-Perm :
      (i : ℕ) (h : List Task) (t : Task)
      → IsHeap h
      → get_elem? h i ≡ some t
      → Permᴰ h (t ∷ remove i h)
  pub first_least : (t : Task) (h : List Task) → IsHeap (t ∷ h) → All (λ u. less u t ≡ false) h

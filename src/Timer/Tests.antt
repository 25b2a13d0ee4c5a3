-- ===== src/Timer/Tests.antt =====
-- A timer over a sorted list, at concrete inputs.
use kratos_kit.Base.{
  ℕ, zero, suc, ◌+◌, ◌≡◌, refl, String, true, false, Option, some, none, List, [], ◌∷◌, ◌==◌, All,
  All-map, get_elem?, arith, if◌then◌else◌, Bool-cases, inl, inr,
}
use mathlib.Core.List.{Permᴰ}
use mathlib.Core.List.Permᴰ
use kratos_kit.Base.Int.{pos}
use kratos_kit.Base.Dict.{lookup, insert, erase}
use kratos_kit.Base.Time.{Time, zero_time, at}
use kratos_kit.Timer.{
  displace, new_engine, with_context, quit, wait, trigger, start, stop, enqueue, add_task, pull,
  detach, upsert_task, remove_task, turn, index_of,
}
use kratos_kit.Timer.Heap.{Task, HeapLib, less, earlier}
use kratos_kit.Timer.Invariant.{IsSound}
use kratos_kit.Timer.Steps.{Command, add, starts, step, run, run-IsSound, removes}
use kratos_kit.Timer.Turns.{Fires, turn-trigger}
use kratos_kit.Timer.Removal.{stop-quit, Removed, remove_task-Removed}
use kratos_kit.Timer.Upsert.{Places, after_displacing, upsert_task-Replaces, upsert_task_loses}

abbrev put : Task → List Task → List Task
put t [] = t ∷ []
put t (u ∷ us) = let rest = put t us in if less t u then t ∷ u ∷ us else u ∷ rest

abbrev remove_at : ℕ → List Task → List Task
remove_at i [] = []
remove_at zero (t ∷ ts) = ts
remove_at (suc i) (t ∷ ts) = t ∷ remove_at i ts

abbrev IsSorted : List Task → Type 0
IsSorted [] = Unit
IsSorted (t ∷ ts) = All (λ u. less u t ≡ false) ts × IsSorted ts

earlier_trans : (a b c : Time) → earlier a b ≡ true → earlier c b ≡ false → earlier c a ≡ false
earlier_trans zero_time b zero_time h k = refl
earlier_trans zero_time b (at n) h k = refl
earlier_trans (at m) zero_time c h k = absurd (ground arith)
earlier_trans (at m) (at n) zero_time h k = absurd (ground arith)
earlier_trans (at m) (at n) (at o) h k = ground arith

earlier_asym : (a b : Time) → earlier a b ≡ true → earlier b a ≡ false
earlier_asym zero_time zero_time h = refl
earlier_asym zero_time (at n) h = refl
earlier_asym (at m) zero_time h = absurd (ground arith)
earlier_asym (at m) (at n) h = ground arith

All-put : (P : Task → Type 0) (t : Task) (h : List Task) → P t → All P h → All P (put t h)
All-put P t [] p ps = (p, tt)
All-put P t (u ∷ us) p (q, ps) = elim (Bool-cases (less t u)) [
  | inl e ↦ rw e (p, (q, ps))
  | inr e ↦ rw e (q, All-put P t us p ps)
]

put-IsSorted : (t : Task) (h : List Task) → IsSorted h → IsSorted (put t h)
put-IsSorted t [] s = (tt, tt)
put-IsSorted t (u ∷ us) (least, s) = elim (Bool-cases (less t u)) [
  | inl e ↦ rw e (
    (
      earlier_asym t.due u.due e,
      All-map {P = λ v. less v u ≡ false} {Q = λ v. less v t ≡ false}
          (λ v k. earlier_trans t.due u.due v.due e k) us least,
    ),
    (least, s),
  )
  | inr e ↦ rw e (All-put (λ v. less v u ≡ false) t us e least, put-IsSorted t us s)
]

put-Perm : (t : Task) (h : List Task) → Permᴰ (put t h) (t ∷ h)
put-Perm t [] = Permᴰ.refl (t ∷ [])
put-Perm t (u ∷ us) = elim (Bool-cases (less t u)) [
  | inl e ↦ rw e (Permᴰ.refl (t ∷ u ∷ us))
  | inr e ↦ rw e (Permᴰ.trans (Permᴰ.cons refl (put-Perm t us)) (Permᴰ.swap refl refl))
]

All-remove_at : (P : Task → Type 0) (i : ℕ) (h : List Task) → All P h → All P (remove_at i h)
All-remove_at P i [] a = tt
All-remove_at P zero (t ∷ ts) (p, ps) = ps
All-remove_at P (suc i) (t ∷ ts) (p, ps) = (p, All-remove_at P i ts ps)

remove_at-IsSorted : (i : ℕ) (h : List Task) → IsSorted h → IsSorted (remove_at i h)
remove_at-IsSorted i [] s = tt
remove_at-IsSorted zero (t ∷ ts) (a, s) = s
remove_at-IsSorted (suc i) (t ∷ ts) (a, s) =
    (All-remove_at (λ u. less u t ≡ false) i ts a, remove_at-IsSorted i ts s)

remove_at-Perm :
    (i : ℕ) (h : List Task) (t : Task) → get_elem? h i ≡ some t → Permᴰ h (t ∷ remove_at i h)
remove_at-Perm i [] t q = absurd (cc)
remove_at-Perm zero (u ∷ us) t q = let e : u ≡ t = cc in rw e (Permᴰ.refl (t ∷ us))
remove_at-Perm (suc i) (u ∷ us) t q =
    Permᴰ.trans (Permᴰ.cons refl (remove_at-Perm i us t q)) (Permᴰ.swap refl refl)

abbrev sorted : HeapLib
sorted = record {
  push = put;
  remove = remove_at;
  IsHeap = IsSorted;
  nil-IsHeap = tt;
  push-IsHeap = put-IsSorted;
  push-Perm = λ t h s. put-Perm t h;
  remove-IsHeap = λ i h t s q. remove_at-IsSorted i h s;
  remove-Perm = λ i h t s q. remove_at-Perm i h t q;
  first_least = λ t h s. s.0;
}

-- An expression is "@10" or cannot be parsed.
abbrev cron_of : String → ℕ → Option Time
cron_of expression now = if expression == "@10" then some (at (now + 10)) else none

abbrev once : String → ℕ → Task
once id n = record {
  id = id;
  due = at n;
  interval = pos 0;
  cron = "";
  priority = 2;
  payload = 0;
  context = none;
  cancels = none;
}

abbrev script : List Command
script = starts ∷ add 0 (once "a" 50) ∷ add 0 (once "b" 20) ∷ add 0 (once "a" 10) ∷ []

due_first :
    (turn sorted cron_of 30 (run sorted cron_of script new_engine)).1
    ≡ trigger (record (once "b" 20) { context = some 1; cancels = some 1 })
unfolding run step start add_task enqueue with_context turn lookup insert erase
due_first = refl

run-IsSound_example : IsSound sorted cron_of (run sorted cron_of script new_engine)
run-IsSound_example = run-IsSound sorted cron_of script

turn-trigger_example :
    Fires sorted cron_of 30
      (record (once "b" 20) { context = some 1; cancels = some 1 })
      (run sorted cron_of script new_engine)
      (turn sorted cron_of 30 (run sorted cron_of script new_engine)).0
turn-trigger_example =
    turn-trigger sorted cron_of script 30
      (record (once "b" 20) { context = some 1; cancels = some 1 }) due_first

waits_for_b : (turn sorted cron_of 5 (run sorted cron_of script new_engine)).1 ≡ wait (pos 15)
unfolding run step start add_task enqueue with_context turn lookup insert erase
waits_for_b = refl

stop-quit_example :
    (turn sorted cron_of 99 (
      run sorted cron_of
        (starts ∷ add 0 (once "c" 1) ∷ [])
        (stop (run sorted cron_of script new_engine)))).1
    ≡ quit
stop-quit_example = stop-quit sorted cron_of script (starts ∷ add 0 (once "c" 1) ∷ []) 99

removes_a : (remove_task sorted cron_of "a" (run sorted cron_of script new_engine)).1 ≡ true
unfolding run step start add_task enqueue with_context remove_task detach pull index_of lookup
    insert erase
removes_a = refl

remove_task-Removed_example :
    Removed sorted cron_of "a"
      (run sorted cron_of script new_engine)
      (remove_task sorted cron_of "a" (run sorted cron_of script new_engine)).0
remove_task-Removed_example = remove_task-Removed sorted cron_of script "a" removes_a

runs : (run sorted cron_of script new_engine).running ≡ true
unfolding run step start add_task enqueue with_context lookup insert erase
runs = refl

-- Another client's sections, while UpsertTask does not hold the mutex
abbrev between : List Command
between = removes "b" ∷ add 0 (once "c" 7) ∷ []

runs_between : (after_displacing sorted cron_of script between "a").running ≡ true
unfolding run step start add_task enqueue with_context remove_task displace detach pull index_of
    lookup insert erase
runs_between = refl

upsert_task-Replaces_example :
    (let (e, answer) =
        upsert_task sorted cron_of
          (run sorted cron_of between)
          0
          (once "a" 5)
          (run sorted cron_of script new_engine) in
      (answer ≡ "a")
      × Places sorted cron_of (once "a" 5) (after_displacing sorted cron_of script between "a") e)
upsert_task-Replaces_example =
    upsert_task-Replaces sorted cron_of script between 0 (once "a" 5) runs_between refl refl
      (tt, (refl, tt))

abbrev broken : Task
broken = record (once "a" 0) { due = zero_time; cron = "every day" }

upsert_task_loses_example :
    (let (e, answer) =
        upsert_task sorted cron_of
          (run sorted cron_of between)
          0
          broken
          (run sorted cron_of script new_engine) in
      (answer ≡ "") × (lookup "a" e.tasks ≡ none))
upsert_task_loses_example =
    upsert_task_loses sorted cron_of (run sorted cron_of script new_engine) between 0 broken refl
      refl refl refl (tt, (refl, tt))

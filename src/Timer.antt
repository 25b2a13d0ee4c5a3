-- ===== src/Timer.antt =====
-- transport/hptimer/high_precision_timer.go and timer_task.go: the timer engine. Each function is
-- one section under `mu` of AddTask, UpsertTask, RemoveTask, Start, Stop or run, with the reading
-- of the clock that it makes. container/heap is an interface (Timer/Heap), the cron library a
-- parameter: the next time behind a reading, or none for an expression that it cannot parse.
pub mod Heap
pub mod Make
pub mod Mirror
pub mod Invariant
pub mod Steps
pub mod Turns
pub mod Removal
pub mod Absent
pub mod Upsert
mod Tests
use kratos_kit.Base.{
  ℕ, suc, ◌+◌, ◌^◌, String, Bool, true, false, ◌&&◌, ◌||◌, not, Option, none, some, List, [], ◌∷◌,
  ◌==◌, nat_eq, if◌then◌else◌,
}
use kratos_kit.Base.Int.{ℤ, pos, pos_part, sub_ℕ, ltb_ℤ}
use kratos_kit.Base.Dict.{Dict, lookup, insert, erase}
use kratos_kit.Base.Time.{Time, zero_time, at, is_zero}
use kratos_kit.Timer.Heap.{Task, HeapLib, has_id}

-- HighPrecisionTimer. `stopped` is whether its context is done, `timer` the delay of the timer that
-- runs, `wakeup` whether a send has filled the channel of capacity 1 (the loop empties it between
-- its turns). The contexts of tasks are numbered: `is_done` is whether one has ended, `fresh` the
-- number of the next.
pub record Engine : Type 0 where
  pub heap : List Task
  pub tasks : Dict Task
  pub running : Bool
  pub stopped : Bool
  pub timer : Option ℤ
  pub wakeup : Bool
  pub is_done : ℕ → Bool
  pub fresh : ℕ

-- NewHighPrecisionTimer
abbrev pub new_engine : Engine
new_engine = record {
  heap = [];
  tasks = [];
  running = false;
  stopped = false;
  timer = none;
  wakeup = false;
  is_done = λ _. false;
  fresh = 0;
}

-- A call of a cancel function, if it is not nil.
abbrev pub cancel : Option ℕ → Engine → Engine
cancel none e = e
cancel (some c) e = record e { is_done = λ d. if nat_eq c d then true else e.is_done d }

-- task.Ctx.Err() != nil
abbrev pub is_over : Engine → Task → Bool
is_over e t = elim t.context [ none ↦ false | some c ↦ e.is_done c ]

-- A task without a context gets one, with the function that cancels it.
unfoldable pub with_context : Task → Engine → Engine × Task
with_context t e = elim t.context [
  | some c ↦ (e, t)
  | none ↦ (
    record e { fresh = suc e.fresh },
    record t { context = some e.fresh; cancels = some e.fresh },
  )
]

abbrev pub is_there : Option Task → Bool
is_there none = false
is_there (some t) = true

-- ht.heap[0] == task, where the heap holds no ID twice
abbrev is_first : String → List Task → Bool
is_first id [] = false
is_first id (t ∷ ts) = has_id id t

-- The index of the first task of the heap with an ID.
unfoldable pub index_of : String → List Task → Option ℕ
index_of id [] = none
index_of id (t ∷ ts) = elim (index_of id ts) [
  | none ↦ if has_id id t then some 0 else none
  | some i ↦ some (if has_id id t then 0 else suc i)
]

unfoldable pub cancel_all : Dict Task → Engine → Engine
cancel_all [] e = e
cancel_all ((id, t) ∷ ts) e = cancel_all ts (cancel t.cancels e)

-- Start
unfoldable pub start : Engine → Engine
start e = if e.running then e else record e { running = true }

-- Stop up to the wait for the loop
unfoldable pub stop : Engine → Engine
stop e = if not e.running then record e { stopped = true } else record (cancel_all e.tasks e) {
  stopped = true;
  running = false;
  timer = none;
  heap = [];
  tasks = [];
}

-- nextTask.At.Sub(now)
abbrev pub delay_of : ℕ → Time → ℤ
delay_of now zero_time = sub_ℕ 0 (2 ^ 63)
delay_of now (at n) = sub_ℕ n now

-- What the loop does next.
pub data Turn : Type 0 where
  quit sleep : Turn
  wait : ℤ → Turn
  trigger : Task → Turn

module _ (lib : HeapLib) (next_cron : String → ℕ → Option Time) where
  -- The last two guards of AddTask and what follows them.
  unfoldable pub enqueue : Task → Engine → Engine × String
  enqueue t e =
      let heap = lib.push t e.heap in
      if is_zero t.due || is_there (lookup t.id e.tasks) then (e, "") else (
        record e {
          heap = heap;
          tasks = insert t.id t e.tasks;
          wakeup = is_first t.id heap || e.wakeup;
        },
        t.id,
      )

  -- The time of a cron task that has none yet.
  abbrev pub due_time : ℕ → Task → Option Time
  due_time now t = if is_zero t.due && not (t.cron == "") then next_cron t.cron now else some t.due

  -- AddTask; the answer "" stands for a refusal
  unfoldable pub add_task : ℕ → Task → Engine → Engine × String
  unfolding enqueue
  add_task now t e = if not e.running || t.id == "" then (e, "") else elim (due_time now t) [
    | none ↦ ((with_context t e).0, "")
    | some due ↦ enqueue (record ((with_context t e).1) { due = due }) ((with_context t e).0)
  ]

  unfoldable pub pull : String → List Task → List Task
  pull id h = elim (index_of id h) [ none ↦ h | some i ↦ lib.remove i h ]

  -- The task leaves heap and index, its context cancelled.
  unfoldable pub detach : Task → String → Engine → Engine
  unfolding pull
  detach t id e = record (cancel t.cancels e) { heap = pull id e.heap; tasks = erase id e.tasks }

  -- The first section of UpsertTask
  unfoldable pub displace : String → Engine → Engine
  unfolding detach
  displace id e = elim (lookup id e.tasks) [ none ↦ e | some t ↦ detach t id e ]

  -- UpsertTask; `between` is what other sections do while it does not hold `mu`, after its own first
  -- section and before AddTask.
  abbrev pub upsert_task : (Engine → Engine) → ℕ → Task → Engine → Engine × String
  upsert_task between now t e =
      if t.id == "" then (e, "") else add_task now t (between (displace t.id e))

  -- RemoveTask
  unfoldable pub remove_task : String → Engine → Engine × Bool
  unfolding detach
  remove_task id e = elim (lookup id e.tasks) [
    | none ↦ (e, false)
    | some t ↦ if not e.running then (e, false) else (detach t id e, true)
  ]

  -- A turn of the loop of run, up to where it unlocks `mu`
  unfoldable pub turn : ℕ → Engine → Engine × Turn
  turn now e = if not e.running || e.stopped then (e, quit) else elim e.heap [
    | [] ↦ (e, sleep)
    | t ∷ ts ↦
        if ltb_ℤ (pos 0) (delay_of now t.due)
        then (record e { timer = some (delay_of now t.due) }, wait (delay_of now t.due))
        else (record e { heap = lib.remove 0 (t ∷ ts); tasks = erase t.id e.tasks }, trigger t)
  ]

  -- The time of the next run of a task that repeats.
  abbrev pub next_time : ℕ → Task → Option Time
  next_time fired t =
      if ltb_ℤ (pos 0) t.interval
      then some (at (fired + pos_part t.interval))
      else if not (t.cron == "")
      then next_cron t.cron fired
      else none

  -- handleRepeatTask; `fired` is the reading of the turn, `now` the one that AddTask may make
  unfoldable pub repeat_task : ℕ → ℕ → Task → Engine → Engine
  repeat_task fired now t e = if is_over e t then e else elim (next_time fired t) [
    | none ↦ e
    | some due ↦ if is_zero due then e else (add_task now (record t { due = due }) e).0
  ]

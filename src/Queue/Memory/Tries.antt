-- ===== src/Queue/Memory/Tries.antt =====
-- queue/memory/memory.go: how often a message is handed to a consumer, and where messages are.
use kratos_kit.Base.{
  ℕ, suc, ◌+◌, ◌-◌, ◌≤◌, ◌≡◌, refl, String, true, List, arith, max, ◌==◌, if◌then◌else◌,
}
use kratos_kit.Base.Int.{ℤ, pos, negsuc, ltb_ℤ, ◌+ℤ◌}
use kratos_kit.Queue.Memory.{Message, Action, make_queue, run}
use kratos_kit.Queue.Memory.Weight.{weigh, weigh_zero, held}
use kratos_kit.Queue.Memory.Balance.{run-IsBalanced}

-- The calls that a message with this count of errors is good for
abbrev pub tries : ℤ → ℕ
tries (pos n) = max 1 (4 - n)
tries (negsuc n) = suc (suc (suc (suc (suc n))))

abbrev pub is_one : String → Message → ℕ
is_one id m = if m.id == id then 1 else 0

abbrev pub tries_of : String → Message → ℕ
tries_of id m = if m.id == id then tries m.error_count else 0

abbrev tries_left : String → Message → ℕ
tries_left id m = tries_of id m - is_one id m

pub tries-pos : (e : ℤ) → 1 ≤ tries e
tries-pos (pos n) = omega arith
tries-pos (negsuc n) = omega arith

pub tries-next : (e : ℤ) → ltb_ℤ e (pos 3) ≡ true → tries (e +ℤ pos 1) + 1 ≡ tries e
unfolding ◌+ℤ◌
tries-next (pos n) h = ground arith
tries-next (negsuc n) h = ground arith

-- The bound for one stream, whatever the order of its actions
pub calls-le :
    (xs : List Action) (pool_num : ℤ) (id : String)
    → weigh (is_one id) (run xs (make_queue pool_num)).calls
      ≤ weigh (tries_of id) (run xs (make_queue pool_num)).appended
unfolding weigh
calls-le xs pool_num id =
    let balance =
      run-IsBalanced (tries_of id) (tries_left id) (is_one id)
        (λ m. ground (arith, tries-pos m.error_count))
        (λ m p. ground (arith, tries-next m.error_count p)) xs (make_queue pool_num) refl in
    omega (arith, balance)

-- However they take turns, each message that Append took is in one place: of the messages with an ID,
-- those done with, those dropped for the end of the queue, those whose send waits, those in the channel
-- and those that consumers hold are as many as were appended.
pub places-appended :
    (xs : List Action) (pool_num : ℤ) (id : String)
    → (let s = run xs (make_queue pool_num) in
        let n = is_one id in
        weigh n s.finished
          + weigh n s.lost
          + (weigh n s.pending + weigh n s.buffer + weigh (held n n (λ m. 0)) s.consumers)
        ≡ weigh n s.appended)
unfolding weigh
places-appended xs pool_num id =
    let n = is_one id in
    let s = run xs (make_queue pool_num) in
    let balance =
      run-IsBalanced n n (λ m. 0) (λ m. omega arith) (λ m p. refl) xs (make_queue pool_num) refl in
    omega (arith, balance, weigh_zero s.calls)

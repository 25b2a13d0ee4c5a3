-- ===== src/Queue/Memory.antt =====
-- queue/memory/memory.go: one stream of the in-process queue: its channel, the goroutines that Append
-- has started, and the consumers. An action is what one goroutine does between two points where it
-- can be held up; `none` means that it is held up.
pub mod Weight
pub mod Balance
pub mod Tries
pub mod Stuck
pub mod Ends
pub mod Streams
mod Tests
use kratos_kit.Base.{
  ℕ, zero, suc, ◌+◌, ◌≡◌, String, Bool, true, false, ◌&&◌, ◌||◌, not, Option, none, some, List, [],
  ◌∷◌, ◌++◌, length, ltb, nat_eq, ◌==◌, if◌then◌else◌,
}
use kratos_kit.Base.Int.{ℤ, pos, pos_part, ltb_ℤ, ◌+ℤ◌}
use kratos_kit.Base.Dict.{Dict}

-- Message; the queue does not read the values.
pub record Message : Type 0 where
  pub id : String
  pub values : Dict String
  pub error_count : ℤ

-- Where a goroutine of consume is: at the first select, in the consumer function, at the timer of a
-- retry, at the send behind it, or at its end
pub data Consumer : Type 0 where
  idle gone : Consumer
  working waiting resending : Message → Consumer

-- A stream: what the goroutines of Append hold, the channel with its capacity, the consumers, and
-- whether `closing` is closed; then what has happened: the messages that Append took, the calls of the
-- consumer function, the messages that are done with, and those dropped for the end of the queue.
pub record Stream : Type 0 where
  pub pending : List Message
  pub buffer : List Message
  pub capacity : ℕ
  pub consumers : List Consumer
  pub closed : Bool
  pub appended : List Message
  pub calls : List Message
  pub finished : List Message
  pub lost : List Message

-- makeQueue
abbrev pub make_queue : ℤ → Stream
make_queue pool_num = record {
  pending = [];
  buffer = [];
  capacity = if ltb_ℤ (pos 0) pool_num then pos_part pool_num else 0;
  consumers = [];
  closed = false;
  appended = [];
  calls = [];
  finished = [];
  lost = [];
}

unfoldable pub at {ℓ} : {A : Type ℓ} → ℕ → List A → Option A
at n [] = none
at zero (x ∷ l) = some x
at (suc n) (x ∷ l) = at n l

unfoldable pub set_at {ℓ} : {A : Type ℓ} → ℕ → A → List A → List A
set_at n a [] = []
set_at zero a (x ∷ l) = a ∷ l
set_at (suc n) a (x ∷ l) = x ∷ set_at n a l

unfoldable pub remove_at {ℓ} : {A : Type ℓ} → ℕ → List A → List A
remove_at n [] = []
remove_at zero (x ∷ l) = l
remove_at (suc n) (x ∷ l) = x ∷ remove_at n l

pub data Action : Type 0 where
  append : String → Message → Action
  register shutdown : Action
  send drop : ℕ → Action
  hand : ℕ → ℕ → Action
  receive expire resend leave : ℕ → Action
  finish : ℕ → Bool → Action
  resend_to : ℕ → ℕ → Action

-- The message of the goroutine that Append starts; `fresh` is the uuid.
abbrev pub with_id : String → Message → Message
with_id fresh m = if m.id == "" then record m { id = fresh } else m

abbrev pub is_idle : Option Consumer → Bool
is_idle (some idle) = true
is_idle c = false

abbrev pub has_room : Stream → Bool
has_room s = ltb (length s.buffer) s.capacity

abbrev pub is_empty : List Message → Bool
is_empty [] = true
is_empty (m ∷ l) = false

abbrev pub only_if {ℓ} : {A : Type ℓ} → Bool → A → Option A
only_if true a = some a
only_if false a = none

-- A consumer gets a message and calls the function.
abbrev pub start_work : ℕ → Message → Stream → Stream
start_work j m s = record s { consumers = set_at j (working m) s.consumers; calls = m ∷ s.calls }

abbrev end_work : ℕ → Message → Stream → Stream
end_work j m s = record s { consumers = set_at j idle s.consumers; finished = m ∷ s.finished }

-- The consumer function returned: nil if `good`.
abbrev pub after_work : ℕ → Message → Bool → Stream → Stream
after_work j m good s =
    if good || not (ltb_ℤ m.error_count (pos 3)) then end_work j m s else record s {
      consumers =
          set_at j (waiting (record m { error_count = m.error_count +ℤ pos 1 })) s.consumers;
    }

abbrev pub end_with : ℕ → List Message → Stream → Option Stream
end_with j held s =
    only_if s.closed (record s { consumers = set_at j gone s.consumers; lost = held ++ s.lost })

-- The send that Append has started goes into the channel, or ends with the queue.
abbrev pub send_with : ℕ → Stream → Option Message → Option Stream
send_with i s none = none
send_with i s (some m) =
    only_if (has_room s) (record s { pending = remove_at i s.pending; buffer = s.buffer ++ m ∷ [] })

abbrev pub drop_with : ℕ → Stream → Option Message → Option Stream
drop_with i s none = none
drop_with i s (some m) =
    only_if s.closed (record s { pending = remove_at i s.pending; lost = m ∷ s.lost })

-- It hands its message to an idle consumer where the channel is empty.
abbrev pub hand_with : ℕ → ℕ → Stream → Option Message → Option Stream
hand_with i j s none = none
hand_with i j s (some m) =
    only_if (is_idle (at j s.consumers) && is_empty s.buffer)
      (start_work j m (record s { pending = remove_at i s.pending }))

abbrev pub receive_with : ℕ → Stream → List Message → Option Stream
receive_with j s [] = none
receive_with j s (m ∷ rest) =
    only_if (is_idle (at j s.consumers)) (start_work j m (record s { buffer = rest }))

abbrev pub finish_with : ℕ → Bool → Stream → Option Consumer → Option Stream
finish_with j good s (some (working m)) = some (after_work j m good s)
finish_with j good s c = none

-- The timer of a retry runs out.
abbrev pub expire_with : ℕ → Stream → Option Consumer → Option Stream
expire_with j s (some (waiting m)) =
    some (record s { consumers = set_at j (resending m) s.consumers })
expire_with j s c = none

-- The consumer's own send behind it: into the channel, or to another consumer that is idle
abbrev pub resend_with : ℕ → Stream → Option Consumer → Option Stream
resend_with j s (some (resending m)) =
    only_if (has_room s)
      (record s { consumers = set_at j idle s.consumers; buffer = s.buffer ++ m ∷ [] })
resend_with j s c = none

abbrev pub resend_to_with : ℕ → ℕ → Stream → Option Consumer → Option Stream
resend_to_with j k s (some (resending m)) =
    only_if (is_idle (at k s.consumers) && is_empty s.buffer)
      (start_work k m (record s { consumers = set_at j idle s.consumers }))
resend_to_with j k s c = none

-- A consumer sees the end of the queue at one of its selects.
abbrev pub leave_with : ℕ → Stream → Option Consumer → Option Stream
leave_with j s (some idle) = end_with j [] s
leave_with j s (some (waiting m)) = end_with j (m ∷ []) s
leave_with j s (some (resending m)) = end_with j (m ∷ []) s
leave_with j s c = none

unfoldable pub act : Action → Stream → Option Stream
act (append fresh m) s =
    only_if (not s.closed)
      (record s { pending = with_id fresh m ∷ s.pending; appended = with_id fresh m ∷ s.appended })
act register s = only_if (not s.closed) (record s { consumers = s.consumers ++ idle ∷ [] })
act shutdown s = some (record s { closed = true })
act (send i) s = send_with i s (at i s.pending)
act (drop i) s = drop_with i s (at i s.pending)
act (hand i j) s = hand_with i j s (at i s.pending)
act (receive j) s = receive_with j s s.buffer
act (finish j good) s = finish_with j good s (at j s.consumers)
act (expire j) s = expire_with j s (at j s.consumers)
act (resend j) s = resend_with j s (at j s.consumers)
act (resend_to j k) s = resend_to_with j k s (at j s.consumers)
act (leave j) s = leave_with j s (at j s.consumers)

-- A run: the actions that were held up do nothing.
abbrev pub or_same : Stream → Option Stream → Stream
or_same s none = s
or_same s (some s') = s'

unfoldable pub run : List Action → Stream → Stream
unfolding act
run [] s = s
run (x ∷ xs) s = run xs (or_same s (act x s))

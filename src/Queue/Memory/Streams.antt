-- ===== src/Queue/Memory/Streams.antt =====
-- queue/memory/memory.go: the queue as a map of streams. Append holds the mutex for reading only: of
-- two Appends that both find no stream of a name, the one that stores later replaces the channel of the
-- other. The channel `closing` is one for all: its state is in each stream and, for those that are
-- still to be made, in the queue.
pub mod Reached
pub mod Bounds
use kratos_kit.Base.{
  ℕ, String, Bool, true, false, ◌&&◌, not, Option, none, some, List, [], ◌∷◌, ◌==◌, if◌then◌else◌,
}
use kratos_kit.Base.Int.{ℤ}
use kratos_kit.Base.Dict.{Dict, lookup, insert}
use kratos_kit.Queue.Memory.{
  Message, Stream, Action, make_queue, at, set_at, act, shutdown, send, drop, hand, receive, finish,
  expire, resend, resend_to, leave,
}

-- Memory; then what is not in a field of the code: the names that Appends have looked up in vain and not
-- stored yet, and the channels that were replaced, which their senders still hold.
pub record Memory : Type 0 where
  pub streams : Dict Stream
  pub pool_num : ℤ
  pub is_closed : Bool
  pub looking : List String
  pub replaced : List Stream

-- NewMemory
abbrev pub new_memory : ℤ → Memory
new_memory pool_num = record {
  streams = [];
  pool_num = pool_num;
  is_closed = false;
  looking = [];
  replaced = [];
}

abbrev pub fresh_stream : Memory → Stream
fresh_stream q = record (make_queue q.pool_num) { closed = q.is_closed }

abbrev pub or_make : Memory → Option Stream → Stream
or_make q none = fresh_stream q
or_make q (some s) = s

-- The stream of a name, made if it is not there
unfoldable pub stream_of : String → Memory → Stream
unfolding lookup
stream_of name q = or_make q (lookup name q.streams)

abbrev pub put : String → Stream → Memory → Memory
put name s q = record q { streams = insert name s q.streams }

abbrev pub updated : String → Memory → Option Stream → Memory × Bool
updated name q none = (q, false)
updated name q (some s) = (put name s q, true)

-- Append where no other Append stores the stream in between; false for "queue is shut down"
unfoldable pub append : String → String → Message → Memory → Memory × Bool
unfolding act stream_of
append name fresh m q = updated name q (act (Action.append fresh m) (stream_of name q))

abbrev pub is_missing : Option Stream → Bool
is_missing none = true
is_missing (some s) = false

-- Append up to its Load, where that finds nothing
unfoldable pub miss : String → Memory → Memory
unfolding lookup
miss name q =
    if not q.is_closed && is_missing (lookup name q.streams)
    then record q { looking = name ∷ q.looking }
    else q

unfoldable pub is_in : String → List String → Bool
is_in name [] = false
is_in name (n ∷ l) = let rest = is_in name l in if n == name then true else rest

unfoldable pub take_out : String → List String → List String
take_out name [] = []
take_out name (n ∷ l) = let rest = take_out name l in if n == name then l else n ∷ rest

abbrev pub and_old : Option Stream → List Stream → List Stream
and_old none l = l
and_old (some s) l = s ∷ l

-- Append from its Store on: the channel that another Append has stored meanwhile is replaced.
unfoldable pub store : String → String → Message → Memory → Memory
unfolding act lookup is_in take_out
store name fresh m q =
    if is_in name q.looking
    then (updated name
        (record q {
          looking = take_out name q.looking;
          replaced = and_old (lookup name q.streams) q.replaced;
          streams = insert name (fresh_stream q) q.streams;
        })
        (act (Action.append fresh m) (fresh_stream q))).0
    else q

-- The mutex can be had for writing: no Append is between its Load and its Store.
abbrev pub is_free : List String → Bool
is_free [] = true
is_free (n ∷ l) = false

-- Register; `there` is whether the function is not nil.
unfoldable pub register : String → Bool → Memory → Memory
unfolding act stream_of
register name there q =
    if there && is_free q.looking
    then (updated name q (act Action.register (stream_of name q))).0
    else q

abbrev pub close : Stream → Stream
close s = record s { closed = true }

unfoldable pub close_all : Dict Stream → Dict Stream
close_all [] = []
close_all ((k, s) ∷ l) = (k, close s) ∷ close_all l

unfoldable pub close_each : List Stream → List Stream
close_each [] = []
close_each (s ∷ l) = close s ∷ close_each l

-- Shutdown up to the end of the timer
unfoldable pub shut_down : Memory → Memory
unfolding close_all close_each
shut_down q =
    if is_free q.looking
    then record q {
      is_closed = true;
      streams = close_all q.streams;
      replaced = close_each q.replaced;
    }
    else q

-- A goroutine of a stream does something.
abbrev pub is_inner : Action → Bool
is_inner (Action.append fresh m) = false
is_inner Action.register = false
is_inner shutdown = false
is_inner (send i) = true
is_inner (drop i) = true
is_inner (hand i j) = true
is_inner (receive j) = true
is_inner (finish j good) = true
is_inner (expire j) = true
is_inner (resend j) = true
is_inner (resend_to j k) = true
is_inner (leave j) = true

unfoldable pub advance : String → Action → Memory → Memory
unfolding act stream_of
advance name x q = if is_inner x then (updated name q (act x (stream_of name q))).0 else q

abbrev pub set_or_same : ℕ → List Stream → Option Stream → List Stream
set_or_same i l none = l
set_or_same i l (some s) = set_at i s l

abbrev pub act_at : ℕ → Action → List Stream → Option Stream → List Stream
act_at i x l none = l
act_at i x l (some s) = set_or_same i l (act x s)

-- A goroutine of a replaced channel does something.
unfoldable pub advance_replaced : ℕ → Action → Memory → Memory
unfolding act at set_at
advance_replaced i x q =
    if is_inner x then record q { replaced = act_at i x q.replaced (at i q.replaced) } else q

pub data Event : Type 0 where
  appends stores : String → String → Message → Event
  misses : String → Event
  registers : String → Bool → Event
  shuts : Event
  advances : String → Action → Event
  advances_replaced : ℕ → Action → Event

unfoldable pub handle : Event → Memory → Memory
unfolding append miss store register shut_down advance advance_replaced
handle (appends name fresh m) q = (append name fresh m q).0
handle (misses name) q = miss name q
handle (stores name fresh m) q = store name fresh m q
handle (registers name there) q = register name there q
handle shuts q = shut_down q
handle (advances name x) q = advance name x q
handle (advances_replaced i x) q = advance_replaced i x q

unfoldable pub handle_all : List Event → Memory → Memory
unfolding handle
handle_all [] q = q
handle_all (e ∷ es) q = handle_all es (handle e q)

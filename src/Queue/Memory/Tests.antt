-- ===== src/Queue/Memory/Tests.antt =====
-- queue/memory/memory.go: runs of a stream.
use kratos_kit.Base.{◌+◌, ◌≤◌, ◌≡◌, refl, true, false, List, [], ◌∷◌, ltb, length}
use kratos_kit.Base.Int.{pos, ◌+ℤ◌}
use kratos_kit.Queue.Memory.{
  Message, Stream, Action, make_queue, run, act, at, set_at, remove_at, append, register, send,
  hand, receive, finish, expire, resend,
}
use kratos_kit.Queue.Memory.Ends.{taken, steps_left, taken-le}
use kratos_kit.Queue.Memory.Weight.{weigh, held}
use kratos_kit.Queue.Memory.Tries.{is_one, places-appended}
use kratos_kit.Queue.Memory.Streams
use kratos_kit.Queue.Memory.Streams.{
  Event, stores, misses, registers, advances, advances_replaced, new_memory, stream_of, handle_all,
  miss, store, advance, advance_replaced, is_in, take_out,
}
use kratos_kit.Queue.Memory.Streams.Bounds.{IsWithin, AllWithin, calls_of_stream-le}
use kratos_kit.Base.Dict.{lookup, insert}
use kratos_kit.Queue.Memory.Stuck.{all_held_up, run_stuck}

abbrev mail : Message
mail = record { id = "m"; values = []; error_count = pos 0 }

-- The only consumer of an unbuffered stream fails, and waits to send to itself.
abbrev one_failure : List Action
one_failure = register ∷ append "u1" mail ∷ hand 0 0 ∷ finish 0 false ∷ expire 0 ∷ []

abbrev later : List Action
later = append "u2" mail ∷ send 0 ∷ hand 0 0 ∷ receive 0 ∷ resend 0 ∷ []

abbrev stuck : Stream
stuck = run one_failure (make_queue (pos 0))

stuck-held_up : all_held_up stuck.consumers ≡ true
unfolding all_held_up run act at set_at remove_at ◌+ℤ◌
stuck-held_up = refl

stuck-full : ltb (length stuck.buffer) stuck.capacity ≡ false
unfolding run act at set_at remove_at ◌+ℤ◌
stuck-full = refl

run_stuck_example : (run later stuck).calls ≡ stuck.calls
run_stuck_example =
    run_stuck later stuck stuck-full stuck-held_up (refl, (refl, (refl, (refl, (refl, tt)))))

-- With room in the channel the message comes back.
abbrev retried : List Action
retried =
    register
    ∷ append "u1" mail
    ∷ send 0
    ∷ receive 0
    ∷ finish 0 false
    ∷ expire 0
    ∷ resend 0
    ∷ receive 0
    ∷ finish 0 true
    ∷ []

two_calls : weigh (is_one "m") (run retried (make_queue (pos 8))).calls ≡ 2
unfolding weigh run act at set_at remove_at ◌+ℤ◌
two_calls = refl

-- Two Appends that both find no stream: the channel of the first is replaced, and its message stays.
abbrev racing : List Event
racing =
    misses "a"
    ∷ misses "a"
    ∷ stores "a" "u1" mail
    ∷ stores "a" "u2" mail
    ∷ registers "a" true
    ∷ advances_replaced 0 (send 0)
    ∷ advances "a" (send 0)
    ∷ advances "a" (receive 0)
    ∷ []

one_replaced : length (handle_all racing (new_memory (pos 8))).replaced ≡ 1
unfolding handle_all miss store Streams.register advance advance_replaced stream_of is_in take_out
    lookup insert act at set_at remove_at
one_replaced = refl

calls_of_stream-le_example :
    (let q = handle_all racing (new_memory (pos 8)) in
      IsWithin "m" (stream_of "a" q) × AllWithin "m" q.replaced)
calls_of_stream-le_example = calls_of_stream-le racing (pos 8) "a" "m"

places-appended_example :
    (let s = run retried (make_queue (pos 8)) in
      let n = is_one "m" in
      weigh n s.finished
        + weigh n s.lost
        + (weigh n s.pending + weigh n s.buffer + weigh (held n n (λ m. 0)) s.consumers)
      ≡ weigh n s.appended)
places-appended_example = places-appended retried (pos 8) "m"

abbrev begun : List Action
begun = register ∷ append "u1" mail ∷ []

abbrev served : List Action
served = send 0 ∷ receive 0 ∷ finish 0 false ∷ expire 0 ∷ resend 0 ∷ receive 0 ∷ finish 0 true ∷ []

seven_taken : taken served (run begun (make_queue (pos 8))) ≡ 7
unfolding taken run at set_at remove_at ◌+ℤ◌
seven_taken = refl

taken-le_example :
    taken served (run begun (make_queue (pos 8))) ≤ steps_left (run begun (make_queue (pos 8)))
taken-le_example =
    taken-le served (run begun (make_queue (pos 8)))
      (refl, (refl, (refl, (refl, (refl, (refl, (refl, tt)))))))

-- ===== src/Queue/Memory/Streams/Bounds.antt =====
-- queue/memory/memory.go: how often the consumers of a whole queue are called.
use kratos_kit.Base.{◌≤◌, ◌≢◌, refl, String, some, List, [], ◌∷◌, arith}
use kratos_kit.Base.Int.{ℤ}
use kratos_kit.Base.Dict.{lookup}
use kratos_kit.Queue.Memory.{Stream}
use kratos_kit.Queue.Memory.Weight.{weigh}
use kratos_kit.Queue.Memory.Tries.{is_one, tries_of, calls-le}
use kratos_kit.Queue.Memory.Streams.{new_memory, stream_of, Event, handle_all}
use kratos_kit.Queue.Memory.Streams.Reached.{AllReached, stream_of-IsReached, handle_all-AreReached}

-- The consumer functions of a channel are called for the messages of an ID at most as often as the
-- messages appended to it with this ID allow: each four times less the errors counted in it, and at
-- least once.
abbrev pub IsWithin : String → Stream → Type 0
IsWithin id s = weigh (is_one id) s.calls ≤ weigh (tries_of id) s.appended

abbrev pub AllWithin : String → List Stream → Type 0
AllWithin id [] = Unit
AllWithin id (s ∷ l) = IsWithin id s × AllWithin id l

AllReached-AllWithin : (p : ℤ) (id : String) (l : List Stream) → AllReached p l → AllWithin id l
AllReached-AllWithin p id [] h = tt
AllReached-AllWithin p id (s ∷ l) ((xs, e), ts) =
    (rw e (calls-le xs p id), AllReached-AllWithin p id l ts)

nothing_stored : (n : String) (s : Stream) → lookup n [] ≢ some s
unfolding lookup
nothing_stored n s e = ground arith

-- However Append, Register, Shutdown and the goroutines of all streams take turns, also where Appends
-- that find no stream of a name store one after the other, for the channel of a name, and for each
-- channel that such an Append has replaced: its consumer functions are called for the messages of an
-- ID at most as often as the messages appended to it with this ID allow, each four times less the
-- errors counted in it, and at least once.
pub calls_of_stream-le :
    (es : List Event) (pool_num : ℤ) (name id : String)
    → (let q = handle_all es (new_memory pool_num) in
        IsWithin id (stream_of name q) × AllWithin id q.replaced)
calls_of_stream-le es pool_num name id =
    let q = handle_all es (new_memory pool_num) in
    let h =
      handle_all-AreReached pool_num es (new_memory pool_num)
        (record { pool = refl; stored = λ n s e. absurd (nothing_stored n s e); old = tt }) in
    let (xs, e) = stream_of-IsReached pool_num name q h in
    (rw e (calls-le xs pool_num id), AllReached-AllWithin pool_num id q.replaced h.old)

-- ===== src/Queue/Memory/Stuck.antt =====
-- queue/memory/memory.go: consumers that wait for each other.
use kratos_kit.Base.{
  ℕ, zero, suc, ◌≡◌, refl, ◌∙◌, Bool, true, false, ◌&&◌, Option, none, some, List, [], ◌∷◌, All,
  arith,
}
use kratos_kit.Queue.Memory.{
  Consumer, idle, gone, working, waiting, resending, Stream, Action, at, set_at, act, run, or_same,
  has_room, is_idle, finish_with, expire_with, append, register, shutdown, send, drop, hand,
  receive, expire, resend, leave, finish, resend_to,
}

-- A consumer that waits for the timer of a retry or with the send behind it, or has ended
abbrev pub is_held_up : Consumer → Bool
is_held_up idle = false
is_held_up gone = true
is_held_up (working m) = false
is_held_up (waiting m) = true
is_held_up (resending m) = true

unfoldable pub all_held_up : List Consumer → Bool
all_held_up [] = true
all_held_up (c ∷ l) = is_held_up c && all_held_up l

abbrev pub is_register : Action → Bool
is_register register = true
is_register x = false

at-held_up :
    (j : ℕ) (c : Consumer) (l : List Consumer)
    → at j l ≡ some c
    → all_held_up l ≡ true
    → is_held_up c ≡ true
unfolding at all_held_up
at-held_up j c [] q h = absurd (ground arith)
at-held_up zero c (d ∷ l) q h = ground arith
at-held_up (suc j) c (d ∷ l) q h = at-held_up j c l q (ground arith)

set_at-held_up :
    (j : ℕ) (c : Consumer) (l : List Consumer)
    → is_held_up c ≡ true
    → all_held_up l ≡ true
    → all_held_up (set_at j c l) ≡ true
unfolding set_at all_held_up
set_at-held_up j c [] q h = h
set_at-held_up zero c (d ∷ l) q h = ground arith
set_at-held_up (suc j) c (d ∷ l) q h = ground (arith, set_at-held_up j c l)

no_idle : (j : ℕ) (l : List Consumer) → all_held_up l ≡ true → is_idle (at j l) ≡ false
no_idle j l h = ground (arith, at-held_up j idle l)

-- The channel is full and no consumer can take a message.
abbrev pub IsStuck : Stream → Type 0
IsStuck s = (has_room s ≡ false) × (all_held_up s.consumers ≡ true)

abbrev StaysStuck : Stream → Stream → Type 0
StaysStuck s t = IsStuck t × (t.calls ≡ s.calls)

finish-StaysStuck :
    (j : ℕ) (good : Bool) (s : Stream) (o : Option Consumer)
    → at j s.consumers ≡ o
    → IsStuck s
    → StaysStuck s (or_same s (finish_with j good s o))
finish-StaysStuck j good s (some (working m)) q h =
    absurd (ground (arith, at-held_up j (working m) s.consumers q))
finish-StaysStuck j good s none q h = (h, refl)
finish-StaysStuck j good s (some idle) q h = (h, refl)
finish-StaysStuck j good s (some gone) q h = (h, refl)
finish-StaysStuck j good s (some (waiting m)) q h = (h, refl)
finish-StaysStuck j good s (some (resending m)) q h = (h, refl)

expire-StaysStuck :
    (j : ℕ) (s : Stream) (o : Option Consumer)
    → IsStuck s
    → StaysStuck s (or_same s (expire_with j s o))
expire-StaysStuck j s (some (waiting m)) h =
    ((h.0, set_at-held_up j (resending m) s.consumers refl h.1), refl)
expire-StaysStuck j s none h = (h, refl)
expire-StaysStuck j s (some idle) h = (h, refl)
expire-StaysStuck j s (some gone) h = (h, refl)
expire-StaysStuck j s (some (working m)) h = (h, refl)
expire-StaysStuck j s (some (resending m)) h = (h, refl)

act-StaysStuck :
    (x : Action) (s : Stream)
    → is_register x ≡ false
    → IsStuck s
    → StaysStuck s (or_same s (act x s))
unfolding act
act-StaysStuck (append fresh m) s q h = ground arith
act-StaysStuck register s q h = absurd (ground arith)
act-StaysStuck shutdown s q h = (h, refl)
act-StaysStuck (send i) s q h = ground arith
act-StaysStuck (drop i) s q h = ground arith
act-StaysStuck (hand i j) s q h = ground (arith, no_idle j s.consumers)
act-StaysStuck (receive j) s q h = ground (arith, no_idle j s.consumers)
act-StaysStuck (finish j good) s q h = finish-StaysStuck j good s _ refl h
act-StaysStuck (expire j) s q h = expire-StaysStuck j s _ h
act-StaysStuck (resend j) s q h = ground arith
act-StaysStuck (resend_to j k) s q h = ground (arith, no_idle k s.consumers)
act-StaysStuck (leave j) s q h = ground (arith, set_at-held_up j gone s.consumers)

-- Once the channel of a stream is full and every consumer waits with a message that it has to send
-- again (or has ended), no consumer function is called any more, whatever Append, Shutdown and the
-- goroutines do, unless another consumer is registered.
pub run_stuck :
    (xs : List Action) (s : Stream)
    → has_room s ≡ false
    → all_held_up s.consumers ≡ true
    → All (λ x. is_register x ≡ false) xs
    → (run xs s).calls ≡ s.calls
unfolding run
run_stuck [] s full held q = refl
run_stuck (x ∷ xs) s full held (q, qs) =
    let ((full', held'), same) = act-StaysStuck x s q (full, held) in
    run_stuck xs _ full' held' qs ∙ same

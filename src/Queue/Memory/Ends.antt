-- ===== src/Queue/Memory/Ends.antt =====
-- queue/memory/memory.go: without new messages and new consumers a stream comes to rest.
use kratos_kit.Base.{
  ℕ, suc, ◌+◌, ◌*◌, ◌≤◌, ◌<◌, ◌≡◌, refl, ap, Bool, true, false, ◌&&◌, ◌||◌, not, Option, none, some,
  List, [], ◌∷◌, Bool-cases, inl, inr, All, arith,
}
use kratos_kit.Base.Int.{pos, ltb_ℤ, ◌+ℤ◌}
use kratos_kit.Queue.Memory.{
  Message, Consumer, idle, gone, working, waiting, resending, Stream, Action, at, set_at, remove_at,
  act, or_same, only_if, is_idle, is_empty, end_with, send_with, drop_with, hand_with, start_work,
  after_work, receive_with, finish_with, expire_with, resend_with, resend_to_with, leave_with,
  has_room, append, register, shutdown, send, drop, hand, receive, expire, resend, leave, finish,
  resend_to,
}
use kratos_kit.Queue.Memory.Weight.{
  weigh, weigh-append, weigh-remove_at, weigh-set_at, idle_at, idle_at-set_at,
}
use kratos_kit.Queue.Memory.Tries.{tries, tries-pos, tries-next}

-- How many steps a message in a place, and a consumer, is good for at the most
abbrev pub steps_of : Message → ℕ
steps_of m = 5 * tries m.error_count

abbrev pub steps_to_send : Message → ℕ
steps_to_send m = suc (steps_of m)

abbrev pub steps_held : Consumer → ℕ
steps_held idle = 1
steps_held gone = 0
steps_held (working m) = steps_of m
steps_held (waiting m) = steps_of m + 4
steps_held (resending m) = steps_of m + 3

abbrev pub steps_left : Stream → ℕ
steps_left s =
    weigh steps_to_send s.pending + weigh steps_of s.buffer + weigh steps_held s.consumers

-- An action that is not held up leaves fewer steps.
abbrev Falls : Stream → Option Stream → Type 0
Falls s none = Unit
Falls s (some t) = steps_left t < steps_left s

guarded :
    (b : Bool) (s t : Stream) → (b ≡ true → steps_left t < steps_left s) → Falls s (only_if b t)
guarded true s t h = h refl
guarded false s t h = tt

both : (b c : Bool) → (b && c) ≡ true → (b ≡ true) × (c ≡ true)
both b c p = ground arith

start-steps :
    (j : ℕ) (m : Message) (s : Stream)
    → at j s.consumers ≡ some idle
    → steps_left (start_work j m s) + 1 ≡ steps_left s + steps_of m
start-steps j m s q = omega (arith, weigh-set_at steps_held j idle (working m) s.consumers q)

send-Falls :
    (i : ℕ) (s : Stream) (o : Option Message) → at i s.pending ≡ o → Falls s (send_with i s o)
unfolding weigh
send-Falls i s none q = tt
send-Falls i s (some m) q = guarded (has_room s) s _ (λ p.
    omega (
      arith,
      weigh-remove_at steps_to_send i m s.pending q,
      weigh-append steps_of s.buffer (m ∷ []),
    ))

drop-Falls :
    (i : ℕ) (s : Stream) (o : Option Message) → at i s.pending ≡ o → Falls s (drop_with i s o)
drop-Falls i s none q = tt
drop-Falls i s (some m) q =
    guarded s.closed s _ (λ p. omega (arith, weigh-remove_at steps_to_send i m s.pending q))

hand-Falls :
    (i j : ℕ) (s : Stream) (o : Option Message) → at i s.pending ≡ o → Falls s (hand_with i j s o)
hand-Falls i j s none q = tt
hand-Falls i j s (some m) q = guarded (is_idle (at j s.consumers) && is_empty s.buffer) s _ (λ p.
    omega (
      arith,
      weigh-remove_at steps_to_send i m s.pending q,
      start-steps j m (record s { pending = remove_at i s.pending })
          (idle_at s.consumers j (both _ _ p).0),
    ))

receive-Falls :
    (j : ℕ) (s : Stream) (l : List Message) → s.buffer ≡ l → Falls s (receive_with j s l)
unfolding weigh
receive-Falls j s [] q = tt
receive-Falls j s (m ∷ l) q = guarded (is_idle (at j s.consumers)) s _ (λ p. omega (
  arith,
  ap (weigh steps_of) q,
  start-steps j m (record s { buffer = l }) (idle_at s.consumers j p),
))

after-Falls :
    (j : ℕ) (m : Message) (good : Bool) (s : Stream)
    → at j s.consumers ≡ some (working m)
    → Falls s (some (after_work j m good s))
after-Falls j m good s q = elim (Bool-cases (good || not (ltb_ℤ m.error_count (pos 3)))) [
  | inl p ↦ rw p (
      omega
        (arith, tries-pos m.error_count, weigh-set_at steps_held j (working m) idle s.consumers q))
  | inr p ↦
      let m' = record m { error_count = m.error_count +ℤ pos 1 } in
      rw p (
        omega (
          arith,
          tries-next m.error_count (ground arith),
          weigh-set_at steps_held j (working m) (waiting m') s.consumers q,
        ))
]

finish-Falls :
    (j : ℕ) (good : Bool) (s : Stream) (o : Option Consumer)
    → at j s.consumers ≡ o
    → Falls s (finish_with j good s o)
finish-Falls j good s (some (working m)) q = after-Falls j m good s q
finish-Falls j good s none q = tt
finish-Falls j good s (some idle) q = tt
finish-Falls j good s (some gone) q = tt
finish-Falls j good s (some (waiting m)) q = tt
finish-Falls j good s (some (resending m)) q = tt

expire-Falls :
    (j : ℕ) (s : Stream) (o : Option Consumer) → at j s.consumers ≡ o → Falls s (expire_with j s o)
expire-Falls j s (some (waiting m)) q =
    omega (arith, weigh-set_at steps_held j (waiting m) (resending m) s.consumers q)
expire-Falls j s none q = tt
expire-Falls j s (some idle) q = tt
expire-Falls j s (some gone) q = tt
expire-Falls j s (some (working m)) q = tt
expire-Falls j s (some (resending m)) q = tt

resend-Falls :
    (j : ℕ) (s : Stream) (o : Option Consumer) → at j s.consumers ≡ o → Falls s (resend_with j s o)
unfolding weigh
resend-Falls j s (some (resending m)) q = guarded (has_room s) s _ (λ p. omega (
  arith,
  weigh-append steps_of s.buffer (m ∷ []),
  weigh-set_at steps_held j (resending m) idle s.consumers q,
))
resend-Falls j s none q = tt
resend-Falls j s (some idle) q = tt
resend-Falls j s (some gone) q = tt
resend-Falls j s (some (working m)) q = tt
resend-Falls j s (some (waiting m)) q = tt

resend_to-Falls :
    (j k : ℕ) (s : Stream) (o : Option Consumer)
    → at j s.consumers ≡ o
    → Falls s (resend_to_with j k s o)
resend_to-Falls j k s (some (resending m)) q =
    guarded (is_idle (at k s.consumers) && is_empty s.buffer) s _ (λ p. omega (
      arith,
      weigh-set_at steps_held j (resending m) idle s.consumers q,
      start-steps k m (record s { consumers = set_at j idle s.consumers })
          (idle_at-set_at j k s.consumers (idle_at s.consumers k (both _ _ p).0)),
    ))
resend_to-Falls j k s none q = tt
resend_to-Falls j k s (some idle) q = tt
resend_to-Falls j k s (some gone) q = tt
resend_to-Falls j k s (some (working m)) q = tt
resend_to-Falls j k s (some (waiting m)) q = tt

end-Falls :
    (j : ℕ) (c : Consumer) (l : List Message) (s : Stream)
    → at j s.consumers ≡ some c
    → 1 ≤ steps_held c
    → Falls s (end_with j l s)
end-Falls j c l s q e =
    guarded s.closed s _ (λ p. omega (arith, weigh-set_at steps_held j c gone s.consumers q))

leave-Falls :
    (j : ℕ) (s : Stream) (o : Option Consumer) → at j s.consumers ≡ o → Falls s (leave_with j s o)
leave-Falls j s (some idle) q = end-Falls j idle [] s q (omega arith)
leave-Falls j s (some (waiting m)) q = end-Falls j (waiting m) (m ∷ []) s q (omega arith)
leave-Falls j s (some (resending m)) q = end-Falls j (resending m) (m ∷ []) s q (omega arith)
leave-Falls j s none q = tt
leave-Falls j s (some gone) q = tt
leave-Falls j s (some (working m)) q = tt

-- An action of the queue itself, and no call of Append, Register or Shutdown
abbrev pub is_inner : Action → Bool
is_inner (append fresh m) = false
is_inner register = false
is_inner shutdown = false
is_inner x = true

act-Falls : (x : Action) (s : Stream) → is_inner x ≡ true → Falls s (act x s)
unfolding act
act-Falls (append fresh m) s h = absurd (ground arith)
act-Falls register s h = absurd (ground arith)
act-Falls shutdown s h = absurd (ground arith)
act-Falls (send i) s h = send-Falls i s _ refl
act-Falls (drop i) s h = drop-Falls i s _ refl
act-Falls (hand i j) s h = hand-Falls i j s _ refl
act-Falls (receive j) s h = receive-Falls j s _ refl
act-Falls (finish j good) s h = finish-Falls j good s _ refl
act-Falls (expire j) s h = expire-Falls j s _ refl
act-Falls (resend j) s h = resend-Falls j s _ refl
act-Falls (resend_to j k) s h = resend_to-Falls j k s _ refl
act-Falls (leave j) s h = leave-Falls j s _ refl

-- How many of the actions of a run are not held up
abbrev pub one_if : Option Stream → ℕ
one_if none = 0
one_if (some s) = 1

unfoldable pub taken : List Action → Stream → ℕ
unfolding act
taken [] s = 0
taken (x ∷ xs) s = one_if (act x s) + taken xs (or_same s (act x s))

one-Falls :
    (s : Stream) (o : Option Stream) (n : ℕ)
    → Falls s o
    → n ≤ steps_left (or_same s o)
    → one_if o + n ≤ steps_left s
one-Falls s none n f h = omega (arith, h)
one-Falls s (some t) n f h = omega (arith, f, h)

-- However a stream is run, without calls of Append, Register and Shutdown it comes to rest: of its
-- actions no more than this number are not held up, five for each call that a message in it is still good
-- for, one more for each send that Append has started, up to four for a message that a retry holds, and
-- one for a consumer that is idle.
pub taken-le :
    (xs : List Action) (s : Stream) → All (λ x. is_inner x ≡ true) xs → taken xs s ≤ steps_left s
unfolding taken
taken-le [] s h = omega arith
taken-le (x ∷ xs) s (p, ps) =
    one-Falls s (act x s) (taken xs (or_same s (act x s))) (act-Falls x s p)
      (taken-le xs (or_same s (act x s)) ps)

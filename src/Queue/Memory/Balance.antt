-- ===== src/Queue/Memory/Balance.antt =====
-- queue/memory/memory.go: every action keeps the balance of the messages.
use kratos_kit.Base.{
  ℕ, ◌+◌, ◌≡◌, refl, ap, Bool, true, false, ◌&&◌, not, Option, none, some, List, [], ◌∷◌, arith,
}
use kratos_kit.Base.Int.{pos, ltb_ℤ, ◌+ℤ◌}
use kratos_kit.Queue.Memory.{
  Message, Consumer, idle, gone, working, waiting, resending, Stream, Action, at, set_at, remove_at,
  act, run, or_same, only_if, is_idle, is_empty, end_with, send_with, drop_with, hand_with,
  receive_with, finish_with, expire_with, resend_with, resend_to_with, leave_with, has_room, append,
  register, shutdown, send, drop, hand, receive, expire, resend, leave, finish, resend_to,
}
use kratos_kit.Queue.Memory.Weight.{
  weigh, weigh-append, weigh-remove_at, weigh-set_at, idle_at, idle_at-set_at, held, IsBalanced,
  start_work-IsBalanced, after_work-IsBalanced,
}

module _ (f h one : Message → ℕ) (split : (m : Message) → one m + h m ≡ f m)
    (retry : (m : Message)
      → ltb_ℤ m.error_count (pos 3) ≡ true
      → f (record m { error_count = m.error_count +ℤ pos 1 }) ≡ h m) where
  guarded :
      (b : Bool) (s t : Stream)
      → IsBalanced f h one s
      → (b ≡ true → IsBalanced f h one t)
      → IsBalanced f h one (or_same s (only_if b t))
  guarded true s t p q = q refl
  guarded false s t p q = p

  both : (b c : Bool) → (b && c) ≡ true → (b ≡ true) × (c ≡ true)
  both b c p = ground arith

  send-IsBalanced :
      (i : ℕ) (s : Stream) (o : Option Message)
      → at i s.pending ≡ o
      → IsBalanced f h one s
      → IsBalanced f h one (or_same s (send_with i s o))
  unfolding weigh
  send-IsBalanced i s none q b = b
  send-IsBalanced i s (some m) q b =
      guarded (has_room s) s _ b
        (λ p. omega (arith, weigh-remove_at f i m s.pending q, weigh-append f s.buffer (m ∷ [])))

  drop-IsBalanced :
      (i : ℕ) (s : Stream) (o : Option Message)
      → at i s.pending ≡ o
      → IsBalanced f h one s
      → IsBalanced f h one (or_same s (drop_with i s o))
  unfolding weigh
  drop-IsBalanced i s none q b = b
  drop-IsBalanced i s (some m) q b =
      guarded s.closed s _ b (λ p. omega (arith, weigh-remove_at f i m s.pending q))

  hand-IsBalanced :
      (i j : ℕ) (s : Stream) (o : Option Message)
      → at i s.pending ≡ o
      → IsBalanced f h one s
      → IsBalanced f h one (or_same s (hand_with i j s o))
  hand-IsBalanced i j s none q b = b
  hand-IsBalanced i j s (some m) q b =
      guarded (is_idle (at j s.consumers) && is_empty s.buffer) s _ b (λ p.
        start_work-IsBalanced f h one split retry j m (record s { pending = remove_at i s.pending })
          (idle_at s.consumers j (both _ _ p).0) (omega (arith, weigh-remove_at f i m s.pending q)))

  receive-IsBalanced :
      (j : ℕ) (s : Stream) (l : List Message)
      → s.buffer ≡ l
      → IsBalanced f h one s
      → IsBalanced f h one (or_same s (receive_with j s l))
  unfolding weigh
  receive-IsBalanced j s [] q b = b
  receive-IsBalanced j s (m ∷ l) q b = guarded (is_idle (at j s.consumers)) s _ b (λ p.
      start_work-IsBalanced f h one split retry j m (record s { buffer = l })
        (idle_at s.consumers j p) (omega (arith, ap (weigh f) q)))

  finish-IsBalanced :
      (j : ℕ) (good : Bool) (s : Stream) (o : Option Consumer)
      → at j s.consumers ≡ o
      → IsBalanced f h one s
      → IsBalanced f h one (or_same s (finish_with j good s o))
  finish-IsBalanced j good s (some (working m)) q b =
      after_work-IsBalanced f h one split retry j m good s q b
  finish-IsBalanced j good s none q b = b
  finish-IsBalanced j good s (some idle) q b = b
  finish-IsBalanced j good s (some gone) q b = b
  finish-IsBalanced j good s (some (waiting m)) q b = b
  finish-IsBalanced j good s (some (resending m)) q b = b

  expire-IsBalanced :
      (j : ℕ) (s : Stream) (o : Option Consumer)
      → at j s.consumers ≡ o
      → IsBalanced f h one s
      → IsBalanced f h one (or_same s (expire_with j s o))
  expire-IsBalanced j s (some (waiting m)) q b =
      omega (arith, weigh-set_at (held f h one) j (waiting m) (resending m) s.consumers q)
  expire-IsBalanced j s none q b = b
  expire-IsBalanced j s (some idle) q b = b
  expire-IsBalanced j s (some gone) q b = b
  expire-IsBalanced j s (some (working m)) q b = b
  expire-IsBalanced j s (some (resending m)) q b = b

  resend-IsBalanced :
      (j : ℕ) (s : Stream) (o : Option Consumer)
      → at j s.consumers ≡ o
      → IsBalanced f h one s
      → IsBalanced f h one (or_same s (resend_with j s o))
  unfolding weigh
  resend-IsBalanced j s (some (resending m)) q b = guarded (has_room s) s _ b (λ p. omega (
    arith,
    weigh-append f s.buffer (m ∷ []),
    weigh-set_at (held f h one) j (resending m) idle s.consumers q,
  ))
  resend-IsBalanced j s none q b = b
  resend-IsBalanced j s (some idle) q b = b
  resend-IsBalanced j s (some gone) q b = b
  resend-IsBalanced j s (some (working m)) q b = b
  resend-IsBalanced j s (some (waiting m)) q b = b

  resend_to-IsBalanced :
      (j k : ℕ) (s : Stream) (o : Option Consumer)
      → at j s.consumers ≡ o
      → IsBalanced f h one s
      → IsBalanced f h one (or_same s (resend_to_with j k s o))
  resend_to-IsBalanced j k s (some (resending m)) q b =
      guarded (is_idle (at k s.consumers) && is_empty s.buffer) s _ b (λ p.
        start_work-IsBalanced f h one split retry k m
          (record s { consumers = set_at j idle s.consumers })
          (idle_at-set_at j k s.consumers (idle_at s.consumers k (both _ _ p).0))
          (omega (arith, weigh-set_at (held f h one) j (resending m) idle s.consumers q)))
  resend_to-IsBalanced j k s none q b = b
  resend_to-IsBalanced j k s (some idle) q b = b
  resend_to-IsBalanced j k s (some gone) q b = b
  resend_to-IsBalanced j k s (some (working m)) q b = b
  resend_to-IsBalanced j k s (some (waiting m)) q b = b

  end-IsBalanced :
      (j : ℕ) (c : Consumer) (l : List Message) (s : Stream)
      → at j s.consumers ≡ some c
      → held f h one c ≡ weigh f l
      → IsBalanced f h one s
      → IsBalanced f h one (or_same s (end_with j l s))
  end-IsBalanced j c l s q e b = guarded s.closed s _ b (λ p.
      omega (arith, weigh-append f l s.lost, weigh-set_at (held f h one) j c gone s.consumers q))

  leave-IsBalanced :
      (j : ℕ) (s : Stream) (o : Option Consumer)
      → at j s.consumers ≡ o
      → IsBalanced f h one s
      → IsBalanced f h one (or_same s (leave_with j s o))
  unfolding weigh
  leave-IsBalanced j s (some idle) q b = end-IsBalanced j idle [] s q refl b
  leave-IsBalanced j s (some (waiting m)) q b =
      end-IsBalanced j (waiting m) (m ∷ []) s q (omega arith) b
  leave-IsBalanced j s (some (resending m)) q b =
      end-IsBalanced j (resending m) (m ∷ []) s q (omega arith) b
  leave-IsBalanced j s none q b = b
  leave-IsBalanced j s (some gone) q b = b
  leave-IsBalanced j s (some (working m)) q b = b

  act-IsBalanced :
      (x : Action) (s : Stream) → IsBalanced f h one s → IsBalanced f h one (or_same s (act x s))
  unfolding act weigh
  act-IsBalanced (append fresh m) s b = guarded (not s.closed) s _ b (λ p. omega arith)
  act-IsBalanced register s b =
      guarded (not s.closed) s _ b
        (λ p. omega (arith, weigh-append (held f h one) s.consumers (idle ∷ [])))
  act-IsBalanced shutdown s b = b
  act-IsBalanced (send i) s b = send-IsBalanced i s _ refl b
  act-IsBalanced (drop i) s b = drop-IsBalanced i s _ refl b
  act-IsBalanced (hand i j) s b = hand-IsBalanced i j s _ refl b
  act-IsBalanced (receive j) s b = receive-IsBalanced j s _ refl b
  act-IsBalanced (finish j good) s b = finish-IsBalanced j good s _ refl b
  act-IsBalanced (expire j) s b = expire-IsBalanced j s _ refl b
  act-IsBalanced (resend j) s b = resend-IsBalanced j s _ refl b
  act-IsBalanced (resend_to j k) s b = resend_to-IsBalanced j k s _ refl b
  act-IsBalanced (leave j) s b = leave-IsBalanced j s _ refl b

  pub run-IsBalanced :
      (xs : List Action) (s : Stream) → IsBalanced f h one s → IsBalanced f h one (run xs s)
  unfolding run
  run-IsBalanced [] s b = b
  run-IsBalanced (x ∷ xs) s b = run-IsBalanced xs _ (act-IsBalanced x s b)

-- ===== src/Queue/Memory/Weight.antt =====
-- queue/memory/memory.go: a balance of the messages of a stream that every action keeps.
use kratos_kit.Base.{
  ℕ, zero, suc, ◌+◌, ◌≡◌, refl, Bool, true, ◌||◌, not, some, List, [], ◌∷◌, ◌++◌, Bool-cases, inl,
  inr, arith,
}
use kratos_kit.Base.Int.{pos, ltb_ℤ, ◌+ℤ◌}
use kratos_kit.Queue.Memory.{
  Message, Consumer, idle, gone, working, waiting, resending, Stream, at, set_at, remove_at,
  is_idle, start_work, after_work,
}

-- The sum of a function over a list
unfoldable pub weigh {ℓ} : {A : Type ℓ} → (A → ℕ) → List A → ℕ
weigh f [] = 0
weigh f (x ∷ l) = f x + weigh f l

module _ {ℓ} {A : Type ℓ} (f : A → ℕ) where
  pub weigh-append : (k l : List A) → weigh f (k ++ l) ≡ weigh f k + weigh f l
  unfolding weigh
  weigh-append [] l = omega arith
  weigh-append (x ∷ k) l = omega (arith, weigh-append k l)

  pub weigh-remove_at :
      (n : ℕ) (x : A) (l : List A) → at n l ≡ some x → weigh f l ≡ f x + weigh f (remove_at n l)
  unfolding weigh at remove_at
  weigh-remove_at n x [] h = absurd (ground arith)
  weigh-remove_at zero x (y ∷ l) h = ground arith
  weigh-remove_at (suc n) x (y ∷ l) h = omega (arith, weigh-remove_at n x l h)

  pub weigh-set_at :
      (n : ℕ) (x y : A) (l : List A)
      → at n l ≡ some x
      → weigh f (set_at n y l) + f x ≡ weigh f l + f y
  unfolding weigh at set_at
  weigh-set_at n x y [] h = absurd (ground arith)
  weigh-set_at zero x y (z ∷ l) h = ground arith
  weigh-set_at (suc n) x y (z ∷ l) h = omega (arith, weigh-set_at n x y l h)

pub weigh_zero {ℓ} : {A : Type ℓ} (l : List A) → weigh (λ x. 0) l ≡ 0
unfolding weigh
weigh_zero [] = refl
weigh_zero (x ∷ l) = omega (arith, weigh_zero l)

pub idle_at : (l : List Consumer) (k : ℕ) → is_idle (at k l) ≡ true → at k l ≡ some idle
idle_at l k h = ground arith

pub idle_at-set_at :
    (j k : ℕ) (l : List Consumer) → at k l ≡ some idle → at k (set_at j idle l) ≡ some idle
unfolding at set_at
idle_at-set_at j k [] h = h
idle_at-set_at zero zero (c ∷ l) h = refl
idle_at-set_at zero (suc k) (c ∷ l) h = h
idle_at-set_at (suc j) zero (c ∷ l) h = h
idle_at-set_at (suc j) (suc k) (c ∷ l) h = idle_at-set_at j k l h

-- `f` is what a message weighs, `h` what it weighs while the consumer function runs, `one` the weight
-- of a call.
module _ (f h one : Message → ℕ) where
  abbrev pub held : Consumer → ℕ
  held idle = 0
  held gone = 0
  held (working m) = h m
  held (waiting m) = f m
  held (resending m) = f m

  abbrev pub total : Stream → ℕ
  total s = weigh f s.pending + weigh f s.buffer + weigh held s.consumers

  abbrev pub IsBalanced : Stream → Type 0
  IsBalanced s =
      weigh one s.calls + weigh h s.finished + weigh f s.lost + total s ≡ weigh f s.appended

module _ (f h one : Message → ℕ) (split : (m : Message) → one m + h m ≡ f m)
    (retry : (m : Message)
      → ltb_ℤ m.error_count (pos 3) ≡ true
      → f (record m { error_count = m.error_count +ℤ pos 1 }) ≡ h m) where
  pub start_work-IsBalanced :
      (j : ℕ) (m : Message) (s : Stream)
      → at j s.consumers ≡ some idle
      → weigh one s.calls + weigh h s.finished + weigh f s.lost + total f h one s + f m
        ≡ weigh f s.appended
      → IsBalanced f h one (start_work j m s)
  unfolding weigh
  start_work-IsBalanced j m s q b =
      omega (arith, split m, weigh-set_at (held f h one) j idle (working m) s.consumers q)

  pub after_work-IsBalanced :
      (j : ℕ) (m : Message) (good : Bool) (s : Stream)
      → at j s.consumers ≡ some (working m)
      → IsBalanced f h one s
      → IsBalanced f h one (after_work j m good s)
  unfolding weigh
  after_work-IsBalanced j m good s q b =
      elim (Bool-cases (good || not (ltb_ℤ m.error_count (pos 3)))) [
        | inl p ↦ rw p (omega (arith, weigh-set_at (held f h one) j (working m) idle s.consumers q))
        | inr p ↦
            let m' = record m { error_count = m.error_count +ℤ pos 1 } in
            rw p (
              omega (
                arith,
                retry m (ground arith),
                weigh-set_at (held f h one) j (working m) (waiting m') s.consumers q,
              ))
      ]

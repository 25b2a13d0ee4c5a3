-- ===== src/Retry/Backoff.antt =====
-- retry/retry.go: the backoff strategies and the jitters. time.Duration is `int64`; float64 is not
-- implemented by the program, so its operations are a parameter.
use kratos_kit.Base.{ℕ, suc, ◌-◌, ◌/◌, ◌^◌, ◌≡◌, ◌&&◌, ◌||◌, not, arith, if◌then◌else◌}
use kratos_kit.Base.Float.{Float64}
use kratos_kit.Base.Int.{
  ℤ, pos, negsuc, ltb_ℤ, sub_ℕ, ◌+ℤ◌, ◌*ℤ◌, ◌≤ℤ◌, wrap, wrap_of_InInt64, wrap_past_max, InInt64,
}

-- if attempt < 0 { attempt = 0 }
abbrev pub nonnegative : ℤ → ℤ
nonnegative (pos n) = pos n
nonnegative (negsuc n) = pos 0

pub record LinearBackoff : Type 0 where
  pub initial : ℤ
  pub increment : ℤ
  pub max_delay : ℤ

-- LinearBackoff.Delay
unfoldable pub linear_delay : LinearBackoff → ℤ → ℤ
linear_delay l attempt =
    let n = nonnegative attempt in
    let delay = wrap (l.initial +ℤ wrap (l.increment *ℤ n)) in
    if ltb_ℤ (pos 0) l.max_delay
    then (if ltb_ℤ l.max_delay delay then l.max_delay else delay)
    else delay

-- FixedBackoff.Delay
abbrev pub fixed_delay : ℤ → ℤ → ℤ
fixed_delay f _ = f

abbrev pub max_int64 : ℤ
max_int64 = pos (2 ^ 63 - 1)

module _ (f64 : Float64) where
  open f64 use {Float, of_int, trunc, mul, pow, leb_float, is_inf}

  pub record ExponentialBackoff : Type 0 where
    pub initial : ℤ
    pub factor : Float
    pub max_delay : ℤ

  -- ExponentialBackoff.Delay
  unfoldable pub exponential_delay : ExponentialBackoff → ℤ → ℤ
  exponential_delay b attempt =
      if not (ltb_ℤ (pos 0) b.initial)
      then pos 0
      else let n = nonnegative attempt in
        let factor = if leb_float b.factor (of_int (pos 0)) then of_int (pos 2) else b.factor in
        let delay = mul (of_int b.initial) (pow factor (of_int n)) in
        if ltb_ℤ (pos 0) b.max_delay && leb_float (of_int b.max_delay) delay
        then b.max_delay
        else if is_inf delay || leb_float (of_int max_int64) delay
        then max_int64
        else trunc delay

  -- FullJitter
  unfoldable pub full_jitter : ℤ → Float → ℤ
  full_jitter delay r = trunc (mul (of_int delay) r)

  -- Go's division drops the fraction, of a negative duration too.
  abbrev pub half : ℤ → ℤ
  half (pos n) = pos (n / 2)
  half (negsuc n) = sub_ℕ 0 (suc n / 2)

  -- EqualJitter
  unfoldable pub equal_jitter : ℤ → Float → ℤ
  equal_jitter delay r = wrap (half delay +ℤ trunc (mul (of_int (half delay)) r))

-- What the linear backoff means where nothing leaves the range of int64: the delay grows by the
-- increment with each attempt, up to the maximum if there is one.
abbrev pub linear_exact : LinearBackoff → ℕ → ℤ
linear_exact l n = l.initial +ℤ l.increment *ℤ pos n

abbrev pub capped : ℤ → ℤ → ℤ
capped m d = if ltb_ℤ (pos 0) m && ltb_ℤ m d then m else d

-- Where neither the product nor the sum leaves the range of int64, the linear backoff is the
-- initial delay plus a step for each attempt, capped by a positive maximum.
pub linear_delay-exact :
    (l : LinearBackoff) (n : ℕ)
    → InInt64 (l.increment *ℤ pos n)
    → InInt64 (linear_exact l n)
    → linear_delay l (pos n) ≡ capped l.max_delay (linear_exact l n)
unfolding linear_delay
linear_delay-exact l n product total =
    rw (wrap_of_InInt64 (l.increment *ℤ pos n) product, wrap_of_InInt64 (linear_exact l n) total)
      (ground arith)

-- A positive maximum bounds every delay of the linear backoff, also one that has wrapped round.
pub linear_delay-le-max :
    (l : LinearBackoff) (attempt : ℤ) → pos 1 ≤ℤ l.max_delay → linear_delay l attempt ≤ℤ l.max_delay
unfolding linear_delay
linear_delay-le-max l attempt h = ground arith

-- A delay of the linear backoff whose sum is past the largest int64, and short of 2^64, comes out
-- negative, whatever the maximum, where the product of step and attempt is in range.
pub linear_delay_wraps :
    (l : LinearBackoff) (n : ℕ)
    → InInt64 (l.increment *ℤ pos n)
    → pos (2 ^ 63) ≤ℤ linear_exact l n
    → linear_exact l n ≤ℤ pos (2 ^ 64 - 1)
    → linear_delay l (pos n) ≤ℤ negsuc 0
unfolding linear_delay
linear_delay_wraps l n product low high =
    rw (wrap_of_InInt64 (l.increment *ℤ pos n) product)
      (ground (arith, wrap_past_max (linear_exact l n) low high))

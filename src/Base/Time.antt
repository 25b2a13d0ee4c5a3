-- ===== src/Base/Time.antt =====
-- time.Time and time.Duration. An instant is the zero time, or a count of nanoseconds since 1970
-- (what UnixNano returns; the clock is taken to read after 1970). A duration is an `int64`, an ℤ.
use Prim.Native.Nat.{ℕ}
use mathlib.Core.Bool.{Bool, true, false}
use kratos_kit.Base.Tests.{ltb}

pub data Time : Type 0 where
  zero_time : Time
  at : ℕ → Time

abbrev pub is_zero : Time → Bool
is_zero zero_time = true
is_zero (at n) = false

-- time.Now().After(t) at the reading `now`. The zero time lies before every reading.
abbrev pub after : ℕ → Time → Bool
after now zero_time = true
after now (at n) = ltb n now

-- time.Now().Before(t)
abbrev pub before : ℕ → Time → Bool
before now zero_time = false
before now (at n) = ltb now n

-- time.Second, time.Millisecond and time.Minute in nanoseconds
abbrev pub millisecond : ℕ
millisecond = 1_000_000

abbrev pub second : ℕ
second = 1_000_000_000

abbrev pub minute : ℕ
minute = 60_000_000_000

-- ===== src/Cache/RateLimit.antt =====
-- cache/store/rate_limit.go: requests and their validation; cache/memory/rate_limit.go: the state of
-- one key and the algorithms. A clock reading is in nanoseconds; a valid window is positive, and
-- `span` reads it as a number.
pub mod Apply
pub mod Take
pub mod History
pub mod FixedWindow
pub mod WindowLog
pub mod Validate
mod Tests
pub mod Batch
pub mod Grant
use kratos_kit.Base.{
  ℕ, suc, ◌+◌, ◌-◌, ◌*◌, ◌/◌, ◌%◌, String, Bool, true, false, ◌&&◌, ◌||◌, not, Option, none, some,
  List, [], ◌∷◌, ◌++◌, length, ◌==◌, ltb, leb, nat_eq, if◌then◌else◌,
}
use kratos_kit.Base.Float.{Float64}
use kratos_kit.Base.Int.{ℤ, pos, pos_part, ltb_ℤ, sub_ℕ, wrap, ◌*ℤ◌, ◌+ℤ◌, ◌-ℤ◌}
use kratos_kit.Base.Time.{Time, zero_time, at, is_zero, millisecond, minute}
use kratos_kit.Cache.Store.{
  Error, Result, ok, err, key_required, invalid_token_bucket, invalid_window_counter,
  invalid_window_log, invalid_leaky_bucket, unsupported_algorithm,
}

pub data Algorithm : Type 0 where
  token_bucket fixed_window sliding_window_counter sliding_window_log leaky_bucket : Algorithm
  other : String → Algorithm

abbrev pub max_window_log_limit : ℤ
max_window_log_limit = pos 10000

abbrev pub max_rate : ℤ
max_rate = pos 1000000

abbrev pub max_capacity : ℤ
max_capacity = pos 1000000

-- maxRateLimitWindow, 24 * time.Hour
abbrev pub max_window : ℤ
max_window = pos 86_400_000_000_000

-- validWindow
abbrev pub valid_window : ℤ → Bool
valid_window w = not (ltb_ℤ w (pos millisecond)) && not (ltb_ℤ max_window w)

-- A parameter outside 1 .. most
abbrev outside : ℤ → ℤ → Bool
outside n most = ltb_ℤ n (pos 1) || ltb_ℤ most n

-- minimumRateLimitRetry
abbrev pub minimum_retry : ℤ → ℤ
minimum_retry d = if ltb_ℤ d (pos millisecond) then pos millisecond else d

-- fixedWindowRetry
abbrev pub fixed_window_retry : ℕ → ℕ → ℤ
fixed_window_retry now w = minimum_retry (sub_ℕ w (now % w))

module _ (f64 : Float64) where
  open f64 use {
    Float, of_int, milli, seconds, trunc, ceil, add, sub, mul, div, min_float, max_float, ltb_float,
    leb_float, is_inf, is_nan,
  }

  pub record Request : Type 0 where
    pub key : String
    pub algorithm : Algorithm
    pub tokens_per_second : Float
    pub burst : ℤ
    pub limit : ℤ
    pub window : ℤ
    pub leak_rate_per_second : Float
    pub capacity : ℤ

  pub record TokenBucketRequest : Type 0 where
    pub key : String
    pub tokens_per_second : Float
    pub burst : ℤ

  -- AsRateLimitRequest
  abbrev pub as_request : TokenBucketRequest → Request
  as_request r = record {
    key = r.key;
    algorithm = token_bucket;
    tokens_per_second = r.tokens_per_second;
    burst = r.burst;
    limit = pos 0;
    window = pos 0;
    leak_rate_per_second = of_int (pos 0);
    capacity = pos 0;
  }

  -- validRate
  abbrev pub valid_rate : Float → Bool
  valid_rate rate =
      leb_float milli rate
      && (leb_float rate (of_int max_rate) && (not (is_nan rate) && not (is_inf rate)))

  abbrev valid_if : Bool → Error → Result (Unit {0})
  valid_if bad e = if bad then err e else ok tt

  abbrev validate_parameters : Algorithm → Request → Result (Unit {0})
  validate_parameters token_bucket r =
      valid_if (not (valid_rate r.tokens_per_second) || outside r.burst max_capacity)
        invalid_token_bucket
  validate_parameters fixed_window r =
      valid_if (outside r.limit max_capacity || not (valid_window r.window)) invalid_window_counter
  validate_parameters sliding_window_counter r =
      valid_if (outside r.limit max_capacity || not (valid_window r.window)) invalid_window_counter
  validate_parameters sliding_window_log r =
      valid_if (outside r.limit max_window_log_limit || not (valid_window r.window))
        invalid_window_log
  validate_parameters leaky_bucket r =
      valid_if (not (valid_rate r.leak_rate_per_second) || outside r.capacity max_capacity)
        invalid_leaky_bucket
  validate_parameters (other _) r = err unsupported_algorithm

  -- Validate
  unfoldable pub validate : Request → Result (Unit {0})
  validate r = if r.key == "" then err key_required else validate_parameters r.algorithm r

  -- rateLimitState; the zero value is `no_state`.
  pub record State : Type 0 where
    pub window_id : ℕ
    pub current_count : ℕ
    pub previous : ℕ
    pub events : List ℕ
    pub tokens : Float
    pub water : Float
    pub updated_at : Time
    pub expires_at : Time

  abbrev pub no_state : State
  no_state = record {
    window_id = 0;
    current_count = 0;
    previous = 0;
    events = [];
    tokens = of_int (pos 0);
    water = of_int (pos 0);
    updated_at = zero_time;
    expires_at = zero_time;
  }

  -- What applyRateLimit returns.
  pub record Verdict : Type 0 where
    pub allowed : Bool
    pub retry : ℤ
    pub next : State

  abbrev pub allow : State → Verdict
  allow s = record { allowed = true; retry = pos 0; next = s }

  abbrev pub deny : ℤ → State → Verdict
  deny d s = record { allowed = false; retry = d; next = s }

  -- Request.Window.Nanoseconds() of a valid request
  abbrev pub span : Request → ℕ
  span r = pos_part r.window

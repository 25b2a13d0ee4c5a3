-- ===== src/Cache/RateLimit/Apply.antt =====
-- cache/memory/rate_limit.go: applyRateLimit, algorithm by algorithm, and rateLimitStateTTL.
use kratos_kit.Base.{
  ℕ, ◌+◌, ◌/◌, ◌%◌, ◌&&◌, not, List, [], ◌∷◌, ◌++◌, length, ltb, leb, nat_eq, if◌then◌else◌,
}
use kratos_kit.Base.Float.{Float64}
use kratos_kit.Base.Int.{ℤ, pos, ltb_ℤ, sub_ℕ, wrap, ◌*ℤ◌, ◌+ℤ◌, ◌-ℤ◌}
use kratos_kit.Base.Time.{Time, zero_time, at, is_zero, millisecond, minute}
use kratos_kit.Cache.RateLimit.{
  Algorithm, token_bucket, fixed_window, sliding_window_counter, sliding_window_log, leaky_bucket,
  other, Request, State, Verdict, allow, deny, span, no_state, minimum_retry, fixed_window_retry,
}

-- The loop over state.events that finds the first one behind now - window.
unfoldable pub drop_old : ℕ → ℕ → List ℕ → List ℕ
drop_old now w [] = []
drop_old now w (e ∷ es) = let rest = drop_old now w es in if leb (e + w) now then rest else e ∷ es

abbrev first : List ℕ → ℕ
first [] = 0
first (e ∷ es) = e

module _ (f64 : Float64) where
  open f64 use {
    Float, of_int, seconds, trunc, ceil, add, sub, mul, div, min_float, max_float, ltb_float,
  }

  -- time.Duration(math.Ceil(x * 1000)) * time.Millisecond
  abbrev ceil_ms : Float → ℤ
  ceil_ms x = wrap (trunc (ceil (mul x (of_int (pos 1000)))) *ℤ pos millisecond)

  -- now.Sub(updatedAt)
  abbrev since : ℕ → Time → ℤ
  since now zero_time = pos 0
  since now (at t) = sub_ℕ now t

  -- The tokens at `now`, before one is taken.
  unfoldable pub refill : ℕ → Request f64 → State f64 → Float
  refill now r s =
      if is_zero s.updated_at
      then of_int r.burst
      else min_float (of_int r.burst)
          (add s.tokens (mul (seconds (since now s.updated_at)) r.tokens_per_second))

  unfoldable pub apply_token_bucket : ℕ → Request f64 → State f64 → Verdict f64
  apply_token_bucket now r s =
      let tokens = refill now r s in
      let one = of_int (pos 1) in
      if ltb_float tokens one
      then deny f64 (minimum_retry (ceil_ms (div (sub one tokens) r.tokens_per_second)))
          (record s { tokens = tokens })
      else allow f64 (record s { tokens = sub tokens one; updated_at = at now })

  -- The state of a fixed window: another window starts from an empty one.
  abbrev pub roll : ℕ → State f64 → State f64
  roll id s = if nat_eq s.window_id id then s else record (no_state f64) { window_id = id }

  unfoldable pub apply_fixed_window : ℕ → Request f64 → State f64 → Verdict f64
  apply_fixed_window now r s =
      let s' = roll (now / span f64 r) s in
      if ltb_ℤ r.limit (pos (s'.current_count + 1))
      then deny f64 (fixed_window_retry now (span f64 r)) s'
      else allow f64 (record s' { current_count = s'.current_count + 1 })

  -- The counts of the window `id` and of the one before it.
  abbrev pub current_of : ℕ → State f64 → ℕ
  current_of id s = if nat_eq s.window_id id then s.current_count else 0

  abbrev pub previous_of : ℕ → State f64 → ℕ
  previous_of id s =
      if nat_eq s.window_id id
      then s.previous
      else if nat_eq (s.window_id + 1) id
      then s.current_count
      else 0

  unfoldable pub apply_window_counter : ℕ → Request f64 → State f64 → Verdict f64
  apply_window_counter now r s =
      let w = span f64 r in
      let id = now / w in
      let current = current_of id s in
      let previous = previous_of id s in
      let weighted =
        add (of_int (pos current))
          (div (mul (of_int (pos previous)) (of_int (sub_ℕ w (now % w)))) (of_int r.window)) in
      if ltb_float (of_int r.limit) (add weighted (of_int (pos 1)))
      then (let base = fixed_window_retry now w in
          let over = pos (current + 1) -ℤ r.limit in
          deny f64
            (minimum_retry (
              if ltb 0 current && ltb_ℤ (pos 0) over
              then wrap (
                  base
                  +ℤ trunc
                      (ceil (div (mul (of_int over) (of_int r.window)) (of_int (pos current)))))
              else base))
            s)
      else allow f64 (record s { window_id = id; current_count = current + 1; previous = previous })

  unfoldable pub apply_window_log : ℕ → Request f64 → State f64 → Verdict f64
  apply_window_log now r s =
      let w = span f64 r in
      let events = drop_old now w s.events in
      if not (ltb_ℤ (pos (length events)) r.limit)
      then deny f64 (minimum_retry (sub_ℕ (first events + w) now)) (record s { events = events })
      else allow f64 (record s { events = events ++ now ∷ [] })

  -- The water at `now`, before a request pours in.
  unfoldable pub leak : ℕ → Request f64 → State f64 → Float
  leak now r s =
      if is_zero s.updated_at
      then s.water
      else max_float (of_int (pos 0))
          (sub s.water (mul (seconds (since now s.updated_at)) r.leak_rate_per_second))

  unfoldable pub apply_leaky_bucket : ℕ → Request f64 → State f64 → Verdict f64
  apply_leaky_bucket now r s =
      let water = leak now r s in
      let filled = add water (of_int (pos 1)) in
      if ltb_float (of_int r.capacity) filled
      then deny f64
          (minimum_retry (ceil_ms (div (sub filled (of_int r.capacity)) r.leak_rate_per_second)))
          (record s { water = water })
      else allow f64 (record s { water = filled; updated_at = at now })

  abbrev apply_by : Algorithm → ℕ → Request f64 → State f64 → Verdict f64
  apply_by token_bucket = apply_token_bucket
  apply_by fixed_window = apply_fixed_window
  apply_by sliding_window_counter = apply_window_counter
  apply_by sliding_window_log = apply_window_log
  apply_by leaky_bucket = apply_leaky_bucket
  apply_by (other _) = λ now r s. deny f64 (pos 0) s

  -- applyRateLimit
  unfoldable pub apply_rate_limit : ℕ → Request f64 → State f64 → Verdict f64
  apply_rate_limit now r s = apply_by r.algorithm now r s

  -- math.Ceil(float64(most) / rate * 1000)
  abbrev ceil_of : ℤ → Float → Float
  ceil_of most rate = ceil (mul (div (of_int most) rate) (of_int (pos 1000)))

  abbrev ttl_by : Algorithm → Request f64 → ℤ
  ttl_by token_bucket r =
      wrap
        (trunc (add (ceil_of r.burst r.tokens_per_second) (of_int (pos 1000))) *ℤ pos millisecond)
  ttl_by fixed_window r = wrap (r.window *ℤ pos 2)
  ttl_by sliding_window_counter r = wrap (r.window *ℤ pos 2)
  ttl_by sliding_window_log r = r.window
  ttl_by leaky_bucket r = wrap (
      trunc (add (ceil_of r.capacity r.leak_rate_per_second) (of_int (pos 1000)))
      *ℤ pos millisecond)
  ttl_by (other _) r = pos minute

  -- rateLimitStateTTL
  unfoldable pub state_ttl : Request f64 → ℤ
  state_ttl r = ttl_by r.algorithm r

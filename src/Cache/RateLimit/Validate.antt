-- ===== src/Cache/RateLimit/Validate.antt =====
-- cache/store/rate_limit.go: Validate, and the parameters that the algorithms rely on.
use kratos_kit.Base.{ℕ, ◌≤◌, ◌<◌, ◌≡◌, refl, true, false, arith, ◌==◌}
use kratos_kit.Base.Float.{Float64}
use kratos_kit.Base.Int.{ℤ, pos, negsuc, ltb_ℤ}
use kratos_kit.Cache.Store.{ok}
use kratos_kit.Cache.RateLimit.{
  Request, Algorithm, fixed_window, sliding_window_counter, sliding_window_log, token_bucket,
  leaky_bucket, other, validate, valid_rate,
}

-- A number between two bounds.
abbrev pub Between : ℕ → ℕ → ℤ → Type 0
Between low high (pos n) = (low ≤ n) × (n ≤ high)
Between low high (negsuc n) = ⊥

-- What an accepted request of each algorithm satisfies.
abbrev pub Sound : (f64 : Float64) → Algorithm → Request f64 → Type 0
Sound f64 token_bucket r = (valid_rate f64 r.tokens_per_second ≡ true) × Between 1 1000000 r.burst
Sound f64 fixed_window r = Between 1 1000000 r.limit × Between 1000000 86_400_000_000_000 r.window
Sound f64 sliding_window_counter r =
    Between 1 1000000 r.limit × Between 1000000 86_400_000_000_000 r.window
Sound f64 sliding_window_log r =
    Between 1 10000 r.limit × Between 1000000 86_400_000_000_000 r.window
Sound f64 leaky_bucket r =
    (valid_rate f64 r.leak_rate_per_second ≡ true) × Between 1 1000000 r.capacity
Sound f64 (other _) r = ⊥

module _ (f64 : Float64) where
  between :
      (low high : ℕ) (z : ℤ)
      → ltb_ℤ z (pos low) ≡ false
      → ltb_ℤ (pos high) z ≡ false
      → 0 < low
      → Between low high z
  between low high (pos n) p q h = ground arith
  between low high (negsuc n) p q h = ground arith

  -- Validate accepts a request only if it has a key and a known algorithm, with the rate or
  -- the limit and the window of that algorithm within their bounds.
  pub validate-Sound :
      (r : Request f64) → validate f64 r ≡ ok tt → ((r.key == "") ≡ false) × Sound f64 r.algorithm r
  unfolding validate
  validate-Sound r h = go r.algorithm refl
    where
      go : (a : Algorithm) → r.algorithm ≡ a → ((r.key == "") ≡ false) × Sound f64 a r
      go token_bucket p = (
        ground arith,
        (ground arith, between 1 1000000 r.burst (ground arith) (ground arith) (omega arith)),
      )
      go fixed_window p = (
        ground arith,
        (
          between 1 1000000 r.limit (ground arith) (ground arith) (omega arith),
          between 1000000 86_400_000_000_000 r.window (ground arith) (ground arith) (omega arith),
        ),
      )
      go sliding_window_counter p = (
        ground arith,
        (
          between 1 1000000 r.limit (ground arith) (ground arith) (omega arith),
          between 1000000 86_400_000_000_000 r.window (ground arith) (ground arith) (omega arith),
        ),
      )
      go sliding_window_log p = (
        ground arith,
        (
          between 1 10000 r.limit (ground arith) (ground arith) (omega arith),
          between 1000000 86_400_000_000_000 r.window (ground arith) (ground arith) (omega arith),
        ),
      )
      go leaky_bucket p = (
        ground arith,
        (ground arith, between 1 1000000 r.capacity (ground arith) (ground arith) (omega arith)),
      )
      go (other x) p = absurd (ground arith)

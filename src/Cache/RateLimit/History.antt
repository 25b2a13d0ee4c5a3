-- ===== src/Cache/RateLimit/History.antt =====
-- cache/memory/rate_limit.go: the requests of one key, each a batch of its own, as TakeRateLimits
-- answers them: the state is taken up by `renew`, and is stored with its expiry time if allowed.
use kratos_kit.Base.{ℕ, ◌+◌, ◌≤◌, ◌≡◌, refl, Bool, false, List, [], ◌∷◌, some, if◌then◌else◌, arith}
use kratos_kit.Base.Float.{Float64}
use kratos_kit.Cache.RateLimit.{Request, State, Verdict}
use kratos_kit.Cache.RateLimit.Apply.{apply_rate_limit, state_ttl}
use kratos_kit.Cache.RateLimit.Take.{add_time, renew}

-- How many of the times the test takes.
abbrev pub count : (ℕ → Bool) → List ℕ → ℕ
count p [] = 0
count p (t ∷ ts) = let n = count p ts in if p t then n + 1 else n

-- The times do not go back, from `start` on.
abbrev pub InOrder : ℕ → List ℕ → Type 0
InOrder start [] = Unit
InOrder start (t ∷ ts) = (start ≤ t) × InOrder t ts

module _ (f64 : Float64) (r : Request f64) where
  abbrev pub answer : ℕ → State f64 → Verdict f64
  answer now s = apply_rate_limit f64 now r (renew f64 now (some s))

  -- The state after a request at `now`.
  abbrev pub after_request : ℕ → State f64 → State f64
  after_request now s =
      if (answer now s).allowed
      then record ((answer now s).next) { expires_at = add_time now (state_ttl f64 r) }
      else s

  -- The times of the requests that are let through.
  unfoldable pub admitted : List ℕ → State f64 → List ℕ
  admitted [] s = []
  admitted (t ∷ ts) s =
      let rest = admitted ts (after_request t s) in if (answer t s).allowed then t ∷ rest else rest

  -- Nothing is let through before the first request.
  pub count-admitted_before :
      (p : ℕ → Bool) (start : ℕ) (ts : List ℕ) (s : State f64)
      → InOrder start ts
      → ((t : ℕ) → start ≤ t → p t ≡ false)
      → count p (admitted ts s) ≡ 0
  unfolding admitted
  count-admitted_before p start [] s o h = refl
  count-admitted_before p start (t ∷ ts) s (le, o) h =
      ground (
        arith,
        h t le,
        count-admitted_before p t ts (after_request t s) o (λ u q. h u (omega arith)),
      )

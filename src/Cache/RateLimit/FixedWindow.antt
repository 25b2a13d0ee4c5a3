-- ===== src/Cache/RateLimit/FixedWindow.antt =====
-- cache/memory/rate_limit.go: the fixed window, whose windows cut the clock, and the requests
-- that it lets through.
use kratos_kit.Base.{ℕ, ◌/◌, ◌^◌, ◌≤◌, ◌<◌, ◌≡◌, Bool, nat_eq}
use kratos_kit.Base.Float.{Float64}
use kratos_kit.Base.Int.{pos}
use kratos_kit.Base.Time.{Time, at}
use kratos_kit.Cache.RateLimit.{Request, State, fixed_window}

-- A request of this algorithm, over windows of `w` nanoseconds that a duration holds twice.
pub record IsFixed (f64 : Float64) (r : Request f64) (w n : ℕ) : Type 0 where
  pub algorithm : r.algorithm ≡ fixed_window
  pub window : r.window ≡ pos w
  pub limit : r.limit ≡ pos n
  pub positive : 0 < w
  pub short : w < 2 ^ 62

abbrev pub in_slot : ℕ → ℕ → ℕ → Bool
in_slot w id t = nat_eq (t / w) id

module _ (f64 : Float64) (r : Request f64) (w n : ℕ) (is : IsFixed f64 r w n) where
  -- The stored state at `start`: its window is not ahead, its count within the limit, and its
  -- window has ended by its expiry time.
  pub record IsKept (start : ℕ) (s : State f64) : Type 0 where
    pub few : s.current_count ≤ n
    pub current : s.window_id ≤ start / w
    pub covered : (e t : ℕ) → s.expires_at ≡ at e → e ≤ t → s.window_id < t / w

-- ===== src/Cache/RateLimit/WindowLog.antt =====
-- cache/memory/rate_limit.go: the sliding window log, and the requests that it lets through, in
-- windows that may stand anywhere.
use kratos_kit.Base.{ℕ, ◌+◌, ◌≤◌, ◌≡◌, Bool, ◌&&◌, List, [], ◌∷◌, length, ltb, leb, All, arith}
use kratos_kit.Base.Float.{Float64}
use kratos_kit.Base.Int.{pos}
use kratos_kit.Base.Time.{Time, at}
use kratos_kit.Cache.RateLimit.{Request, State, sliding_window_log}
use kratos_kit.Cache.RateLimit.Apply.{drop_old}

-- `t` lies in the window of length `w` that ends at `x`: x - w < t ≤ x.
abbrev pub in_window : ℕ → ℕ → ℕ → Bool
in_window w x t = leb t x && ltb x (t + w)

length-drop_old : (now w : ℕ) (es : List ℕ) → length (drop_old now w es) ≤ length es
unfolding drop_old
length-drop_old now w [] = omega arith
length-drop_old now w (e ∷ es) = ground (arith, length-drop_old now w es)

-- A request of this algorithm, over a window of `w` nanoseconds.
pub record IsLog (f64 : Float64) (r : Request f64) (w n : ℕ) : Type 0 where
  pub algorithm : r.algorithm ≡ sliding_window_log
  pub window : r.window ≡ pos w
  pub limit : r.limit ≡ pos n

module _ (f64 : Float64) (r : Request f64) (w n : ℕ) (is : IsLog f64 r w n) where
  -- The stored state at `start`: its events are past and at most the limit, and have all left the
  -- window by its expiry time.
  pub record IsKept (start : ℕ) (s : State f64) : Type 0 where
    pub few : length s.events ≤ n
    pub past : All (λ e. e ≤ start) s.events
    pub covered : (e : ℕ) → s.expires_at ≡ at e → All (λ t. t + w ≤ e) s.events

  abbrev kept_events : ℕ → State f64 → List ℕ
  kept_events t s = drop_old t w s.events

-- ===== src/Cache/RateLimit/Take.antt =====
-- cache/memory/rate_limit.go: TakeRateLimits, one step under rateLimitMutex at the reading `now`.
use kratos_kit.Base.{
  ℕ, ◌+◌, ◌≡◌, refl, String, Bool, true, false, ◌&&◌, ◌||◌, not, Option, none, some, List, [], ◌∷◌,
  map, ◌==◌, if◌then◌else◌,
}
use kratos_kit.Base.Float.{Float64}
use kratos_kit.Base.Int.{ℤ, pos, pos_part, ltb_ℤ, ◌+ℤ◌}
use kratos_kit.Base.Dict.{Dict, lookup, insert}
use kratos_kit.Base.Time.{Time, at, is_zero, before, after, minute}
use kratos_kit.Cache.Store.{Result, ok, err, duplicate_key}
use kratos_kit.Cache.RateLimit.{
  Request, TokenBucketRequest, as_request, State, Verdict, no_state, validate,
}
use kratos_kit.Cache.RateLimit.Apply.{apply_rate_limit, state_ttl}

-- now.Add(d), for a sum that is not before 1970
abbrev pub add_time : ℕ → ℤ → Time
add_time now d = at (pos_part (pos now +ℤ d))

-- The membership test of the map `seen`.
abbrev pub contains : String → List String → Bool
contains k [] = false
contains k (j ∷ js) = (j == k) || contains k js

-- The early return of the loop on an error.
abbrev pub bind {ℓ κ} : {A : Type ℓ} {B : Type κ} → Result A → (A → Result B) → Result B
bind (ok a) f = f a
bind (err e) f = err e

pub bind-eq-ok {ℓ κ} :
    {A : Type ℓ} {B : Type κ} (x : Result A) (f : A → Result B) {b : B}
    → bind x f ≡ ok b
    → (a : A) × (x ≡ ok a) × (f a ≡ ok b)
bind-eq-ok (ok a) f h = (a, refl, h)
bind-eq-ok (err e) f h = cc

module _ (f64 : Float64) where
  -- The rate-limit part of Memory.
  pub record Limiter : Type 0 where
    pub items : Option (Dict (State f64))
    pub cleanup_at : Time

  -- !now.Before(state.expiresAt)
  abbrev pub is_over : ℕ → State f64 → Bool
  is_over now s = not (before now s.expires_at)

  unfoldable pub purge : ℕ → Dict (State f64) → Dict (State f64)
  purge now [] = []
  purge now ((k, s) ∷ l) = let rest = purge now l in if is_over now s then rest else (k, s) ∷ rest

  abbrev pub items_of : Option (Dict (State f64)) → Dict (State f64)
  items_of none = []
  items_of (some m) = m

  -- The periodic removal of what has expired.
  unfoldable pub clean : ℕ → Limiter → Limiter
  unfolding purge
  clean now l =
      if after now l.cleanup_at
      then record { items = some (purge now (items_of l.items)); cleanup_at = at (now + minute) }
      else record l { items = some (items_of l.items) }

  -- A state as TakeRateLimits takes it up: the zero value where there is none or it has expired.
  abbrev pub renew : ℕ → Option (State f64) → State f64
  renew now none = no_state f64
  renew now (some s) = if not (is_zero s.expires_at) && is_over now s then no_state f64 else s

  abbrev pub state_at : ℕ → String → Dict (State f64) → State f64
  state_at now k m = renew now (lookup k m)

  -- The variables of the loop.
  pub record Progress : Type 0 where
    pub updates : Dict (State f64)
    pub seen : List String
    pub retry_after : ℤ
    pub denied : Bool

  abbrev pub start : Progress
  start = record { updates = []; seen = []; retry_after = pos 0; denied = false }

  abbrev pub judge : ℕ → Request f64 → Verdict f64 → Progress → Progress
  judge now r v p =
      if v.allowed
      then record p {
        updates =
            insert r.key (record (v.next) { expires_at = add_time now (state_ttl f64 r) })
              p.updates;
        seen = r.key ∷ p.seen;
      }
      else record p {
        seen = r.key ∷ p.seen;
        retry_after = if ltb_ℤ p.retry_after v.retry then v.retry else p.retry_after;
        denied = true;
      }

  -- The body of the loop.
  unfoldable pub visit : ℕ → Dict (State f64) → Request f64 → Progress → Result Progress
  visit now m r p = elim (validate f64 r) [
    | err e ↦ err e
    | ok _ ↦
        if contains r.key p.seen
        then err (duplicate_key r.key)
        else ok (judge now r (apply_rate_limit f64 now r (state_at now r.key m)) p)
  ]

  unfoldable pub visit_all : ℕ → Dict (State f64) → List (Request f64) → Progress → Result Progress
  visit_all now m [] p = ok p
  visit_all now m (r ∷ rs) p = bind (visit now m r p) (visit_all now m rs)

  unfoldable pub store_all : Dict (State f64) → Dict (State f64) → Dict (State f64)
  store_all [] m = m
  store_all ((k, s) ∷ us) m = insert k s (store_all us m)

  -- What becomes of the loop's outcome.
  unfoldable pub settle : Limiter → Result Progress → Limiter × Result (Bool × ℤ)
  unfolding store_all
  settle l (err e) = (l, err e)
  settle l (ok p) =
      if p.denied
      then (l, ok (false, p.retry_after))
      else (record l { items = some (store_all p.updates (items_of l.items)) }, ok (true, pos 0))

  -- TakeRateLimits
  unfoldable pub take_rate_limits : ℕ → List (Request f64) → Limiter → Limiter × Result (Bool × ℤ)
  unfolding clean settle
  take_rate_limits now [] l = (l, ok (true, pos 0))
  take_rate_limits now (r ∷ rs) l =
      let l' = clean now l in settle l' (visit_all now (items_of l'.items) (r ∷ rs) start)

  -- TakeTokenBuckets
  abbrev pub take_token_buckets :
      ℕ → List (TokenBucketRequest f64) → Limiter → Limiter × Result (Bool × ℤ)
  take_token_buckets now rs l = take_rate_limits now (map (as_request f64) rs) l

-- ===== src/Cache/RateLimit/Batch.antt =====
-- cache/memory/rate_limit.go: what TakeRateLimits leaves behind a batch that is refused.
use kratos_kit.Base.{
  ℕ, ◌≤◌, ◌≡◌, refl, ◌∙◌, ◌⊎◌, String, false, Option, none, some, List, [], ◌∷◌, Option-cases, inl,
  inr, arith, eq_iff, if◌then◌else◌,
}
use kratos_kit.Base.Float.{Float64}
use kratos_kit.Base.Int.{ℤ}
use kratos_kit.Base.Dict.{Dict, lookup, Distinct}
use kratos_kit.Base.Time.{is_zero}
use kratos_kit.Cache.Store.{Error, Result, ok, err}
use kratos_kit.Cache.RateLimit.{Request, State}
use kratos_kit.Cache.RateLimit.Take.{
  Limiter, is_over, purge, items_of, clean, state_at, Progress, start, visit_all, settle,
  take_rate_limits,
}

module _ (f64 : Float64) where
  -- A map of states: no key twice, and every stored state has an expiry time.
  pub record IsStored (m : Dict (State f64)) : Type 0 where
    pub distinct : Distinct m
    pub timed : (k : String) (s : State f64) → lookup k m ≡ some s → is_zero s.expires_at ≡ false

  abbrev over_is_gone : ℕ → Option (State f64) → Option (State f64)
  over_is_gone now none = none
  over_is_gone now (some s) = if is_over f64 now s then none else some s

  lookup-purge :
      (now : ℕ) (k : String) (m : Dict (State f64))
      → Distinct m
      → lookup k (purge f64 now m) ≡ over_is_gone now (lookup k m)
  unfolding lookup purge
  lookup-purge now k [] d = refl
  lookup-purge now k ((j, s) ∷ l) (fresh, d) = ground (arith, lookup-purge now k l d, eq_iff j k)

  -- The periodic removal is invisible: a key that it drops reads as the zero state anyway.
  state_at-clean :
      (now t : ℕ) (k : String) (l : Limiter f64)
      → IsStored (items_of f64 l.items)
      → now ≤ t
      → state_at f64 t k (items_of f64 (clean f64 now l).items)
        ≡ state_at f64 t k (items_of f64 l.items)
  unfolding clean
  state_at-clean now t k l h le = elim (Option-cases (lookup k (items_of f64 l.items))) [
    | inl p ↦ ground (arith, lookup-purge now k (items_of f64 l.items) h.distinct)
    | inr (s, p) ↦
        ground (arith, lookup-purge now k (items_of f64 l.items) h.distinct, h.timed k s p)
  ]

  -- A batch that is refused, or in error, has consumed nothing: from then on every key reads the
  -- state that it read before, provided that the map holds no key twice and every stored state
  -- has an expiry time.
  pub take_refused :
      (now t : ℕ) (k : String) (rs : List (Request f64)) (l : Limiter f64) (d : ℤ)
      → IsStored (items_of f64 l.items)
      → now ≤ t
      → ((take_rate_limits f64 now rs l).1 ≡ ok (false, d))
        ⊎ ((e : Error) × ((take_rate_limits f64 now rs l).1 ≡ err e))
      → state_at f64 t k (items_of f64 (take_rate_limits f64 now rs l).0.items)
        ≡ state_at f64 t k (items_of f64 l.items)
  unfolding take_rate_limits
  take_refused now t k [] l d h le q = refl
  take_refused now t k (r ∷ rs) l d h le q =
      settle_refused (clean f64 now l) (visit_all f64 now _ (r ∷ rs) (start f64)) q
      ∙ state_at-clean now t k l h le
    where
      settle_refused :
          (l' : Limiter f64) (x : Result (Progress f64))
          → ((settle f64 l' x).1 ≡ ok (false, d)) ⊎ ((e : Error) × ((settle f64 l' x).1 ≡ err e))
          → state_at f64 t k (items_of f64 (settle f64 l' x).0.items)
            ≡ state_at f64 t k (items_of f64 l'.items)
      settle_refused l' (err e) q = refl
      settle_refused l' (ok p) q = ground arith

-- ===== src/Cache/RateLimit/Grant.antt =====
-- cache/memory/rate_limit.go: what an allowed batch stores.
use kratos_kit.Base.{
  ℕ, ◌≡◌, refl, ◌∙◌, ◌⊎◌, String, true, false, Option, none, some, List, [], ◌∷◌, map, All, All-map,
  inl, inr, arith, ◌==◌, eq_iff, eq_refl,
}
use kratos_kit.Base.Float.{Float64}
use kratos_kit.Base.Int.{ℤ}
use kratos_kit.Base.Dict.{Dict, lookup, lookup-nil, lookup-insert}
use kratos_kit.Cache.Store.{Result, ok, err}
use kratos_kit.Cache.RateLimit.{Request, State, Verdict}
use kratos_kit.Cache.RateLimit.Apply.{apply_rate_limit, state_ttl}
use kratos_kit.Cache.RateLimit.Take.{
  add_time, contains, Limiter, items_of, clean, state_at, Progress, start, visit, bind-eq-ok,
  visit_all, store_all, settle, take_rate_limits,
}

module _ (f64 : Float64) (now : ℕ) (m : Dict (State f64)) where
  -- The answer to a request against the stored states.
  abbrev pub verdict : Request f64 → Verdict f64
  verdict r = apply_rate_limit f64 now r (state_at f64 now r.key m)

  -- The state that a request leaves, if it is allowed.
  abbrev pub granted : Request f64 → State f64
  granted r = record ((verdict r).next) { expires_at = add_time now (state_ttl f64 r) }

  -- What one visit does to the loop's variables.
  record Visited (r : Request f64) (p p' : Progress f64) : Type 0 where
    allowed : p'.denied ≡ false → (p.denied ≡ false) × ((verdict r).allowed ≡ true)
    stored : p'.denied ≡ false → lookup r.key p'.updates ≡ some (granted r)
    others : (k : String) → (r.key == k) ≡ false → lookup k p'.updates ≡ lookup k p.updates
    fresh : contains r.key p.seen ≡ false
    noted : p'.seen ≡ r.key ∷ p.seen

  visit-Visited :
      (r : Request f64) (p p' : Progress f64) → visit f64 now m r p ≡ ok p' → Visited r p p'
  unfolding visit
  visit-Visited r p p' q = record {
    allowed = λ d. ground arith;
    stored = λ d. ground (arith, lookup-insert r.key r.key (granted r) p.updates, eq_refl r.key);
    others = λ k ne. ground (arith, lookup-insert r.key k (granted r) p.updates);
    fresh = ground arith;
    noted = ground arith;
  }

  abbrev pub keys : List (Request f64) → List String
  keys = map (λ r. r.key)

  -- The key of a request that was allowed, with its new state in `u`.
  abbrev pub Granted : Dict (State f64) → Request f64 → Type 0
  Granted u r = ((verdict r).allowed ≡ true) × (lookup r.key u ≡ some (granted r))

  -- What the whole loop does to its variables.
  record Passed (rs : List (Request f64)) (p p' : Progress f64) : Type 0 where
    allowed : p'.denied ≡ false → (p.denied ≡ false) × All (Granted p'.updates) rs
    others :
        (k : String)
        → (contains k (keys rs) ≡ false) ⊎ (contains k p.seen ≡ true)
        → lookup k p'.updates ≡ lookup k p.updates

  Passed-others :
      (r : Request f64) (rs : List (Request f64)) (p p₁ p' : Progress f64)
      → Visited r p p₁
      → Passed rs p₁ p'
      → (k : String) → (contains k (keys (r ∷ rs)) ≡ false) ⊎ (contains k p.seen ≡ true)
      → lookup k p'.updates ≡ lookup k p.updates
  Passed-others r rs p p₁ p' v w k (inl out) =
      w.others k (inl (ground arith)) ∙ v.others k (ground arith)
  Passed-others r rs p p₁ p' v w k (inr old) =
      let other : (r.key == k) ≡ false = ground (arith, v.fresh, eq_iff r.key k) in
      w.others k (inr (rw v.noted (ground arith))) ∙ v.others k other

  Passed-cons :
      (r : Request f64) (rs : List (Request f64)) (p p₁ p' : Progress f64)
      → Visited r p p₁
      → Passed rs p₁ p'
      → Passed (r ∷ rs) p p'
  Passed-cons r rs p p₁ p' v w = record {
    allowed = λ d.
        let (d₁, all) = w.allowed d in
        let (d₀, yes_r) = v.allowed d₁ in
        (
          d₀,
          (
            (
              yes_r,
              w.others r.key (inr (rw v.noted (ground (arith, eq_refl r.key)))) ∙ v.stored d₁,
            ),
            all,
          ),
        );
    others = Passed-others r rs p p₁ p' v w;
  }

  visit_all-Passed :
      (rs : List (Request f64)) (p p' : Progress f64)
      → visit_all f64 now m rs p ≡ ok p'
      → Passed rs p p'
  unfolding visit_all
  visit_all-Passed [] p p' q = record {
    allowed = λ d. (ground arith, tt);
    others = λ k _. ground arith;
  }
  visit_all-Passed (r ∷ rs) p p' q =
      let (p₁, first, rest) = bind-eq-ok (visit f64 now m r p) (visit_all f64 now m rs) q in
      Passed-cons r rs p p₁ p' (visit-Visited r p p₁ first) (visit_all-Passed rs p₁ p' rest)

-- What stands under a key after the updates are stored: the update, if there is one.
abbrev pub or_else {ℓ} : {A : Type ℓ} → Option A → Option A → Option A
or_else none b = b
or_else (some a) b = some a

module _ (f64 : Float64) where
  lookup-store_all :
      (us m : Dict (State f64)) (k : String)
      → lookup k (store_all f64 us m) ≡ or_else (lookup k us) (lookup k m)
  unfolding store_all lookup
  lookup-store_all [] m k = refl
  lookup-store_all ((j, s) ∷ us) m k =
      ground (arith, lookup-insert j k s (store_all f64 us m), lookup-store_all us m k)

  -- The whole batch is stored in `m'`, which has the other keys of `m`.
  pub record Stores (now : ℕ) (m m' : Dict (State f64)) (rs : List (Request f64)) : Type 0 where
    pub all : All (Granted f64 now m m') rs
    pub others : (k : String) → contains k (keys f64 now m rs) ≡ false → lookup k m' ≡ lookup k m

  settle-Stores :
      (now : ℕ) (rs : List (Request f64)) (l : Limiter f64) (p : Progress f64) (d : ℤ)
      → Passed f64 now (items_of f64 l.items) rs (start f64) p
      → (settle f64 l (ok p)).1 ≡ ok (true, d)
      → Stores now (items_of f64 l.items) (items_of f64 (settle f64 l (ok p)).0.items) rs
  unfolding settle
  settle-Stores now rs l p d passed q =
      let m = items_of f64 l.items in
      let admitted : p.denied ≡ false = ground arith in
      let stored : (settle f64 l (ok p)).0.items ≡ some (store_all f64 p.updates m) =
        ground arith in
      let (_, granted_all) = passed.allowed admitted in
      record {
        all =
            All-map {P = Granted f64 now m p.updates}
              {Q = Granted f64 now m (items_of f64 (settle f64 l (ok p)).0.items)}
              (λ r g. (g.0, rw stored (lookup-store_all p.updates m r.key ∙ ground (arith, g.1))))
              rs granted_all;
        others = λ k out. rw stored (
            lookup-store_all p.updates m k
            ∙ ground (arith, passed.others k (inl out), lookup-nil {V = State f64} k));
      }

  -- A batch that is allowed: against the states as they stood after the periodic removal, every
  -- request was allowed by its algorithm and its new state is stored with its expiry time, and no
  -- other key has changed.
  pub take_allowed :
      (now : ℕ) (r : Request f64) (rs : List (Request f64)) (l : Limiter f64) (d : ℤ)
      → (take_rate_limits f64 now (r ∷ rs) l).1 ≡ ok (true, d)
      → Stores now
          (items_of f64 (clean f64 now l).items)
          (items_of f64 (take_rate_limits f64 now (r ∷ rs) l).0.items)
          (r ∷ rs)
  unfolding take_rate_limits
  take_allowed now r rs l d q = go (visit_all f64 now _ (r ∷ rs) (start f64)) refl q
    where
      go :
          (x : Result (Progress f64))
          → visit_all f64 now (items_of f64 (clean f64 now l).items) (r ∷ rs) (start f64) ≡ x
          → (settle f64 (clean f64 now l) x).1 ≡ ok (true, d)
          → Stores now
              (items_of f64 (clean f64 now l).items)
              (items_of f64 (settle f64 (clean f64 now l) x).0.items)
              (r ∷ rs)
      go (err e) p q = absurd (cc)
      go (ok p') p q =
          settle-Stores now (r ∷ rs) (clean f64 now l) p' d
            (visit_all-Passed f64 now _ (r ∷ rs) (start f64) p' p) q

-- ===== src/Cache/RateLimit/Tests.antt =====
-- Rate limits at concrete inputs, over integers in place of floats.
use kratos_kit.Base.{ℕ, ◌≡◌, refl, inr, true, false, some, List, [], ◌∷◌, arith, if◌then◌else◌}
use kratos_kit.Base.Float.{Float64}
use kratos_kit.Base.Dict.{lookup, insert, erase, lookup-nil}
use kratos_kit.Base.Int.{ℤ, pos, ◌+ℤ◌, ◌-ℤ◌, ◌*ℤ◌, ltb_ℤ, wrap}
use kratos_kit.Base.Time.{zero_time}
use kratos_kit.Cache.Store.{Error}
use kratos_kit.Cache.RateLimit.{
  Request, State, no_state, fixed_window, sliding_window_log, validate,
}
use kratos_kit.Cache.RateLimit.Apply.{
  apply_rate_limit, apply_window_log, apply_fixed_window, drop_old, state_ttl,
}
use kratos_kit.Cache.RateLimit.Take.{
  Limiter, items_of, state_at, take_rate_limits, visit_all, visit, clean,
}
use kratos_kit.Cache.RateLimit.Batch.{IsStored, take_refused}
use kratos_kit.Cache.RateLimit.Grant.{Stores, take_allowed}
use kratos_kit.Cache.RateLimit.History.{admitted}

-- Integers stand for floats here: nothing below computes with a fraction.
abbrev whole : Float64
whole = record {
  Float = ℤ;
  of_int = λ n. n;
  milli = pos 0;
  seconds = λ d. d;
  trunc = λ x. x;
  ceil = λ x. x;
  add = ◌+ℤ◌;
  sub = ◌-ℤ◌;
  mul = ◌*ℤ◌;
  div = λ a b. a;
  pow = λ a b. a;
  min_float = λ a b. if ltb_ℤ a b then a else b;
  max_float = λ a b. if ltb_ℤ a b then b else a;
  ltb_float = ltb_ℤ;
  leb_float = λ a b. if ltb_ℤ b a then false else true;
  is_inf = λ x. false;
  is_nan = λ x. false;
}

-- Two requests in 10 ms.
abbrev log_request : Request whole
log_request = record {
  key = "k";
  algorithm = sliding_window_log;
  tokens_per_second = pos 0;
  burst = pos 0;
  limit = pos 2;
  window = pos 10_000_000;
  leak_rate_per_second = pos 0;
  capacity = pos 0;
}

abbrev fixed_request : Request whole
fixed_request = record log_request { key = "f"; algorithm = fixed_window }

abbrev empty : Limiter whole
empty = record { items = some []; cleanup_at = zero_time }

abbrev times : List ℕ
times = 1_000_000 ∷ 2_000_000 ∷ 3_000_000 ∷ 11_500_000 ∷ 30_000_000 ∷ []

program : Unit {0}
unfolding take_rate_limits visit_all visit validate apply_rate_limit apply_window_log
    apply_fixed_window drop_old state_ttl lookup insert erase wrap ◌+ℤ◌ ◌*ℤ◌ admitted
program = tt

let_through :
    admitted whole log_request times (no_state whole)
    ≡ 1_000_000 ∷ 2_000_000 ∷ 11_500_000 ∷ 30_000_000 ∷ []
unfolding program
let_through = refl

take_allowed_example :
    Stores whole 5
      (items_of whole (clean whole 5 empty).items)
      (items_of whole (take_rate_limits whole 5 (log_request ∷ fixed_request ∷ []) empty).0.items)
      (log_request ∷ fixed_request ∷ [])
unfolding program
take_allowed_example = take_allowed whole 5 log_request (fixed_request ∷ []) empty (pos 0) refl

empty-IsStored : IsStored whole (items_of whole empty.items)
empty-IsStored = record {
  distinct = tt;
  timed = λ k s p. absurd (ground (arith, lookup-nil {V = State whole} k));
}

-- The same key twice in a batch is an error.
take_refused_example :
    state_at whole 7 "k"
      (items_of whole (take_rate_limits whole 5 (log_request ∷ log_request ∷ []) empty).0.items)
    ≡ state_at whole 7 "k" (items_of whole empty.items)
unfolding program
take_refused_example =
    take_refused whole 5 7 "k" (log_request ∷ log_request ∷ []) empty (pos 0) empty-IsStored
      (omega arith) (inr (Error.duplicate_key "k", refl))

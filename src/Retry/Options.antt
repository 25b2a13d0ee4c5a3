-- ===== src/Retry/Options.antt =====
-- retry/retry.go: what New leaves in a Retrier, whatever the options.
use kratos_kit.Base.{zero, suc, ◌<◌, List, [], ◌∷◌, none, some, arith}
use kratos_kit.Base.Int.{ℤ, pos, negsuc, ◌≤ℤ◌}
use kratos_kit.Retry.{
  Setting, Retrier, with_max_attempts, with_backoff, with_jitter, with_classifier,
  with_max_total_wait, apply_setting, apply_settings, new,
}

module _ {E R : Type 0} where
  -- There is at least one attempt, and the total wait is not negative.
  pub record IsUsable (r : Retrier E R) : Type 0 where
    pub some_attempt : 0 < r.max_attempts
    pub wait_nonneg : pos 0 ≤ℤ r.max_total_wait

  apply_setting-IsUsable :
      (o : Setting E R) (r : Retrier E R) → IsUsable r → IsUsable (apply_setting o r)
  unfolding apply_setting
  apply_setting-IsUsable (with_max_attempts (pos zero)) r h = h
  apply_setting-IsUsable (with_max_attempts (pos (suc n))) r h = ground arith
  apply_setting-IsUsable (with_max_attempts (negsuc n)) r h = h
  apply_setting-IsUsable (with_backoff none) r h = h
  apply_setting-IsUsable (with_backoff (some b)) r h = ground arith
  apply_setting-IsUsable (with_jitter none) r h = h
  apply_setting-IsUsable (with_jitter (some b)) r h = ground arith
  apply_setting-IsUsable (with_classifier none) r h = h
  apply_setting-IsUsable (with_classifier (some b)) r h = ground arith
  apply_setting-IsUsable (with_max_total_wait t) r h = ground arith

  apply_settings-IsUsable :
      (os : List (Setting E R)) (r : Retrier E R) → IsUsable r → IsUsable (apply_settings os r)
  unfolding apply_settings
  apply_settings-IsUsable [] r h = h
  apply_settings-IsUsable (o ∷ os) r h =
      apply_settings-IsUsable os (apply_setting o r) (apply_setting-IsUsable o r h)

  -- Whatever the options, the Retrier that New returns makes at least one attempt, and its total
  -- wait is not negative: an option with a value that is not positive is ignored.
  pub new-IsUsable : (exponential : ℤ → ℤ) (os : List (Setting E R)) → IsUsable (new exponential os)
  unfolding new
  new-IsUsable exponential os = apply_settings-IsUsable os _ (omega arith)

-- ===== src/Retry.antt =====
-- retry/retry.go: the Retrier, its options and the loop of Do. The operation, the context and the
-- random source belong to the caller: what they answer at each attempt is a Round.
pub mod Backoff
pub mod Loop
pub mod Options
pub mod Rounds
pub mod Cancel
mod Tests
use kratos_kit.Base.{
  ℕ, zero, suc, ◌+◌, ◌≡◌, Bool, true, false, ◌&&◌, not, Option, none, some, List, [], ◌∷◌, nat_eq,
  if◌then◌else◌,
}
use kratos_kit.Base.Int.{ℤ, pos, negsuc, ltb_ℤ}

-- context.Canceled and context.DeadlineExceeded
pub data ContextError : Type 0 where
  canceled deadline_exceeded : ContextError

-- What one look at the contexts sees: ctx.Err(), whether the deadline of the derived runCtx has
-- passed, and ctx.Err() as it is read again when runCtx.Err() is not nil.
pub record Signal : Type 0 where
  pub ctx : Option ContextError
  pub expired : Bool
  pub ctx_later : Option ContextError

-- runCtx.Err(): with no total wait runCtx is ctx itself.
abbrev pub run_err : Bool → Signal → Option ContextError
run_err limited s = elim s.ctx [
  | some e ↦ some e
  | none ↦ if limited && s.expired then some deadline_exceeded else none
]

-- `E` are the errors of operations, `R` the values of the random source.
module _ (E R : Type 0) where
  -- One round of the loop as the caller's side answers it.
  pub record Round : Type 0 where
    pub entry : Signal
    pub result : Option E
    pub exit : Signal
    pub draw : R
    pub wait : Signal

  pub record Retrier : Type 0 where
    pub max_attempts : ℕ
    pub backoff : ℤ → ℤ
    pub jitter : ℤ → R → ℤ
    pub classifier : E → Bool
    pub max_total_wait : ℤ

  -- The options; a nil function is `none`.
  pub data Setting : Type 0 where
    with_max_attempts : ℤ → Setting
    with_backoff : Option (ℤ → ℤ) → Setting
    with_jitter : Option (ℤ → R → ℤ) → Setting
    with_classifier : Option (E → Bool) → Setting
    with_max_total_wait : ℤ → Setting

  -- The results of Do: errors.Join(ErrTimeout, lastErr) is `timeout`, and so for ErrMaxAttempts.
  pub data Outcome : Type 0 where
    success : Outcome
    context_error : ContextError → Outcome
    timeout : Option E → Outcome
    rejected : E → Outcome
    max_attempts_exceeded : Option E → Outcome

  -- One iteration: it returns, having called the operation or not and having begun a wait or
  -- not, or the loop goes on with the error and the wait that it slept.
  pub data Iteration : Type 0 where
    leave : ℕ → Option ℤ → Outcome → Iteration
    again : E → Option ℤ → Iteration

  -- A whole run: its calls of the operation, the timers that it started, and its result.
  pub record Run : Type 0 where
    pub calls : ℕ
    pub delays : List ℤ
    pub outcome : Outcome

-- NoJitter
abbrev pub no_jitter {ℓ} : {R : Type ℓ} → ℤ → R → ℤ
no_jitter delay _ = delay

-- RetryAny and RetryNever
abbrev pub retry_any {ℓ} : {E : Type ℓ} → E → Bool
retry_any _ = true

abbrev pub retry_never {ℓ} : {E : Type ℓ} → E → Bool
retry_never _ = false

abbrev pub note_delay : Option ℤ → List ℤ → List ℤ
note_delay none ds = ds
note_delay (some d) ds = d ∷ ds

module _ {E R : Type 0} where
  unfoldable pub apply_setting : Setting E R → Retrier E R → Retrier E R
  apply_setting (with_max_attempts (pos zero)) r = r
  apply_setting (with_max_attempts (pos (suc n))) r = record r { max_attempts = suc n }
  apply_setting (with_max_attempts (negsuc n)) r = r
  apply_setting (with_backoff none) r = r
  apply_setting (with_backoff (some b)) r = record r { backoff = b }
  apply_setting (with_jitter none) r = r
  apply_setting (with_jitter (some j)) r = record r { jitter = j }
  apply_setting (with_classifier none) r = r
  apply_setting (with_classifier (some c)) r = record r { classifier = c }
  apply_setting (with_max_total_wait t) r =
      if ltb_ℤ (pos 0) t then record r { max_total_wait = t } else r

  unfoldable pub apply_settings : List (Setting E R) → Retrier E R → Retrier E R
  unfolding apply_setting
  apply_settings [] r = r
  apply_settings (o ∷ os) r = apply_settings os (apply_setting o r)

  -- New: three attempts, the default backoff (a parameter: it computes with floats), no jitter.
  unfoldable pub new : (ℤ → ℤ) → List (Setting E R) → Retrier E R
  unfolding apply_settings
  new exponential options = apply_settings options (record {
    max_attempts = 3;
    backoff = exponential;
    jitter = no_jitter;
    classifier = retry_any;
    max_total_wait = pos 0;
  })

  abbrev pub limited : Retrier E R → Bool
  limited r = ltb_ℤ (pos 0) r.max_total_wait

  -- What Do returns when runCtx is done.
  abbrev pub interrupted : Signal → Option E → Outcome E R
  interrupted s last = elim s.ctx_later [ some e ↦ context_error e | none ↦ timeout last ]

  -- The tail of an iteration after a failure that may be tried again.
  unfoldable pub pause : Retrier E R → ℕ → Round E R → E → Iteration E R
  pause r attempt w e =
      let delay = r.jitter (r.backoff (pos attempt)) w.draw in
      if not (ltb_ℤ (pos 0) delay) then again e none else elim (run_err (limited r) w.wait) [
        | some _ ↦ leave 1 (some delay) (interrupted w.wait (some e))
        | none ↦ again e (some delay)
      ]

  -- The iteration from the call of the operation on.
  unfoldable pub operate : Retrier E R → ℕ → Round E R → Iteration E R
  unfolding pause
  operate r attempt w = elim (run_err (limited r) w.exit) [
    | some _ ↦ leave 1 none (interrupted w.exit w.result)
    | none ↦ elim w.result [
      | none ↦ leave 1 none success
      | some e ↦
          if not (r.classifier e)
          then leave 1 none (rejected e)
          else if nat_eq (suc attempt) r.max_attempts
          then leave 1 none (max_attempts_exceeded (some e))
          else pause r attempt w e
    ]
  ]

  unfoldable pub iterate : Retrier E R → ℕ → Option E → Round E R → Iteration E R
  unfolding operate
  iterate r attempt last w = elim (run_err (limited r) w.entry) [
    | some _ ↦ leave 0 none (interrupted w.entry last)
    | none ↦ operate r attempt w
  ]

  -- What an iteration adds to the run of the rounds behind it.
  abbrev pub follow : Iteration E R → (E → Run E R) → Run E R
  follow (leave n waited o) rest = record { calls = n; delays = note_delay waited []; outcome = o }
  follow (again e waited) rest = record (rest e) {
    calls = suc (rest e).calls;
    delays = note_delay waited (rest e).delays;
  }

  -- The loop of Do from `attempt` on, with `left` rounds to go.
  unfoldable pub do_rounds : Retrier E R → (ℕ → Round E R) → ℕ → ℕ → Option E → Run E R
  do_rounds r world zero attempt last = record {
    calls = 0;
    delays = [];
    outcome = max_attempts_exceeded last;
  }
  do_rounds r world (suc left) attempt last =
      follow (iterate r attempt last (world attempt))
        (λ e. do_rounds r world left (suc attempt) (some e))

  -- Do
  unfoldable pub do_retry : Retrier E R → (ℕ → Round E R) → Run E R
  unfolding do_rounds
  do_retry r world = do_rounds r world r.max_attempts 0 none

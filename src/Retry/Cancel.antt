-- ===== src/Retry/Cancel.antt =====
-- retry/retry.go: how the caller's context and the total wait end a run of Do.
use kratos_kit.Base.{ℕ, zero, suc, ◌≡◌, ◌≢◌, ◌⊎◌, inl, inr, false, Option, none, some, arith}
use kratos_kit.Base.Int.{ℤ}
use kratos_kit.Retry.{Signal, Round, Retrier, timeout, leave, limited, iterate, do_rounds, do_retry}
use kratos_kit.Retry.Loop.{Iteration-cases}

-- A context stays done: what ctx.Err() returned once, it returns later.
abbrev pub IsSticky : Signal → Type 0
IsSticky s = (s.ctx ≡ none) ⊎ (s.ctx_later ≡ s.ctx)

pub record AllSticky {E R : Type 0} (w : Round E R) : Type 0 where
  pub entry : IsSticky w.entry
  pub exit : IsSticky w.exit
  pub wait : IsSticky w.wait

module _ {E R : Type 0} (r : Retrier E R) where
  iterate-ne-timeout :
      (a : ℕ) (last x : Option E) (w : Round E R) (n : ℕ) (d : Option ℤ)
      → limited r ≡ false
      → AllSticky w
      → iterate r a last w ≢ leave n d (timeout x)
  unfolding iterate
  iterate-ne-timeout a last x w n d off st q = ground arith

  rounds-ne-timeout :
      (world : ℕ → Round E R) (left a : ℕ) (last x : Option E)
      → limited r ≡ false
      → ((i : ℕ) → AllSticky (world i))
      → (do_rounds r world left a last).outcome ≢ timeout x
  unfolding do_rounds
  rounds-ne-timeout world zero a last x off st q = cc
  rounds-ne-timeout world (suc left) a last x off st q =
      elim (Iteration-cases r (iterate r a last (world a))) [
        | inl (n, d, o, p) ↦
            let ended : o ≡ timeout x = rw p at q in
            iterate-ne-timeout a last x (world a) n d off (st a) (rw (← ended) p)
        | inr (e, d, p) ↦ rounds-ne-timeout world left (suc a) (some e) x off st (rw p at q)
      ]

  -- Without a total wait Do never reports ErrTimeout, whatever the operation does, provided that
  -- a context which is done stays done.
  pub do_retry-ne-timeout :
      (world : ℕ → Round E R) (x : Option E)
      → limited r ≡ false
      → ((i : ℕ) → AllSticky (world i))
      → (do_retry r world).outcome ≢ timeout x
  unfolding do_retry
  do_retry-ne-timeout world x off st = rounds-ne-timeout world r.max_attempts 0 none x off st

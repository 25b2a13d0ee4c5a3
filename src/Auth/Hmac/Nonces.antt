-- ===== src/Auth/Hmac/Nonces.antt =====
-- auth/authn/engine/hmac/hmac.go: how long the store keeps a nonce.
use kratos_kit.Base.{
  ℕ, ◌≤◌, ◌≡◌, ◌≢◌, String, Bool, true, false, ◌||◌, not, Option, none, some, [], ◌∷◌, arith,
  eq_iff, eq_refl,
}
use kratos_kit.Base.Int.{ℤ, pos, ltb_ℤ}
use kratos_kit.Base.Dict.{lookup, lookup-insert}
use kratos_kit.Auth.Hmac.{ReplayStore, purge, consume}

abbrev pub at_least : ℤ → Option ℤ → Bool
at_least e none = false
at_least e (some f) = not (ltb_ℤ f e)

-- The nonce may not be used before the store may forget it.
abbrev pub kept : String → ℤ → ℕ → ReplayStore → Bool
kept k e now s = ltb_ℤ e (pos now) || at_least e (lookup k s)

pub purge-kept :
    (k : String) (e : ℤ) (now : ℕ) (s : ReplayStore)
    → at_least e (lookup k s) ≡ true
    → ltb_ℤ e (pos now) ≡ false
    → at_least e (lookup k (purge now s)) ≡ true
unfolding lookup purge
purge-kept k e now [] h q = ground arith
purge-kept k e now ((j, f) ∷ s) h q = ground (arith, purge-kept k e now s)

module _ (k : String) (e : ℤ) (ended : Bool) (now : ℕ) where
  pub consume-kept :
      (before : ℕ) (key : String) (expires : ℤ) (s : ReplayStore)
      → before ≤ now
      → kept k e before s ≡ true
      → kept k e now (consume ended now key expires s).0 ≡ true
  unfolding consume
  consume-kept before key expires s le h =
      ground (arith, purge-kept k e now s, lookup-insert key k expires (purge now s), eq_iff key k)

  pub consume_fresh-kept :
      (s : ReplayStore)
      → (consume ended now k e s).1 ≡ some true
      → kept k e now (consume ended now k e s).0 ≡ true
  unfolding consume
  consume_fresh-kept s h = ground (arith, lookup-insert k k e (purge now s), eq_refl k)

  pub consume_blocked :
      (s : ReplayStore)
      → kept k e now s ≡ true
      → ltb_ℤ e (pos now) ≡ false
      → (consume ended now k e s).1 ≢ some true
  unfolding consume
  consume_blocked s h q = ground (arith, purge-kept k e now s)

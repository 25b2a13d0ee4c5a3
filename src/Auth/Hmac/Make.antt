-- ===== src/Auth/Hmac/Make.antt =====
-- auth/authn/engine/hmac/hmac.go: the options of NewAuthenticator. The nonce generator and the clock
-- are arguments of the calls; the store is the one in the process.
use kratos_kit.Base.{
  ◌≡◌, refl, String, Bool, true, false, Option, none, some, List, [], ◌∷◌, ◌++◌, eq_refl, ◌*◌,
  if◌then◌else◌,
}
use kratos_kit.Base.Int.{ℤ, pos}
use kratos_kit.Base.Dict.{Dict, insert, lookup-insert}
use kratos_kit.Base.Time.{minute}
use kratos_kit.Auth.Hmac.{Options, find_secret}

-- Option: WithSecret, WithSecrets, WithSecretResolver (none for nil) and WithMaxSkew
pub data Setting : Type 0 where
  with_secret : String → String → Setting
  with_secrets : Dict String → Setting
  with_secret_resolver : Option (String → Option String) → Setting
  with_max_skew : ℤ → Setting

unfoldable pub apply : Setting → Options → Options
apply (with_secret key secret) a = record a { secrets = insert key secret a.secrets }
apply (with_secrets secrets) a = record a { secrets = secrets }
apply (with_secret_resolver resolver) a = record a { resolver = resolver }
apply (with_max_skew d) a = record a { max_skew = d }

unfoldable pub apply_all : List Setting → Options → Options
unfolding apply
apply_all [] a = a
apply_all (x ∷ xs) a = apply_all xs (apply x a)

abbrev has_secrets : Dict String → Option (String → Option String) → Bool
has_secrets secrets (some f) = true
has_secrets [] none = false
has_secrets (x ∷ l) none = true

abbrev defaults : Options
defaults = record { secrets = []; resolver = none; max_skew = pos (5 * minute) }

-- NewAuthenticator, none for ErrMissingSecret
unfoldable pub new_authenticator : List Setting → Option Options
unfolding apply_all
new_authenticator xs =
    let a = apply_all xs defaults in if has_secrets a.secrets a.resolver then some a else none

apply_all-append :
    (xs ys : List Setting) (a : Options) → apply_all (xs ++ ys) a ≡ apply_all ys (apply_all xs a)
unfolding apply_all
apply_all-append [] ys a = refl
apply_all-append (x ∷ xs) ys a = apply_all-append xs ys (apply x a)

has_secrets-insert :
    (key secret : String) (l : Dict String) (r : Option (String → Option String))
    → has_secrets (insert key secret l) r ≡ true
unfolding insert
has_secrets-insert key secret l none = refl
has_secrets-insert key secret l (some f) = refl

-- A key ID and secret that are set last are found, unless there is a resolver; without secrets and
-- resolver there is no authenticator.
pub new_authenticator-found :
    (xs : List Setting) (key secret : String)
    → (apply_all xs defaults).resolver ≡ none
    → (a : Options) × (new_authenticator (xs ++ with_secret key secret ∷ []) ≡ some a)
      × (find_secret a key ≡ some secret)
unfolding new_authenticator apply_all apply
new_authenticator-found xs key secret q =
    let a = apply_all xs defaults in
    (
      apply (with_secret key secret) a,
      rw
          (
            apply_all-append xs (with_secret key secret ∷ []) defaults,
            has_secrets-insert key secret a.secrets a.resolver,
          )
          refl,
      rw (q, lookup-insert key key secret a.secrets, eq_refl key) refl,
    )

-- ===== src/Auth/Token.antt =====
-- auth/data/user_token.go: access and refresh tokens of users, over the in-process cache. A call is
-- one step at one reading of the clock; what it makes outside (the signed token, the uuid) is an
-- argument, "" for a token that could not be signed.
mod Texts
pub mod Calls
pub mod Listing
pub mod Validity
pub mod Revocation
pub mod Login
pub mod Rotation
mod Tests
use kratos_kit.Base.{
  ℕ, ◌+◌, ◌≡◌, ◌≢◌, String, ◌<>◌, Bool, true, false, ◌&&◌, ◌||◌, not, Option, none, some, List, [],
  ◌∷◌, ◌==◌, if◌then◌else◌,
}
use kratos_kit.Base.Int.{ℤ, pos, ltb_ℤ, max_ℤ, min_ℤ, wrap, ◌+ℤ◌, ◌-ℤ◌}
use kratos_kit.Base.Dict.{Dict}
use kratos_kit.Base.Time.{minute}
use kratos_kit.Cache.Store.{Error, Result, ok, err, not_found, key_expired, field_not_found}
use kratos_kit.Cache.Memory.{Memory}
use kratos_kit.Cache.Memory.Strings.{get, set, del, expire, exists}
use kratos_kit.Cache.Memory.Hashes.{h_get, h_get_all, h_set, h_del}

-- TokenSession; the times are nanoseconds since 1970.
pub record TokenSession : Type 0 where
  pub session_id : String
  pub access_token : String
  pub refresh_token : String
  pub access_expires_at : ℤ
  pub refresh_expires_at : ℤ
  pub previous_access_token : String
  pub previous_access_expires_at : ℤ

-- json.Marshal and json.Unmarshal of a TokenSession, and the verb %d of fmt.Sprintf.
pub record Codec : Type 0 where
  pub encode : TokenSession → String
  pub decode : String → Option TokenSession
  pub decode-encode : (x : TokenSession) → decode (encode x) ≡ some x
  pub format_int : ℤ → String

-- UserToken without its cache
pub record UserToken : Type 0 where
  pub access_prefix : String
  pub refresh_prefix : String
  pub access_expires : ℤ
  pub refresh_expires : ℤ

-- The errors of a call. `endless` stands for a call that never returns.
pub data TokenError : Type 0 where
  cache_error : Error → TokenError
  create_failed session_not_found undecodable endless : TokenError

pub data Answer {ℓ} (A : Type ℓ) : Type ℓ where
  done : A → Answer A
  failed : TokenError → Answer A

abbrev pub from_cache {ℓ} : {A : Type ℓ} → Result A → Answer A
from_cache (ok a) = done a
from_cache (err e) = failed (cache_error e)

-- One call after the other, unless it fails.
infixl 5 ◌>>=◌
abbrev pub ◌>>=◌ {ℓ κ} :
    {A : Type ℓ} {B : Type κ}
    → Memory × Answer A
    → (A → Memory → Memory × Answer B)
    → Memory × Answer B
(s, done a) >>= f = f a s
(s, failed e) >>= f = (s, failed e)

abbrev pub lift {ℓ} : {A : Type ℓ} → Memory × Result A → Memory × Answer A
lift (s, r) = (s, from_cache r)

-- isTokenCacheMiss: the texts of these three hold "not found" or "key expired".
abbrev pub is_token_cache_miss : Error → Bool
is_token_cache_miss not_found = true
is_token_cache_miss key_expired = true
is_token_cache_miss field_not_found = true
is_token_cache_miss e = false

-- accessTokenGracePeriod
abbrev pub grace_period : ℕ
grace_period = minute

-- now.Add(d).UnixNano()
abbrev pub nano_after : ℕ → ℤ → ℤ
nano_after now d = wrap (pos now +ℤ d)

-- Whether a session lets an access token pass, now or in its grace period.
abbrev pub accepts : ℕ → String → TokenSession → Bool
accepts now token x =
    (x.access_token == token && ltb_ℤ (pos now) x.access_expires_at)
    || (x.previous_access_token == token && ltb_ℤ (pos now) x.previous_access_expires_at)

abbrev pub accepts_refresh : ℕ → String → TokenSession → Bool
accepts_refresh now token x = x.refresh_token == token && ltb_ℤ (pos now) x.refresh_expires_at

abbrev pub any {ℓ} : {A : Type ℓ} → (A → Bool) → List A → Bool
any p [] = false
any p (x ∷ xs) = p x || any p xs

abbrev pub any_of : (TokenSession → Bool) → Answer (List TokenSession) → Bool
any_of p (done xs) = any p xs
any_of p (failed e) = false

-- Rotation of the access token of a session: the old one stays for the grace period.
abbrev pub rotate : ℕ → ℤ → String → TokenSession → TokenSession
rotate now expires token x =
    if not (x.access_token == "") && not (x.access_token == token)
    then record x {
      previous_access_token = x.access_token;
      previous_access_expires_at = min_ℤ x.access_expires_at (nano_after now (pos grace_period));
      access_token = token;
      access_expires_at = nano_after now expires;
    }
    else record x { access_token = token; access_expires_at = nano_after now expires }

abbrev pub keep_first :
    TokenSession → List TokenSession → Memory → Memory × Answer (List TokenSession)
keep_first x xs s = (s, done (x ∷ xs))

abbrev pub miss_is_empty : Memory → Error → Memory × Answer (List TokenSession)
miss_is_empty s e = if is_token_cache_miss e then (s, done []) else (s, failed (cache_error e))

module _ (c : Codec) (r : UserToken) where
  open c use {encode, decode, format_int}

  -- makeAccessTokenKey, makeRefreshTokenKey, makeSessionIndexKey, makeSessionKey
  abbrev pub access_key : ℤ → String
  access_key u = r.access_prefix <> format_int u

  abbrev pub refresh_key : ℤ → String
  refresh_key u = r.refresh_prefix <> format_int u

  abbrev pub index_key : ℤ → String
  index_key u = (r.access_prefix <> ":session-index:") <> format_int u

  abbrev pub session_key : ℤ → String → String
  session_key u id = (((r.access_prefix <> ":session:") <> format_int u) <> ":") <> id

  -- getTokenSession
  abbrev pub decoded : String → Memory → Memory × Answer TokenSession
  decoded raw s = elim (decode raw) [ none ↦ (s, failed undecodable) | some x ↦ (s, done x) ]

  unfoldable pub get_token_session : ℕ → ℤ → String → Memory → Memory × Answer TokenSession
  get_token_session now u id s =
      let (s', there) = exists now (session_key u id) s in
      if not there
      then (s', failed session_not_found)
      else lift (h_get now (index_key u) id s') >>= decoded

  -- The loop of getTokenSessions over the entries of the index
  unfoldable pub collect : ℕ → ℤ → Dict String → Memory → Memory × Answer (List TokenSession)
  collect now u [] s = (s, done [])
  collect now u ((id, raw) ∷ es) s =
      let (s', there) = exists now (session_key u id) s in
      elim there [
        | false ↦ lift (h_del now now (index_key u) id s') >>= λ _ t. collect now u es t
        | true ↦ elim (decode raw) [
          | none ↦ (s', failed undecodable)
          | some x ↦ collect now u es s' >>= keep_first x
        ]
      ]

  -- getTokenSessions
  unfoldable pub get_token_sessions : ℕ → ℤ → Memory → Memory × Answer (List TokenSession)
  get_token_sessions now u s =
      let (s', found) = h_get_all now (index_key u) s in
      elim found [ err e ↦ miss_is_empty s' e | ok entries ↦ collect now u entries s' ]

  -- saveTokenSession
  abbrev pub save_token_session : ℕ → ℤ → TokenSession → Memory → Memory × Answer (Unit {0})
  save_token_session now u x s = lift (h_set now now now (index_key u) x.session_id (encode x) s)

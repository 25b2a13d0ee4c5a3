-- ===== src/Auth/Hmac.antt =====
-- auth/authn/engine/hmac/hmac.go: the authenticator of signed requests and its store of nonces. A call
-- of Authenticate reads the clock twice: for the test of the skew, and in Consume. HMAC-SHA256 and SHA-256 in hexadecimal, and
-- strconv on decimal numbers, are parameters; the canonical request is in Hmac/Request.
pub mod Make
pub mod Nonces
pub mod Request
pub mod Token
pub mod Replay
pub mod Identity
mod Tests
use kratos_kit.Base.{
  ℕ, ◌/◌, ◌-◌, ◌^◌, ◌≡◌, String, ◌<>◌, Bool, true, false, ◌&&◌, ◌||◌, not, Option, none, some, List,
  [], ◌∷◌, ◌==◌, if◌then◌else◌,
}
use kratos_kit.Base.Int.{ℤ, pos, negsuc, ltb_ℤ, wrap, ◌+ℤ◌, ◌-ℤ◌, ◌*ℤ◌, InInt64}
use kratos_kit.Base.Dict.{Dict, lookup, insert}
use kratos_kit.Base.Text.{split, contains_char}
use kratos_kit.Base.Time.{second}
use kratos_kit.Auth.Metadata.{ContextType, Headers, bearer_word, auth_from_md, md_with_auth}
use kratos_kit.Auth.Payload.{AuthClaims, Parsed, text, get_string}
use kratos_kit.Auth.Hmac.Request.{
  RequestContext, Business, HmacError, Checked, passed, refused, ◌>>=◌, canonical_request,
}

-- A text that can stand between the dots of a token.
abbrev pub IsPart : String → Type 0
IsPart s = ((s == "") ≡ false) × (contains_char "." s ≡ false)

-- What the code uses of crypto/hmac and crypto/sha256, in hexadecimal, and of strconv.
pub record Library : Type 0 where
  pub mac : String → String → String
  pub mac-IsPart : (secret message : String) → IsPart (mac secret message)
  pub digest : String → String
  pub parse_int : String → Option ℤ
  pub format_int : ℤ → String
  pub parse-format : (n : ℤ) → InInt64 n → parse_int (format_int n) ≡ some n
  pub format-IsPart : (n : ℤ) → IsPart (format_int n)

-- MemoryReplayStore: the time after which a nonce may be forgotten, in nanoseconds since 1970
abbrev pub ReplayStore : Type 0
ReplayStore = Dict ℤ

-- The loop of Consume over the entries
unfoldable pub purge : ℕ → ReplayStore → ReplayStore
purge now [] = []
purge now ((k, e) ∷ s) = let rest = purge now s in if ltb_ℤ e (pos now) then rest else (k, e) ∷ rest

abbrev unless_live : ℕ → String → ℤ → ReplayStore → Option ℤ → ReplayStore × Bool
unless_live now key expires s none = (insert key expires s, true)
unless_live now key expires s (some e) =
    if ltb_ℤ e (pos now) then (insert key expires s, true) else (s, false)

-- Consume; none for a context that has ended
unfoldable pub consume : Bool → ℕ → String → ℤ → ReplayStore → ReplayStore × Option Bool
unfolding purge
consume ended now key expires s =
    if ended
    then (s, none)
    else let s' = purge now s in
      let (s'', fresh) = unless_live now key expires s' (lookup key s') in (s'', some fresh)

-- The options of NewAuthenticator that Authenticate and CreateIdentityWithContext read
pub record Options : Type 0 where
  pub secrets : Dict String
  pub resolver : Option (String → Option String)
  pub max_skew : ℤ

abbrev resolve : Option (String → Option String) → Dict String → String → Option String
resolve none secrets key = lookup key secrets
resolve (some f) secrets key = f key

-- secret
abbrev pub find_secret : Options → String → Option String
find_secret a key = resolve a.resolver a.secrets key

-- parseToken: the key ID, the timestamp, the nonce and the signature
pub record Parts : Type 0 where
  pub key_id : String
  pub timestamp : String
  pub nonce : String
  pub signature : String

abbrev pub four : List String → Option Parts
four (k ∷ t ∷ n ∷ s ∷ []) =
    if k == "" || t == "" || n == "" || s == ""
    then none
    else some (record { key_id = k; timestamp = t; nonce = n; signature = s })
four parts = none

unfoldable pub parse_token : String → Option Parts
unfolding split
parse_token token = four (split "." token)

-- now().Sub(t): the time in between, kept within the range of a Duration
abbrev pub sub : ℤ → ℤ → ℤ
sub a b =
    let d = a -ℤ b in
    if ltb_ℤ (pos (2 ^ 63 - 1)) d
    then pos (2 ^ 63 - 1)
    else if ltb_ℤ d (negsuc (2 ^ 63 - 1))
    then negsuc (2 ^ 63 - 1)
    else d

-- time.Unix(n, 0)
abbrev pub unix : ℤ → ℤ
unix n = n *ℤ pos second

abbrev pub out_of_skew : ℤ → ℕ → ℤ → Bool
out_of_skew max_skew now token_time =
    let skew = sub (pos now) token_time in
    ltb_ℤ skew (wrap (pos 0 -ℤ max_skew)) || ltb_ℤ max_skew skew

-- What a verified token asks the store for, and the claims it stands for
pub record Ticket : Type 0 where
  pub nonce_key : String
  pub expires : ℤ
  pub subject : String

abbrev pub or_refuse {ℓ} : {A : Type ℓ} → HmacError → Option A → Checked A
or_refuse e none = refused e
or_refuse e (some a) = passed a

abbrev pub guard : Bool → HmacError → Checked (Unit {0})
guard true e = passed tt
guard false e = refused e

module _ (lib : Library) where
  open lib use {mac, digest, parse_int, format_int}

  -- sign
  abbrev pub sign : String → String → String → String → String → String
  sign secret key timestamp nonce canonical =
      mac secret (key <> ("." <> (timestamp <> ("." <> (nonce <> ("\n" <> canonical))))))

  -- Authenticate up to the call of Consume
  unfoldable pub verify :
      Options → ℕ → ContextType → Headers → RequestContext → Business → Checked Ticket
  verify a now t headers ctx request = do
    token ← or_refuse HmacError.missing_bearer_token (auth_from_md bearer_word t headers)
    parts ← or_refuse HmacError.invalid_token (parse_token token)
    seconds ← or_refuse HmacError.invalid_token (parse_int parts.timestamp)
    _ ← guard (not (out_of_skew a.max_skew now (unix seconds))) HmacError.token_expired
    secret ← or_refuse HmacError.unauthenticated (find_secret a parts.key_id)
    canonical ← canonical_request digest ctx request
    _ ←
        guard (parts.signature == sign secret parts.key_id parts.timestamp parts.nonce canonical)
          HmacError.unauthenticated
    passed (record {
      nonce_key = parts.key_id <> ("\0" <> parts.nonce);
      expires = unix seconds +ℤ a.max_skew;
      subject = parts.key_id;
    })

  abbrev pub admitted : String → Option Bool → Checked AuthClaims
  admitted subject none = refused HmacError.consume_nonce
  admitted subject (some false) = refused HmacError.token_replayed
  admitted subject (some true) = passed (("sub", text subject) ∷ [])

  abbrev pub settle :
      ℕ → RequestContext → ReplayStore → Checked Ticket → ReplayStore × Checked AuthClaims
  settle later ctx s (refused e) = (s, refused e)
  settle later ctx s (passed x) =
      let (s', fresh) = consume ctx.ended later x.nonce_key x.expires s in
      (s', admitted x.subject fresh)

  -- Authenticate; the reading of Consume, which comes after the request was read, is the second.
  unfoldable pub authenticate :
      Options
      → ℕ
      → ℕ
      → ContextType
      → Headers
      → RequestContext
      → Business
      → ReplayStore
      → ReplayStore × Checked AuthClaims
  authenticate a now later t headers ctx request s =
      settle later ctx s (verify a now t headers ctx request)

  abbrev subject_of : Parsed String → Checked String
  subject_of (Parsed.parsed key) =
      if key == "" then refused HmacError.missing_subject else passed key
  subject_of (Parsed.failed e) = refused HmacError.invalid_subject

  -- The token of CreateIdentityWithContext
  abbrev pub make_token : String → String → ℕ → String → String → String
  make_token secret key now nonce canonical =
      let timestamp = format_int (pos (now / second)) in
      key
      <> ("."
          <> (timestamp <> ("." <> (nonce <> ("." <> sign secret key timestamp nonce canonical)))))

  -- CreateIdentityWithContext; the nonce generator returned `made`.
  unfoldable pub create_identity :
      Options
      → ℕ
      → ContextType
      → AuthClaims
      → RequestContext
      → Business
      → Option String
      → Headers
      → Checked Headers
  create_identity a now t claims ctx request made headers = do
    key ← subject_of (get_string "sub" claims)
    secret ← or_refuse HmacError.missing_secret (find_secret a key)
    canonical ← canonical_request digest ctx request
    nonce ← or_refuse HmacError.create_nonce made
    _ ← guard (not (nonce == "" || contains_char "." nonce)) HmacError.invalid_token
    passed (md_with_auth t bearer_word (make_token secret key now nonce canonical) headers)

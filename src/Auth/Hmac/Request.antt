-- ===== src/Auth/Hmac/Request.antt =====
-- auth/authn/engine/hmac/hmac.go: the canonical text of a request, which a token signs.
use kratos_kit.Base.{String, ◌<>◌, ◌==◌, Bool, Option, none, some, if◌then◌else◌}

-- The errors of the package, and those of package engine that it returns
pub data HmacError : Type 0 where
  missing_secret missing_subject missing_transport invalid_transport token_replayed : HmacError
  missing_bearer_token invalid_token token_expired unauthenticated invalid_subject : HmacError
  read_body encode_request create_nonce consume_nonce : HmacError

pub data Checked {ℓ} (A : Type ℓ) : Type ℓ where
  passed : A → Checked A
  refused : HmacError → Checked A

infixl 5 ◌>>=◌
abbrev pub ◌>>=◌ {ℓ κ} : {A : Type ℓ} {B : Type κ} → Checked A → (A → Checked B) → Checked B
passed a >>= f = f a
refused e >>= f = refused e

-- http.Request: the method, and, unless the URL is nil, its EscapedPath() and Query().Encode(). The
-- body is nil, or what reading it gives, `some none` for an error.
pub record HttpRequest : Type 0 where
  pub http_method : String
  pub url : Option (String × String)
  pub body : Option (Option String)

-- transport.Transporter by its kind: for HTTP the request if it has one, for gRPC the operation
pub data Transporter : Type 0 where
  http : Option HttpRequest → Transporter
  grpc : String → Transporter
  other_kind : Transporter

-- The context: the transports in it, and whether it has ended
pub record RequestContext : Type 0 where
  pub server : Option Transporter
  pub client : Option Transporter
  pub ended : Bool

-- The `request any`: a *http.Request, nil or not, or another value as proto.Marshal or json.Marshal
-- encodes it, none for an error
pub data Business : Type 0 where
  native : Option HttpRequest → Business
  value : Option String → Business

-- What requestTarget and httpRequestTarget return
pub record Target : Type 0 where
  pub method : String
  pub path : String
  pub query : String

abbrev of_url : String → Option (String × String) → Checked Target
of_url method none = refused invalid_transport
of_url method (some (path, query)) =
    passed (record { method = method; path = if path == "" then "/" else path; query = query })

-- httpRequestTarget
abbrev pub http_request_target : Option HttpRequest → Checked Target
http_request_target none = refused invalid_transport
http_request_target (some request) = of_url request.http_method request.url

abbrev target_of : Transporter → Checked Target
target_of (http request) = http_request_target request
target_of (grpc operation) =
    if operation == ""
    then refused invalid_transport
    else passed (record { method = "POST"; path = operation; query = "" })
target_of other_kind = refused invalid_transport

abbrev first_of : Option Transporter → Option Transporter → Option Transporter
first_of none client = client
first_of (some t) client = some t

-- requestTarget, none for ErrMissingTransport
abbrev pub request_target : RequestContext → Option (Checked Target)
request_target ctx = elim (first_of ctx.server ctx.client) [
  | none ↦ none
  | some t ↦ some (target_of t)
]

abbrev fall_back : Business → Option (Checked Target) → Checked Target
fall_back request (some found) = found
fall_back (native request) none = http_request_target request
fall_back (value encoded) none = refused missing_transport

abbrev body_of : Option (Option String) → Checked String
body_of none = passed ""
body_of (some none) = refused read_body
body_of (some (some text)) = passed text

-- requestDigest before the hash
abbrev encoded : Business → Checked String
encoded (native none) = passed ""
encoded (native (some request)) = body_of request.body
encoded (value none) = refused encode_request
encoded (value (some text)) = passed text

-- canonicalRequest
unfoldable pub canonical_request : (String → String) → RequestContext → Business → Checked String
canonical_request digest ctx request = do
  target ← fall_back request (request_target ctx)
  data_ ← encoded request
  passed (
      target.method
      <> ("\n" <> (target.path <> ("\n" <> (target.query <> ("\n" <> digest data_))))))

-- ===== src/Auth/Hmac/Tests.antt =====
-- auth/authn/engine/hmac/hmac.go at concrete requests, with numbers written in unary and a signature
-- that does not depend on the request.
use kratos_kit.Base.{
  ℕ, zero, suc, ◌≡◌, refl, ap, String, true, false, nat_eq, if◌then◌else◌, Option, none, some, [],
  ◌∷◌, arith,
}
use Prim.Native.Char.{code}
use kratos_kit.Base.Int.{ℤ, pos, negsuc, wrap, ◌*ℤ◌, ◌-ℤ◌, ◌+ℤ◌}
use kratos_kit.Base.Dict.{lookup}
use kratos_kit.Base.Text.{contains_char, cut, equal_fold, cons_not_nil}
use kratos_kit.Auth.Metadata.{Headers, grpc, auth_from_md}
use kratos_kit.Auth.Payload.{text}
use kratos_kit.Auth.Hmac.{
  Library, IsPart, Options, create_identity, authenticate, parse_token, verify, consume,
}
use kratos_kit.Auth.Hmac.Request.{
  RequestContext, Transporter, Business, value, HmacError, passed, refused, canonical_request,
}
use kratos_kit.Auth.Hmac.Replay.{
  Call, is_passed, in_time, token_of, serve, serve_all, accepted_once,
}
use kratos_kit.Auth.Hmac.Identity.{create-authenticate, dotted_key-refused}

tally : ℕ → String
tally zero = ""
tally (suc n) = String.◌∷◌ "1" (tally n)

count_up : String → ℕ
count_up String.[] = 0
count_up (String.◌∷◌ c s) = suc (count_up s)

abbrev write_int : ℤ → String
write_int (pos n) = String.◌∷◌ "p" (tally n)
write_int (negsuc n) = String.◌∷◌ "n" (tally n)

read_int : String → Option ℤ
unfolding count_up
read_int String.[] = none
read_int (String.◌∷◌ c s) =
    if nat_eq (code c) b'p' then some (pos (count_up s)) else some (negsuc (count_up s))

count_up-tally : (n : ℕ) → count_up (tally n) ≡ n
unfolding count_up tally
count_up-tally zero = refl
count_up-tally (suc n) = ap suc (count_up-tally n)

tally-dotless : (n : ℕ) → contains_char "." (tally n) ≡ false
unfolding contains_char tally
tally-dotless zero = refl
tally-dotless (suc n) = tally-dotless n

read-write : (n : ℤ) → read_int (write_int n) ≡ some n
unfolding read_int
read-write (pos n) = rw (count_up-tally n) refl
read-write (negsuc n) = rw (count_up-tally n) refl

write_int-IsPart : (n : ℤ) → IsPart (write_int n)
unfolding contains_char
write_int-IsPart (pos n) = (cons_not_nil "p" (tally n), tally-dotless n)
write_int-IsPart (negsuc n) = (cons_not_nil "n" (tally n), tally-dotless n)

ab-IsPart : IsPart "ab"
unfolding contains_char
ab-IsPart = (refl, refl)

abbrev lib : Library
lib = record {
  mac = λ secret message. "ab";
  mac-IsPart = λ secret message. ab-IsPart;
  digest = λ s. "d";
  parse_int = read_int;
  format_int = write_int;
  parse-format = λ n h. read-write n;
  format-IsPart = write_int-IsPart;
}

abbrev options : Options
options = record {
  secrets = ("k", "secret") ∷ ("k.1", "secret") ∷ [];
  resolver = none;
  max_skew = pos 300_000_000_000;
}

abbrev ctx : RequestContext
ctx = record { server = some (Transporter.grpc "/op"); client = none; ended = false }

abbrev request : Business
request = value (some "body")

abbrev headers : Headers
headers = record { grpc_header = ""; kratos_header = none }

abbrev canonical : String
canonical = "POST\n/op\n\nd"

request-canonical : canonical_request lib.digest ctx request ≡ passed canonical
unfolding canonical_request
request-canonical = refl

known : lookup "k" options.secrets ≡ some "secret"
unfolding lookup
known = refl

known_dotted : lookup "k.1" options.secrets ≡ some "secret"
unfolding lookup
known_dotted = refl

not_used : lookup {V = ℤ} "k\0ab" [] ≡ none
unfolding lookup
not_used = refl

k-IsPart : IsPart "k"
unfolding contains_char
k-IsPart = (refl, refl)

dot_there : contains_char "." "k.1" ≡ true
unfolding contains_char
dot_there = refl

create-authenticate_example :
    (h' : Headers) × (create_identity lib options 5_300_000_000 grpc
        (("sub", text "k") ∷ [])
        ctx
        request
        (some "ab")
        headers
      ≡ passed h')
    × ((authenticate lib options 9_000_000_000 9_100_000_000 grpc h' ctx request []).1
        ≡ passed (("sub", text "k") ∷ []))
create-authenticate_example =
    create-authenticate lib options options 300_000_000_000 5_300_000_000 9_000_000_000
      9_100_000_000 grpc ctx ctx request request headers "k" "secret" "ab" canonical [] refl
      (omega arith) (omega arith) (omega arith) (omega arith) k-IsPart ab-IsPart tt known known
      request-canonical request-canonical refl not_used

dotted_key-refused_example :
    (h' : Headers) × (create_identity lib options 5_300_000_000 grpc
        (("sub", text "k.1") ∷ [])
        ctx
        request
        (some "ab")
        headers
      ≡ passed h')
    × (authenticate lib options 9_000_000_000 9_100_000_000 grpc h' ctx request []
        ≡ ([], refused HmacError.invalid_token))
dotted_key-refused_example =
    dotted_key-refused lib options options 5_300_000_000 9_000_000_000 9_100_000_000 grpc ctx ctx
      request request headers "k.1" "secret" "ab" canonical [] dot_there ab-IsPart tt known_dotted
      request-canonical

abbrev sent : ℕ → ℕ → Call
sent now later = record {
  now = now;
  consumed_at = later;
  context_type = grpc;
  headers = record { grpc_header = "Bearer k.p11111.ab.ab"; kratos_header = none };
  ctx = ctx;
  request = request;
}

lets_through : is_passed (serve lib options (sent 9_000_000_000 9_100_000_000) []).1 ≡ true
unfolding authenticate verify auth_from_md parse_token canonical_request read_int consume lookup cut
    equal_fold ◌*ℤ◌ ◌-ℤ◌ ◌+ℤ◌ wrap
lets_through = refl

in_its_time :
    in_time lib options.max_skew
      (token_of lib options (sent 12_000_000_000 12_100_000_000))
      12_100_000_000
    ≡ true
unfolding auth_from_md parse_token read_int lookup cut equal_fold ◌*ℤ◌ ◌+ℤ◌
in_its_time = refl

accepted_once_example :
    is_passed
      (serve lib options (sent 12_000_000_000 12_100_000_000) (
        serve_all lib options
          (sent 10_000_000_000 10_100_000_000 ∷ [])
          (serve lib options (sent 9_000_000_000 9_100_000_000) []).0)).1
    ≡ false
accepted_once_example =
    accepted_once lib options (sent 9_000_000_000 9_100_000_000)
      (sent 12_000_000_000 12_100_000_000) (sent 10_000_000_000 10_100_000_000 ∷ []) []
      (omega arith, omega arith) refl in_its_time lets_through

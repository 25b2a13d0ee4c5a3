-- ===== src/Auth/Metadata.antt =====
-- auth/authn/engine/metadata.go and context.go: a token in the headers of a call. The headers that
-- the code reads and writes through gRPC and Kratos are the fields of a record.
use kratos_kit.Base.{◌≡◌, refl, String, ◌<>◌, ◌==◌, Option, none, some, if◌then◌else◌}
use kratos_kit.Base.Text.{cut, contains_char, equal_fold, cut-append, cut-ne_nil, equal_fold_refl}

-- ContextType, an int
pub data ContextType : Type 0 where
  grpc kratos_meta_data other_type : ContextType

-- The Authorization header of the gRPC metadata, and that of the Kratos transport where there is one;
-- "" for a header that is not set.
pub record Headers : Type 0 where
  pub grpc_header : String
  pub kratos_header : Option String

-- MDWithAuth writes the headers of the client's context.
abbrev pub format_token : String → String → String
format_token scheme token = scheme <> (" " <> token)

abbrev set_value : String → Option String → Option String
set_value value none = none
set_value value (some k) = some value

unfoldable pub md_with_auth : ContextType → String → String → Headers → Headers
md_with_auth grpc scheme token h = record h { grpc_header = format_token scheme token }
md_with_auth kratos_meta_data scheme token h = record h {
  kratos_header = set_value (format_token scheme token) h.kratos_header;
}
md_with_auth other_type scheme token h = record h { grpc_header = format_token scheme token }

abbrev or_empty : Option String → String
or_empty none = ""
or_empty (some v) = v

-- extractTokenFromContext reads those of the server's.
abbrev pub extract_token : ContextType → Headers → String
extract_token grpc h = h.grpc_header
extract_token kratos_meta_data h = or_empty h.kratos_header
extract_token other_type h = h.grpc_header

abbrev with_scheme : String → Option (String × String) → Option String
with_scheme scheme none = none
with_scheme scheme (some (word, token)) = if equal_fold word scheme then some token else none

-- AuthFromMD; none for its errors, which its callers do not tell apart
unfoldable pub auth_from_md : String → ContextType → Headers → Option String
auth_from_md scheme t h =
    let val = extract_token t h in if val == "" then none else with_scheme scheme (cut " " val)

-- BearerWord
abbrev pub bearer_word : String
bearer_word = "Bearer"

-- Whether the headers have a place for the token.
abbrev pub HasHeader : ContextType → Headers → Type 0
HasHeader kratos_meta_data h = (k : String) × (h.kratos_header ≡ some k)
HasHeader t h = Unit

bearer_cut : (token : String) → cut " " (format_token bearer_word token) ≡ some (bearer_word, token)
bearer_cut token = cut-append " " bearer_word token (unfold contains_char in refl)

bearer_read :
    (token : String)
    → (if format_token bearer_word token == ""
        then none
        else with_scheme bearer_word (cut " " (format_token bearer_word token)))
      ≡ some token
bearer_read token =
    rw
      (
        cut-ne_nil " " (format_token bearer_word token) (bearer_word, token) (bearer_cut token),
        bearer_cut token,
        equal_fold_refl bearer_word,
      )
      refl

pub auth_from_md-md_with_auth :
    (t : ContextType) (token : String) (h : Headers)
    → HasHeader t h
    → auth_from_md bearer_word t (md_with_auth t bearer_word token h) ≡ some token
unfolding auth_from_md md_with_auth
auth_from_md-md_with_auth grpc token h p = bearer_read token
auth_from_md-md_with_auth other_type token h p = bearer_read token
auth_from_md-md_with_auth kratos_meta_data token h (k, p) = rw p (bearer_read token)

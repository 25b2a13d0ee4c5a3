-- ===== src/Auth/Payload.antt =====
-- auth/data/user_token_payload.go: the payload of a user's token as claims and back, over the
-- readers of auth/authn/engine/claims.go. encoding/json is a parameter where the code recodes the
-- project scopes with it.
pub mod RoundTrip
pub mod Scopes
mod Tests
use kratos_kit.Base.{
  ℕ, ◌-◌, ◌%◌, ◌^◌, ltb, ◌≡◌, String, Bool, true, false, ◌&&◌, ◌||◌, not, Option, none, some, List,
  [], ◌∷◌, ◌++◌, length, nat_eq, if◌then◌else◌,
}
use kratos_kit.Base.Int.{ℤ, pos, negsuc, ltb_ℤ, wrap, ◌≤ℤ◌}
use kratos_kit.Base.Dict.{Dict, lookup}

-- TenantProjectScope; a nil slice is `none`.
pub record TenantProjectScope : Type 0 where
  pub tenant_id : ℤ
  pub project_id : Option (List ℤ)

-- UserTokenPayload; DataScope is an int32, the other numbers are int64.
pub record UserTokenPayload : Type 0 where
  pub tenant_id : ℤ
  pub tenant_code : String
  pub user_id : ℤ
  pub user_code : String
  pub user_name : String
  pub role_id : ℤ
  pub role_code : String
  pub role_name : String
  pub dept_id : ℤ
  pub dept_name : String
  pub data_scope : ℤ
  pub tenant_projects : Option (List TenantProjectScope)

-- A claim that is set in the process: a string, an int64 or int32, project scopes, nil, or a value
-- that is neither a string nor a number. The numbers that a decoded JSON text has (float64,
-- json.Number) are not in the model.
pub data Claim : Type 0 where
  text : String → Claim
  int64 int32 : ℤ → Claim
  scopes : List TenantProjectScope → Claim
  null other : Claim

abbrev pub AuthClaims : Type 0
AuthClaims = Dict Claim

pub data ClaimError : Type 0 where
  invalid_type bad_json : ClaimError

pub data Parsed {ℓ} (A : Type ℓ) : Type ℓ where
  parsed : A → Parsed A
  failed : ClaimError → Parsed A

infixl 5 ◌>>=◌
abbrev pub ◌>>=◌ {ℓ κ} : {A : Type ℓ} {B : Type κ} → Parsed A → (A → Parsed B) → Parsed B
parsed a >>= f = f a
failed e >>= f = failed e

-- int32(v)
abbrev narrow : ℕ → ℤ
narrow n = if ltb n (2 ^ 31) then pos n else negsuc (2 ^ 32 - 1 - n)

abbrev pub wrap32 : ℤ → ℤ
wrap32 (pos n) = narrow (n % 2 ^ 32)
wrap32 (negsuc n) = narrow (2 ^ 32 - 1 - n % 2 ^ 32)

abbrev as_text : Claim → Parsed String
as_text (text s) = parsed s
as_text claim = failed invalid_type

-- parseNumber into a type that the conversion narrows to
abbrev parse_number : (ℤ → ℤ) → Claim → Parsed ℤ
parse_number convert (int64 v) = parsed (convert v)
parse_number convert (int32 v) = parsed (convert v)
parse_number convert null = parsed (pos 0)
parse_number convert claim = failed invalid_type

-- parseString
abbrev pub get_string : String → AuthClaims → Parsed String
get_string key claims = elim (lookup key claims) [ none ↦ parsed "" | some raw ↦ as_text raw ]

-- GetInt64 and GetInt32
abbrev pub get_int64 : String → AuthClaims → Parsed ℤ
get_int64 key claims = elim (lookup key claims) [
  | none ↦ parsed (pos 0)
  | some raw ↦ parse_number wrap raw
]

abbrev pub get_int32 : String → AuthClaims → Parsed ℤ
get_int32 key claims = elim (lookup key claims) [
  | none ↦ parsed (pos 0)
  | some raw ↦ parse_number wrap32 raw
]

abbrev of_projects : Option (List TenantProjectScope) → AuthClaims → AuthClaims
of_projects none claims = claims
of_projects (some l) claims = ("tprojects", scopes l) ∷ claims

-- MakeAuthClaims
unfoldable pub make_auth_claims : UserTokenPayload → AuthClaims
make_auth_claims t = of_projects t.tenant_projects (
    ("sub", text t.user_name)
    ∷ ("tid", int64 t.tenant_id)
    ∷ ("tcode", text t.tenant_code)
    ∷ ("uid", int64 t.user_id)
    ∷ ("ucode", text t.user_code)
    ∷ ("rid", int64 t.role_id)
    ∷ ("rcode", text t.role_code)
    ∷ ("rname", text t.role_name)
    ∷ ("did", int64 t.dept_id)
    ∷ ("dname", text t.dept_name)
    ∷ ("ds", int32 t.data_scope)
    ∷ [])

abbrev pub eq_ℤ : ℤ → ℤ → Bool
eq_ℤ a b = not (ltb_ℤ a b) && not (ltb_ℤ b a)

abbrev pub contains : ℤ → List ℤ → Bool
contains p [] = false
contains p (q ∷ qs) = eq_ℤ p q || contains p qs

-- The loop of validateTenantProjects over the projects of one scope; `single` is whether the scope
-- has one project only.
unfoldable pub validate_projects : Bool → List ℤ → List ℤ → Bool
validate_projects single seen [] = true
validate_projects single seen (p ∷ ps) =
    let rest = validate_projects single (p ∷ seen) ps in
    if ltb_ℤ p (pos 0) || contains p seen || (eq_ℤ p (pos 0) && not single) then false else rest

abbrev pub validate_scope : TenantProjectScope → Bool
validate_scope scope = elim (scope.project_id) [
  | none ↦ false
  | some projects ↦
      ltb_ℤ (pos 0) scope.tenant_id && validate_projects (nat_eq (length projects) 1) [] projects
]

-- validateTenantProjects: whether it returns nil
unfoldable pub validate_tenant_projects : List TenantProjectScope → Bool
unfolding validate_projects
validate_tenant_projects [] = true
validate_tenant_projects (scope ∷ rest) = validate_scope scope && validate_tenant_projects rest

abbrev pub or_nil : Option (List TenantProjectScope) → List TenantProjectScope
or_nil none = []
or_nil (some l) = l

-- json.Marshal of a claim and json.Unmarshal of the result into []TenantProjectScope. What was
-- written by MakeAuthClaims is read back.
pub record Json : Type 0 where
  pub recode : Claim → Option (Option (List TenantProjectScope))
  pub recode-scopes : (l : List TenantProjectScope) → recode (scopes l) ≡ some (some l)

module _ (json : Json) where
  open json use {recode}

  -- The project scopes of ExtractAuthClaims
  abbrev pub get_projects : AuthClaims → Parsed (Option (List TenantProjectScope))
  get_projects claims = elim (lookup "tprojects" claims) [
    | none ↦ parsed none
    | some value ↦ elim (recode value) [
      | none ↦ failed bad_json
      | some l ↦ if validate_tenant_projects (or_nil l) then parsed l else failed invalid_type
    ]
  ]

  -- ExtractAuthClaims into an empty payload: NewUserTokenPayloadWithClaims
  unfoldable pub extract_auth_claims : AuthClaims → Parsed UserTokenPayload
  extract_auth_claims claims = do
    user_name ← get_string "sub" claims
    tenant_id ← get_int64 "tid" claims
    tenant_code ← get_string "tcode" claims
    user_id ← get_int64 "uid" claims
    user_code ← get_string "ucode" claims
    role_id ← get_int64 "rid" claims
    role_name ← get_string "rname" claims
    role_code ← get_string "rcode" claims
    dept_id ← get_int64 "did" claims
    dept_name ← get_string "dname" claims
    data_scope ← get_int32 "ds" claims
    tenant_projects ← get_projects claims
    parsed (record {
      tenant_id = tenant_id;
      tenant_code = tenant_code;
      user_id = user_id;
      user_code = user_code;
      user_name = user_name;
      role_id = role_id;
      role_code = role_code;
      role_name = role_name;
      dept_id = dept_id;
      dept_name = dept_name;
      data_scope = data_scope;
      tenant_projects = tenant_projects;
    })

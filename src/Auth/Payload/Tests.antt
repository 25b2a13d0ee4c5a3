-- ===== src/Auth/Payload/Tests.antt =====
-- auth/data/user_token_payload.go: concrete payloads.
use kratos_kit.Base.{◌≡◌, refl, true, Option, none, some, List, [], ◌∷◌, arith}
use kratos_kit.Base.Int.{pos, negsuc}
use kratos_kit.Auth.Payload.{
  TenantProjectScope, UserTokenPayload, Claim, Json, parsed, scopes, make_auth_claims,
  extract_auth_claims, validate_tenant_projects, validate_projects,
}
use kratos_kit.Auth.Payload.RoundTrip.{IsWellFormed, extract-make}

abbrev recode : Claim → Option (Option (List TenantProjectScope))
recode (scopes l) = some (some l)
recode claim = none

abbrev json : Json
json = record { recode = recode; recode-scopes = λ l. refl }

abbrev two_scopes : List TenantProjectScope
two_scopes =
    record { tenant_id = pos 1; project_id = some (pos 0 ∷ []) }
    ∷ record { tenant_id = pos 2; project_id = some (pos 4 ∷ pos 5 ∷ []) }
    ∷ []

abbrev payload : UserTokenPayload
payload = record {
  tenant_id = pos 1;
  tenant_code = "t";
  user_id = pos 7;
  user_code = "u";
  user_name = "name";
  role_id = pos 3;
  role_code = "r";
  role_name = "role";
  dept_id = pos 9;
  dept_name = "dept";
  data_scope = negsuc 0;
  tenant_projects = some two_scopes;
}

two_scopes-valid : validate_tenant_projects two_scopes ≡ true
unfolding validate_tenant_projects validate_projects
two_scopes-valid = refl

payload-IsWellFormed : IsWellFormed payload
payload-IsWellFormed = record {
  tenant = ground arith;
  user = ground arith;
  role = ground arith;
  dept = ground arith;
  scope = (ground arith, ground arith);
  projects = two_scopes-valid;
}

extract-make_example : extract_auth_claims json (make_auth_claims payload) ≡ parsed payload
extract-make_example = extract-make json payload payload-IsWellFormed

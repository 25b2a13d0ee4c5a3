-- ===== src/Auth/Payload/RoundTrip.antt =====
-- auth/data/user_token_payload.go: a payload that is made into claims and read back.
use kratos_kit.Base.{◌≤◌, ◌<◌, ◌^◌, ◌≡◌, refl, true, Option, none, some, List, arith}
use kratos_kit.Base.Int.{ℤ, pos, negsuc, pos_part, neg_part, InInt64, wrap_of_InInt64}
use kratos_kit.Base.Dict.{lookup}
use kratos_kit.Auth.Payload.{
  TenantProjectScope, UserTokenPayload, parsed, wrap32, make_auth_claims, or_nil,
  validate_tenant_projects, Json, extract_auth_claims,
}

-- The numbers of a payload are within their Go types, and its project scopes are valid.
pub record IsWellFormed (t : UserTokenPayload) : Type 0 where
  pub tenant : InInt64 t.tenant_id
  pub user : InInt64 t.user_id
  pub role : InInt64 t.role_id
  pub dept : InInt64 t.dept_id
  pub scope : (pos_part t.data_scope < 2 ^ 31) × (neg_part t.data_scope ≤ 2 ^ 31)
  pub projects : validate_tenant_projects (or_nil t.tenant_projects) ≡ true

wrap32-exact : (a : ℤ) → pos_part a < 2 ^ 31 → neg_part a ≤ 2 ^ 31 → wrap32 a ≡ a
wrap32-exact (pos n) h k = ground arith
wrap32-exact (negsuc n) h k = ground arith

module _ (json : Json) where
  open json use {recode-scopes}

  with_projects :
      (t : UserTokenPayload) (o : Option (List TenantProjectScope))
      → IsWellFormed t
      → validate_tenant_projects (or_nil o) ≡ true
      → extract_auth_claims json (make_auth_claims (record t { tenant_projects = o }))
        ≡ parsed (record t { tenant_projects = o })
  unfolding extract_auth_claims make_auth_claims lookup
  with_projects t none h valid =
      rw
        (
          wrap_of_InInt64 t.tenant_id h.tenant,
          wrap_of_InInt64 t.user_id h.user,
          wrap_of_InInt64 t.role_id h.role,
          wrap_of_InInt64 t.dept_id h.dept,
          wrap32-exact t.data_scope h.scope.0 h.scope.1,
        )
        refl
  with_projects t (some l) h valid =
      rw
        (
          wrap_of_InInt64 t.tenant_id h.tenant,
          wrap_of_InInt64 t.user_id h.user,
          wrap_of_InInt64 t.role_id h.role,
          wrap_of_InInt64 t.dept_id h.dept,
          wrap32-exact t.data_scope h.scope.0 h.scope.1,
          recode-scopes l,
          valid,
        )
        refl

  -- The claims that MakeAuthClaims makes of a payload are read back by ExtractAuthClaims as that
  -- payload, where its numbers are within their types and its project scopes are valid.
  pub extract-make :
      (t : UserTokenPayload)
      → IsWellFormed t
      → extract_auth_claims json (make_auth_claims t) ≡ parsed t
  extract-make t h = with_projects t t.tenant_projects h h.projects

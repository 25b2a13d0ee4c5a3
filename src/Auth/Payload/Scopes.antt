-- ===== src/Auth/Payload/Scopes.antt =====
-- auth/data/user_token_payload.go: the project scopes that validateTenantProjects accepts.
use kratos_kit.Base.{
  ◌≡◌, refl, Bool, true, false, Option, none, some, List, [], ◌∷◌, length, All, Bool-cases, inl,
  inr, nat_eq, arith,
}
use kratos_kit.Base.Int.{ℤ, pos, ◌≤ℤ◌}
use kratos_kit.Auth.Payload.{
  TenantProjectScope, eq_ℤ, contains, validate_projects, validate_scope, validate_tenant_projects,
}

-- No number twice.
abbrev pub IsDistinct : List ℤ → Type 0
IsDistinct [] = Unit
IsDistinct (p ∷ ps) = (contains p ps ≡ false) × IsDistinct ps

-- What the projects of a scope must be: not negative, none twice, and 0 (all projects) only alone.
pub record AreProjects (ps : List ℤ) : Type 0 where
  pub natural : All (λ p. pos 0 ≤ℤ p) ps
  pub distinct : IsDistinct ps
  pub exclusive : contains (pos 0) ps ≡ true → length ps ≡ 1

abbrev pub IsScope : TenantProjectScope → Type 0
IsScope scope =
    (ps : List ℤ) × (scope.project_id ≡ some ps) × (pos 1 ≤ℤ scope.tenant_id) × AreProjects ps

contains_comm : (p q : ℤ) → eq_ℤ p q ≡ eq_ℤ q p
contains_comm p q = ground arith

-- What a run of the loop that has seen `seen` lets pass.
record Passes (single : Bool) (seen ps : List ℤ) : Type 0 where
  natural : All (λ p. pos 0 ≤ℤ p) ps
  distinct : IsDistinct ps
  fresh : All (λ p. contains p seen ≡ false) ps
  exclusive : contains (pos 0) ps ≡ true → single ≡ true

All-fresh :
    (p : ℤ) (seen ps : List ℤ)
    → All (λ q. contains q (p ∷ seen) ≡ false) ps
    → All (λ q. contains q seen ≡ false) ps × (contains p ps ≡ false)
All-fresh p seen [] h = (tt, refl)
All-fresh p seen (q ∷ qs) (h, hs) =
    let (rest, other) = All-fresh p seen qs hs in
    ((ground arith, rest), ground (arith, contains_comm p q))

validate_projects-Passes :
    (single : Bool) (seen ps : List ℤ)
    → validate_projects single seen ps ≡ true
    → Passes single seen ps
unfolding validate_projects
validate_projects-Passes single seen [] h = record {
  natural = tt;
  distinct = tt;
  fresh = tt;
  exclusive = λ q. cc;
}
validate_projects-Passes single seen (p ∷ ps) h =
    let rest = validate_projects-Passes single (p ∷ seen) ps (ground arith) in
    let (fresh, other) = All-fresh p seen ps rest.fresh in
    record {
      natural = (ground arith, rest.natural);
      distinct = (other, rest.distinct);
      fresh = (ground arith, fresh);
      exclusive = λ q. elim (Bool-cases (contains (pos 0) ps)) [
        | inl z ↦ rest.exclusive z
        | inr z ↦ ground (arith, contains_comm p (pos 0))
      ];
    }

validate_scope-IsScope : (scope : TenantProjectScope) → validate_scope scope ≡ true → IsScope scope
validate_scope-IsScope scope h = go scope.project_id refl
  where
    go : (o : Option (List ℤ)) → scope.project_id ≡ o → IsScope scope
    go none q = absurd (ground arith)
    go (some ps) q =
        let p = validate_projects-Passes (nat_eq (length ps) 1) [] ps (ground arith) in
        (
          ps,
          q,
          ground arith,
          record {
            natural = p.natural;
            distinct = p.distinct;
            exclusive = λ z. ground (arith, p.exclusive z);
          },
        )

-- validateTenantProjects lets only those scopes pass that have a tenant with a positive ID and a list
-- of projects which are not negative and none twice, 0 standing alone.
pub validate_tenant_projects-IsScope :
    (l : List TenantProjectScope) → validate_tenant_projects l ≡ true → All IsScope l
unfolding validate_tenant_projects
validate_tenant_projects-IsScope [] h = tt
validate_tenant_projects-IsScope (x ∷ l) h =
    (validate_scope-IsScope x (ground arith), validate_tenant_projects-IsScope l (ground arith))

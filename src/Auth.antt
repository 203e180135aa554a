-- ===== src/Auth.antt =====
-- services/shared/platform_shared/auth.py: principals, their roles and scopes, and where a request's
-- principal comes from. What PyJWT and oidc.py make of a token is a parameter.
mod Headers
pub mod Oidc
mod Tests
use event_driven_data_platfo.Base.{
  ◌≡◌, refl, Bool, true, false, ◌||◌, String, Option, none, some, List, [], ◌∷◌, contains, is_empty,
  ◌↔◌, ◌⊎◌, arith, eq_iff, lower_is, or_else, keep_if, not, ◌>>=◌, >>=-eq-some, some_inj, ◌==◌,
  if◌then◌else◌, Bool-cases, inl, inr, subst, ◌&&◌,
}
use Headers.{partition_space}

pub record TenantPrincipal : Type 0 where
  pub user_id : String
  pub tenant_id : String
  pub role : String
  pub scopes : List String

-- ALLOWED_ROLES
unfoldable pub allowed_roles : List String
allowed_roles =
    "platform_admin" ∷ "tenant_admin" ∷ "analyst" ∷ "viewer" ∷ "service_account" ∷ "tenant_analyst"
    ∷ []

-- The constructor with its `__post_init__`; `none` is the `ValueError`.
unfoldable pub make_principal : TenantPrincipal → Option TenantPrincipal
unfolding allowed_roles
make_principal p = if contains allowed_roles p.role then some p else none

-- `role_key`
unfoldable pub role_key : TenantPrincipal → String
role_key p = if p.role == "tenant_analyst" then "analyst" else p.role

unfoldable pub is_platform_admin : TenantPrincipal → Bool
unfolding role_key
is_platform_admin p = role_key p == "platform_admin"

unfoldable pub can_access : TenantPrincipal → String → Bool
unfolding is_platform_admin
can_access p tenant = is_platform_admin p || (p.tenant_id == tenant)

unfoldable pub has_scope : TenantPrincipal → String → Bool
unfolding is_platform_admin contains
has_scope p scope = is_platform_admin p || contains p.scopes scope

-- The headers X-Tenant-Id, X-User-Id and X-User-Role.
pub record PrincipalHeaders : Type 0 where
  pub tenant_header : Option String
  pub user_header : Option String
  pub role_header : Option String

abbrev given : Option String → Option String
given = keep_if (λ s. not (is_empty s))

unfoldable pub principal_from_headers : PrincipalHeaders → Option TenantPrincipal
unfolding make_principal
principal_from_headers h = make_principal (record {
  user_id = or_else (given h.user_header) "local-dev-user";
  tenant_id = or_else (given h.tenant_header) "tenant_demo";
  role = or_else (given h.role_header) "tenant_analyst";
  scopes = [];
})

-- What the libraries make of a token: the fields of the principal that its verified claims give, by
-- the platform's own key or by the identity provider's, and whether its header names a key.
-- `none` where they raise.
pub record TokenLibrary : Type 0 where
  pub own_claims : String → Option TenantPrincipal
  pub oidc_claims : String → Option TenantPrincipal
  pub names_key : String → Option Bool

-- The settings AUTH_MODE, where true is "strict", and whether OIDC_JWKS_URL and OIDC_ISSUER are set.
pub record AuthSettings : Type 0 where
  pub strict : Bool
  pub oidc_configured : Bool

module _ (library : TokenLibrary) (settings : AuthSettings) where
  unfoldable pub principal_from_token : String → Option TenantPrincipal
  unfolding make_principal
  principal_from_token token = do claims ← library.own_claims token; make_principal claims

  unfoldable pub principal_from_oidc_token : String → Option TenantPrincipal
  unfolding make_principal
  principal_from_oidc_token token = do claims ← library.oidc_claims token; make_principal claims

  unfoldable pub principal_by_key : String → Bool → Option TenantPrincipal
  unfolding principal_from_token principal_from_oidc_token
  principal_by_key token true = principal_from_oidc_token token
  principal_by_key token false = principal_from_token token

  unfoldable pub principal_from_bearer : String → Option TenantPrincipal
  unfolding principal_by_key
  principal_from_bearer token =
      if settings.oidc_configured
      then library.names_key token >>= principal_by_key token
      else principal_from_token token

  unfoldable pub principal_without_token : PrincipalHeaders → Option TenantPrincipal
  unfolding principal_from_headers
  principal_without_token headers = if settings.strict then none else principal_from_headers headers

  unfoldable pub principal_with_authorization : String → Option TenantPrincipal
  unfolding partition_space lower_is principal_from_bearer
  principal_with_authorization authorization =
      let (scheme, token) = partition_space authorization in
      if lower_is scheme "bearer" && not (is_empty token) then principal_from_bearer token else none

  abbrev principal_if_given : Option String → PrincipalHeaders → Option TenantPrincipal
  principal_if_given none headers = principal_without_token headers
  principal_if_given (some authorization) headers = principal_with_authorization authorization

  unfoldable pub principal_from_authorization :
      Option String → PrincipalHeaders → Option TenantPrincipal
  principal_from_authorization authorization headers =
      principal_if_given (given authorization) headers

  -- In strict mode the unsigned headers have no influence: two requests with the same Authorization
  -- header have the same principal, or are both refused.
  pub strict_ignores_headers :
      (authorization : Option String) (headers headers' : PrincipalHeaders)
      → settings.strict ≡ true
      → principal_from_authorization authorization headers
        ≡ principal_from_authorization authorization headers'
  unfolding principal_from_authorization principal_without_token
  strict_ignores_headers none headers headers' s = rw s refl
  strict_ignores_headers (some a) headers headers' s = elim (Bool-cases (not (is_empty a))) [
    | inl non_empty ↦ rw non_empty refl
    | inr blank ↦ rw (blank, s) refl
  ]

  make_principal_role :
      (p q : TenantPrincipal) → make_principal p ≡ some q → contains allowed_roles q.role ≡ true
  unfolding make_principal
  make_principal_role p q h = elim (Bool-cases (contains allowed_roles p.role)) [
    | inl allowed ↦
        subst (λ r. contains allowed_roles r.role ≡ true) (some_inj (rw allowed at h)) allowed
    | inr other ↦ cc (rw other at h)
  ]

  claims_role :
      (o : Option TenantPrincipal) (q : TenantPrincipal)
      → (o >>= make_principal) ≡ some q
      → contains allowed_roles q.role ≡ true
  claims_role o q h =
      let (claims, known, made) = >>=-eq-some o make_principal h in
      make_principal_role claims q made

  bearer_role :
      (token : String) (q : TenantPrincipal)
      → principal_from_bearer token ≡ some q
      → contains allowed_roles q.role ≡ true
  unfolding principal_from_bearer principal_by_key principal_from_token principal_from_oidc_token
  bearer_role token q h = elim (Bool-cases settings.oidc_configured) [
    | inr local ↦ claims_role (library.own_claims token) q (rw local at h)
    | inl oidc ↦
        let (key, known, made) =
          >>=-eq-some (library.names_key token) (principal_by_key token) (rw oidc at h) in
        key_role key made
  ]
    where
      key_role :
          (key : Bool) → principal_by_key token key ≡ some q → contains allowed_roles q.role ≡ true
      key_role true made = claims_role (library.oidc_claims token) q made
      key_role false made = claims_role (library.own_claims token) q made

  authorization_role :
      (authorization : String) (q : TenantPrincipal)
      → principal_with_authorization authorization ≡ some q
      → contains allowed_roles q.role ≡ true
  unfolding principal_with_authorization
  authorization_role authorization q h =
      let scheme = (partition_space authorization).0 in
      let token = (partition_space authorization).1 in
      elim (Bool-cases (lower_is scheme "bearer" && not (is_empty token))) [
        | inl bearer ↦ bearer_role token q (rw bearer at h)
        | inr other ↦ cc (rw other at h)
      ]

  no_token_role :
      (headers : PrincipalHeaders) (q : TenantPrincipal)
      → principal_without_token headers ≡ some q
      → contains allowed_roles q.role ≡ true
  unfolding principal_without_token principal_from_headers
  no_token_role headers q h = elim (Bool-cases settings.strict) [
    | inl strict ↦ cc (rw strict at h)
    | inr compatible ↦ make_principal_role _ q (rw compatible at h)
  ]

  if_given_role :
      (authorization : Option String) (headers : PrincipalHeaders) (q : TenantPrincipal)
      → principal_if_given authorization headers ≡ some q
      → contains allowed_roles q.role ≡ true
  if_given_role none headers q h = no_token_role headers q h
  if_given_role (some a) headers q h = authorization_role a q h

  -- Whatever the tokens' claims and the headers say, a request's principal has one of the allowed
  -- roles.
  pub principal_from_authorization-allowed :
      (authorization : Option String) (headers : PrincipalHeaders) (q : TenantPrincipal)
      → principal_from_authorization authorization headers ≡ some q
      → contains allowed_roles q.role ≡ true
  unfolding principal_from_authorization
  principal_from_authorization-allowed authorization headers q h =
      if_given_role (given authorization) headers q h

is_platform_admin_lem : (p : TenantPrincipal) → is_platform_admin p ≡ (p.role == "platform_admin")
unfolding is_platform_admin role_key
is_platform_admin_lem p = elim (Bool-cases (p.role == "tenant_analyst")) [
  | inr other ↦ rw other refl
  | inl legacy ↦ rw legacy (rw ((eq_iff p.role "tenant_analyst").0 legacy) refl)
]

-- A principal can access exactly its own tenant, or every tenant if it is a platform administrator.
pub can_access_iff :
    (p : TenantPrincipal) (tenant : String)
    → (can_access p tenant ≡ true) ↔ ((p.role ≡ "platform_admin") ⊎ (p.tenant_id ≡ tenant))
unfolding can_access
can_access_iff p tenant = (
  λ h. ground (
    arith,
    eq_iff p.role "platform_admin",
    eq_iff p.tenant_id tenant,
    is_platform_admin_lem p,
    h,
  ),
  λ h. ground (
    arith,
    eq_iff p.role "platform_admin",
    eq_iff p.tenant_id tenant,
    is_platform_admin_lem p,
    h,
  ),
)

-- ===== src/Auth/Tests.antt =====
-- A token library, and the theorems at work on it.
use event_driven_data_platfo.Base.{
  ◌⊎◌, ◌∷◌, String, List, ◌≡◌, refl, true, false, none, some, [], contains, ℕ, Dict, lookup, strip,
  is_empty,
}
use event_driven_data_platfo.Events.Values.{Json, text}
use event_driven_data_platfo.Events.Samples.{floats}
use event_driven_data_platfo.Auth.Oidc.{
  JwksClient, cache_is_stale, find_key, get_key, served_key_found, oidc_claims_to_principal_kwargs,
  oidc_claims-tenant,
}
use event_driven_data_platfo.Auth.{
  TenantPrincipal, PrincipalHeaders, TokenLibrary, AuthSettings, principal_from_authorization,
  principal_without_token, strict_ignores_headers,
}

abbrev library : TokenLibrary
library = record { own_claims = λ t. none; oidc_claims = λ t. none; names_key = λ t. some false }

abbrev strict : AuthSettings
strict = record { strict = true; oidc_configured = false }

abbrev compatible : AuthSettings
compatible = record { strict = false; oidc_configured = false }

abbrev nobody : PrincipalHeaders
nobody = record { tenant_header = none; user_header = none; role_header = none }

abbrev admin_claim : PrincipalHeaders
admin_claim = record nobody { role_header = some "platform_admin" }

strict_ignores_headers_example :
    principal_from_authorization library strict none nobody
    ≡ principal_from_authorization library strict none admin_claim
strict_ignores_headers_example = strict_ignores_headers library strict none nobody admin_claim refl

abbrev admin : TenantPrincipal
admin = record {
  user_id = "local-dev-user";
  tenant_id = "tenant_demo";
  role = "platform_admin";
  scopes = [];
}

admin_is_given : principal_from_authorization library compatible none admin_claim ≡ some admin
unfolding principal_from_authorization principal_without_token contains
admin_is_given = refl

abbrev old_keys : JwksClient ℕ
old_keys = record { keys_by_kid = some (("k-1", 1) ∷ []); fetched_at = 10 }

abbrev new_keys : Dict ℕ
new_keys = ("k-1", 1) ∷ ("k-2", 2) ∷ []

-- The key "k-2" was added after the last fetch.
served_key_found_example :
    (found : ℕ) × ((get_key 300 20 "k-2" (some new_keys) (some new_keys) old_keys).0 ≡ some found)
    × (find_key "k-2" (get_key 300 20 "k-2" (some new_keys) (some new_keys) old_keys).1
        ≡ some found)
    × ((found ≡ 2)
        ⊎ ((cache_is_stale 300 20 old_keys ≡ false) × (find_key "k-2" old_keys ≡ some found)))
unfolding lookup
served_key_found_example = served_key_found 300 20 "k-2" new_keys old_keys 2 refl

abbrev python_str : Json ℕ → String
python_str _ = "?"

abbrev no_scopes : String → List String
no_scopes _ = []

abbrev claims : Dict (Json ℕ)
claims = ("tenant_id", text " acme ") ∷ ("sub", text "u-1") ∷ []

abbrev claimed : TenantPrincipal
claimed = record { user_id = "u-1"; tenant_id = strip " acme "; role = "analyst"; scopes = [] }

claims_give : oidc_claims_to_principal_kwargs floats python_str no_scopes claims ≡ some claimed
unfolding oidc_claims_to_principal_kwargs lookup strip
claims_give = refl

oidc_claims-tenant_example :
    (is_empty claimed.tenant_id ≡ false) × (strip claimed.tenant_id ≡ claimed.tenant_id)
oidc_claims-tenant_example =
    oidc_claims-tenant floats python_str no_scopes claims claimed claims_give

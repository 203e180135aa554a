-- ===== src/Auth/Oidc.antt =====
-- services/shared/platform_shared/oidc.py: the key cache of JWKSClient, and what claims make of a
-- principal. A request to the identity provider is an argument: the keys with an id that its answer
-- holds, `none` where it fails or holds none.
use event_driven_data_platfo.Base.{
  ℕ, ◌-◌, ◌≡◌, refl, Bool, true, false, String, Option, none, some, List, [], Dict, lookup, ltb,
  strip, strip-strip, is_empty, or_else, if◌then◌else◌, Bool-cases, Option-cases, ◌⊎◌, inl, inr,
  ◌>>=◌, >>=-eq-some, some_inj, ap, subst,
}
use event_driven_data_platfo.Auth.{TenantPrincipal}
use event_driven_data_platfo.Events.Values.{
  Json, text, null, boolean, integer, number, array, object, Floats, is_true,
}
use event_driven_data_platfo.Processing.Rows.{get_item, shown}

pub record JwksClient (K : Type 0) : Type 0 where
  pub keys_by_kid : Option (Dict K)
  pub fetched_at : ℕ

module _ {K : Type 0} where
  -- `_cache_is_stale`
  unfoldable pub cache_is_stale : ℕ → ℕ → JwksClient K → Bool
  cache_is_stale ttl now c = elim c.keys_by_kid [
    | none ↦ true
    | some _ ↦ ltb ttl (now - c.fetched_at)
  ]

  -- `refresh`, of what was fetched, and whether it has not raised
  unfoldable pub refresh : ℕ → JwksClient K → Option (Dict K) → Bool × JwksClient K
  refresh now c none = (false, c)
  refresh now c (some fetched) = (true, record { keys_by_kid = some fetched; fetched_at = now })

  unfoldable pub find_key : String → JwksClient K → Option K
  find_key kid c = lookup kid (or_else c.keys_by_kid [])

  unfoldable pub look_again : String → Bool × JwksClient K → Option K × JwksClient K
  look_again kid (false, c) = (none, c)
  look_again kid (true, c) = (find_key kid c, c)

  unfoldable pub found_or_refresh :
      String → ℕ → Option (Dict K) → JwksClient K → Option K → Option K × JwksClient K
  unfolding look_again refresh
  found_or_refresh kid now fetched c (some key) = (some key, c)
  found_or_refresh kid now fetched c none = look_again kid (refresh now c fetched)

  unfoldable pub look_up :
      String → ℕ → Option (Dict K) → Bool × JwksClient K → Option K × JwksClient K
  look_up kid now fetched (false, c) = (none, c)
  look_up kid now fetched (true, c) = found_or_refresh kid now fetched c (find_key kid c)

  -- `get_key`, with what its first and its second request would fetch; `none` is an exception.
  unfoldable pub get_key :
      ℕ → ℕ → String → Option (Dict K) → Option (Dict K) → JwksClient K → Option K × JwksClient K
  get_key ttl now kid first second c =
      if cache_is_stale ttl now c
      then look_up kid now second (refresh now c first)
      else look_up kid now first (true, c)

  found_lem :
      (kid : String) (now : ℕ) (fetched : Option (Dict K)) (c : JwksClient K) (o : Option K)
      → find_key kid c ≡ o
      → find_key kid (found_or_refresh kid now fetched c o).1
        ≡ (found_or_refresh kid now fetched c o).0
  unfolding found_or_refresh
  found_lem kid now fetched c (some key) e = e
  found_lem kid now none c none e = e
  found_lem kid now (some keys) c none e = refl

  -- When the cached keys are not stale, what get_key returns is what the cache then holds for the id,
  -- and when it raises, the cache holds nothing for the id.
  pub get_key-cached :
      (ttl now : ℕ) (kid : String) (first second : Option (Dict K)) (c : JwksClient K)
      → cache_is_stale ttl now c ≡ false
      → find_key kid (get_key ttl now kid first second c).1 ≡ (get_key ttl now kid first second c).0
  unfolding get_key look_up
  get_key-cached ttl now kid first second c fresh =
      rw fresh (found_lem kid now first c (find_key kid c) refl)

  -- While the provider's answers hold a key for the id, get_key returns a key, whatever was cached and
  -- however old it is: the one of the provider, unless the cached keys are not stale and have another,
  -- which is then returned. What is returned is in the cache afterwards.
  pub served_key_found :
      (ttl now : ℕ) (kid : String) (keys : Dict K) (c : JwksClient K) (key : K)
      → lookup kid keys ≡ some key
      → (found : K) × ((get_key ttl now kid (some keys) (some keys) c).0 ≡ some found)
        × (find_key kid (get_key ttl now kid (some keys) (some keys) c).1 ≡ some found)
        × ((found ≡ key) ⊎ ((cache_is_stale ttl now c ≡ false) × (find_key kid c ≡ some found)))
  unfolding get_key look_up found_or_refresh look_again refresh find_key
  served_key_found ttl now kid keys c key known = elim (Bool-cases (cache_is_stale ttl now c)) [
    | inl stale ↦ (key, rw (stale, known) refl, rw (stale, known) known, inl refl)
    | inr fresh ↦ elim (Option-cases (find_key kid c)) [
      | inl missing ↦ (key, rw (fresh, missing) known, rw (fresh, missing) known, inl refl)
      | inr (cached, there) ↦
          (cached, rw (fresh, there) refl, rw (fresh, there) there, inr (fresh, there))
    ]
  ]

module _ {F : Type 0} (fl : Floats F) (str : Json F → String) (split : String → List String) where
  -- The tenant claim: a text that is not blank.
  unfoldable pub oidc_tenant : Json F → Option String
  oidc_tenant (text s) = if is_empty (strip s) then none else some (strip s)
  oidc_tenant _ = none

  unfoldable pub oidc_scopes : Json F → Option (List String)
  oidc_scopes (text s) = some (split s)
  oidc_scopes _ = none

  -- `x or y`
  abbrev or_json : Json F → Json F → Json F
  or_json x y = if is_true fl x then x else y

  unfoldable pub oidc_claims_to_principal_kwargs : Dict (Json F) → Option TenantPrincipal
  unfolding oidc_tenant oidc_scopes is_true
  oidc_claims_to_principal_kwargs claims = do
    tenant ← oidc_tenant (get_item claims "tenant_id" null)
    scopes ← oidc_scopes (get_item claims "scope" (text ""))
    let user =
        or_json (get_item claims "preferred_username" null)
          (or_json (get_item claims "sub" null) (text "oidc-user"))
    some (record {
      user_id = shown str user;
      tenant_id = tenant;
      role = shown str (get_item claims "role" (text "analyst"));
      scopes = scopes;
    })

  oidc_tenant_lem :
      (claim : Json F) (tenant : String)
      → oidc_tenant claim ≡ some tenant
      → (is_empty tenant ≡ false) × (strip tenant ≡ tenant)
  unfolding oidc_tenant
  oidc_tenant_lem (text s) tenant h = elim (Bool-cases (is_empty (strip s))) [
    | inl blank ↦ cc (rw blank at h)
    | inr filled ↦
        subst (λ t. (is_empty t ≡ false) × (strip t ≡ t)) (some_inj (rw filled at h))
          (filled, strip-strip s)
  ]
  oidc_tenant_lem null tenant h = cc
  oidc_tenant_lem (boolean _) tenant h = cc
  oidc_tenant_lem (integer _) tenant h = cc
  oidc_tenant_lem (number _) tenant h = cc
  oidc_tenant_lem (array _) tenant h = cc
  oidc_tenant_lem (object _) tenant h = cc

  -- The tenant of a principal that claims give is not empty and has no space around it.
  pub oidc_claims-tenant :
      (claims : Dict (Json F)) (p : TenantPrincipal)
      → oidc_claims_to_principal_kwargs claims ≡ some p
      → (is_empty p.tenant_id ≡ false) × (strip p.tenant_id ≡ p.tenant_id)
  unfolding oidc_claims_to_principal_kwargs
  oidc_claims-tenant claims p h =
      let (tenant, known, h₁) = >>=-eq-some (oidc_tenant (get_item claims "tenant_id" null)) _ h in
      let (scopes, split, h₂) =
        >>=-eq-some (oidc_scopes (get_item claims "scope" (text ""))) _ h₁ in
      subst (λ t. (is_empty t ≡ false) × (strip t ≡ t)) (ap TenantPrincipal.tenant_id (some_inj h₂))
        (oidc_tenant_lem _ tenant known)

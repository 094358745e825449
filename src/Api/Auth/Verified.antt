-- ===== src/Api/Auth/Verified.antt =====
-- An identity comes from a token that was verified, and from nothing else.
use dealership_agent.Api.Auth.{
  Jwt, get_current_identity, identity_from, identity_of_claims, load_public_key, verify_token,
}
use dealership_agent.Base.{
  Bool-cases, Option, String, arith, false, inl, inr, none, refl, some, true, ℤ, ◌≡◌,
}
use dealership_agent.Config.{Settings}
use dealership_agent.Python.{Fields, get, ok, then_ok, truthy}
use dealership_agent.Tools.Identity.{RequestIdentity}

claims_verified :
    (jwt : Jwt) (decoded : Option Fields) (identity : RequestIdentity)
    → identity_of_claims jwt decoded ≡ ok identity
    → (claims : Fields) × (customer : ℤ) × (decoded ≡ some claims)
      × (truthy (get "sub" claims) ≡ true)
      × (jwt.to_int (get "sub" claims) ≡ some customer)
      × (identity.customer_id ≡ some customer)
unfolding identity_of_claims
claims_verified jwt none identity h = absurd (ground arith)
claims_verified jwt (some claims) identity h = elim (Bool-cases (truthy (get "sub" claims))) [
  | inr e ↦ absurd (refused e)
  | inl e ↦
      let (customer, i, c) = converted (jwt.to_int (get "sub" claims)) (rw e at h) in
      (claims, customer, refl, e, i, c)
]
  where
    refused : truthy (get "sub" claims) ≡ false → ⊥
    refused e = let k = rw e at h in ground arith

    converted :
        (v : Option ℤ)
        → identity_from jwt claims v ≡ ok identity
        → (customer : ℤ) × (v ≡ some customer) × (identity.customer_id ≡ some customer)
    converted none k = absurd (ground arith)
    converted (some customer) k = (customer, refl, ground arith)

-- A request gets an identity only for a bearer token that decodes with the public key of the
-- settings and their algorithm, audience and issuer. The identity then always has a customer, the
-- number that the token's subject claim is.
pub get_current_identity-verified :
    (jwt : Jwt) (settings : Settings) (credentials : Option String) (identity : RequestIdentity)
    → get_current_identity jwt settings credentials ≡ ok identity
    → (token key : String) × (claims : Fields) × (customer : ℤ) × (credentials ≡ some token)
      × (jwt.read_file settings.jwt_public_key_path ≡ ok key)
      × (jwt.decode token key settings.jwt_algorithm settings.jwt_audience settings.jwt_issuer
          ≡ some claims)
      × (jwt.to_int (get "sub" claims) ≡ some customer)
      × (identity.customer_id ≡ some customer)
unfolding get_current_identity verify_token load_public_key
get_current_identity-verified jwt settings none identity h = absurd (ground arith)
get_current_identity-verified jwt settings (some token) identity h =
    let (key, k, r) = then_ok (load_public_key jwt settings.jwt_public_key_path) _ identity h in
    let (claims, customer, d, t, i, c) = claims_verified jwt _ identity r in
    (token, key, claims, customer, refl, ground arith, d, i, c)

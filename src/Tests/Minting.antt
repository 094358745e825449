-- ===== src/Tests/Minting.antt =====
-- A token for a customer, from the script to the service.
use dealership_agent.Api.Auth.{Jwt, get_current_identity}
use dealership_agent.Base.{[], ap, arith, false, pos, refl, same_int, some, true, ◌||◌, ◌∷◌, ◌≡◌}
use dealership_agent.Config.{Settings, defaults}
use dealership_agent.Python.{Fields, external_error, ok, raise, str}
use dealership_agent.Scripts.MintToken.{
  Args, CustomerTable, Files, Minted, Signer, claims_for, ensure_customer_exists, ensure_keypair,
  main, max_id, new_customer, read_file, write_file,
}
use dealership_agent.Scripts.MintToken.Accepted.{Verifies, minted_token-verified}
use dealership_agent.Scripts.MintToken.Customers.{IsAhead, has_customer}

abbrev key_settings : Settings
key_settings = record defaults {
  jwt_public_key_path = "public.pem";
  jwt_private_key_path = "private.pem";
}

-- A pair of keys with one text, a token that is the key, and claims that are kept.
abbrev toy_signer : Signer
toy_signer = record {
  print_int = λ n. "7";
  new_uuid = "session";
  now = 100;
  new_pair = ("key", "key");
  encode = λ claims key algorithm. key;
}

abbrev ask : Args
ask = record { customer_id = pos 7; expires_minutes = some 1; skip_db_check = false }

abbrev no_customers : CustomerTable
no_customers = record { rows = []; last_value = 1 }

abbrev minted_claims : Fields
minted_claims = claims_for toy_signer key_settings (pos 7) 1

abbrev minted_files : Files
minted_files = ("public.pem", "key") ∷ ("private.pem", "key") ∷ []

abbrev seven : CustomerTable
seven = record { rows = new_customer toy_signer (pos 7) ∷ []; last_value = 7 }

abbrev minted : Minted
minted = record { table = seven; files = minted_files; token = "key" }

abbrev verifier : Jwt
verifier = record {
  read_file = λ path. ok "key";
  decode = λ token key algorithm audience issuer. some minted_claims;
  to_int = λ v. some (pos 7);
  new_session = "fresh";
}

-- The customer is created, and the pair of keys written.
mints : main toy_signer key_settings ask [] no_customers ≡ ok minted
unfolding main ensure_customer_exists ensure_keypair read_file write_file max_id same_int
mints = refl

Verifies-minted : Verifies toy_signer verifier key_settings minted_files minted_claims 120
unfolding read_file
Verifies-minted private public t h k iss aud exp soon = (ap ok (ground arith), refl)

-- A production deployment mints nothing.
production_refused :
    main toy_signer (record key_settings { app_env = "production" }) ask [] no_customers
    ≡ raise (external_error "SystemExit")
unfolding main
production_refused = refl

minted_token-verified_example :
    (get_current_identity verifier key_settings (some "key")
      ≡ ok (record { session_id = str "session"; customer_id = some (pos 7) }))
    × ((false || has_customer (pos 7) seven.rows) ≡ true)
    × IsAhead seven
minted_token-verified_example =
    minted_token-verified toy_signer verifier key_settings ask [] no_customers minted 120 tt mints
      refl Verifies-minted (omega arith) refl refl refl

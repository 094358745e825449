-- ===== src/Scripts/MintToken/Accepted.antt =====
-- A token that was minted, before the service.
use dealership_agent.Api.Auth.{
  Jwt, get_current_identity, identity_of_claims, load_public_key, verify_token,
}
use dealership_agent.Base.{
  Bool-cases, Option-cases, String, ap, arith, eq_iff, false, if◌then◌else◌, inl, inr, pos, refl,
  some, sym, true, ℕ, ◌*◌, ◌+◌, ◌<◌, ◌=ₛ◌, ◌||◌, ◌∙◌, ◌≡◌,
}
use dealership_agent.Config.{Settings}
use dealership_agent.Python.{Fields, get, int, num, ok, ok_injective, str, then_ok, truthy}
use dealership_agent.Scripts.MintToken.{
  Args, CustomerTable, Files, Minted, Signer, claims_for, ensure_customer_exists, ensure_keypair,
  exists, main, mint_with, minutes_of, private_path, public_path, read_file, write_file,
}
use dealership_agent.Scripts.MintToken.Customers.{IsAhead, has_customer, minted_customer}

-- What the service's libraries are to do with claims: the public key is read from the disk; a token
-- of the claims that was signed with the private key decodes with the public one to them, if the
-- issuer and the audience are those asked for and the clock is before the expiry.
abbrev pub Verifies : Signer → Jwt → Settings → Files → Fields → ℕ → Type 0
Verifies s jwt settings files claims clock =
    (private public : String) (t : ℕ)
    → read_file (private_path settings) files ≡ some private
    → read_file (public_path settings) files ≡ some public
    → get "iss" claims ≡ str settings.jwt_issuer
    → get "aud" claims ≡ str settings.jwt_audience
    → get "exp" claims ≡ num (int (pos t))
    → clock < t
    → (jwt.read_file (public_path settings) ≡ ok public)
      × (jwt.decode (s.encode claims private settings.jwt_algorithm) public settings.jwt_algorithm
            settings.jwt_audience settings.jwt_issuer
          ≡ some claims)

read-write_self :
    (path content : String) (files : Files)
    → read_file path (write_file path content files) ≡ some content
unfolding read_file write_file
read-write_self path content files = rw ((eq_iff path path).1 refl) refl

read-write_kept :
    (path other content : String) (files : Files)
    → (c : String) × (read_file path files ≡ some c)
    → (c : String) × (read_file path (write_file other content files) ≡ some c)
unfolding read_file write_file
read-write_kept path other content files (c, h) = elim (Bool-cases (other =ₛ path)) [
  | inl e ↦ (content, rw e refl)
  | inr e ↦ (c, rw e h)
]

exists-read :
    (path : String) (files : Files)
    → exists path files ≡ true
    → (c : String) × (read_file path files ≡ some c)
exists-read path files h = elim (Option-cases (read_file path files)) [
  | inl e ↦ let k = rw (e, exists) at h in absurd (ground arith)
  | inr found ↦ found
]

-- Both keys are on the disk after the step that makes them if one is missing.
keypair_there :
    (s : Signer) (settings : Settings) (files : Files)
    → ((c : String) × (read_file (private_path settings) (ensure_keypair s settings files)
          ≡ some c))
      × ((c : String) × (read_file (public_path settings) (ensure_keypair s settings files)
            ≡ some c))
unfolding ensure_keypair
keypair_there s settings files = elim (Bool-cases (exists (private_path settings) files)) [
  | inl e ↦ elim (Bool-cases (exists (public_path settings) files)) [
    | inl f ↦ rw (e, f) (exists-read _ files e, exists-read _ files f)
    | inr f ↦ rw (e, f) (made)
  ]
  | inr e ↦ rw e (made)
]
  where
    made :
        ((c : String) × (read_file (private_path settings) (
              write_file
                (public_path settings)
                (s.new_pair.1)
                (write_file (private_path settings) (s.new_pair.0) files))
            ≡ some c))
        × ((c : String) × (read_file (public_path settings) (
                write_file
                  (public_path settings)
                  (s.new_pair.1)
                  (write_file (private_path settings) (s.new_pair.0) files))
              ≡ some c))
    made = (
      read-write_kept (private_path settings) (public_path settings) (s.new_pair.1)
          (write_file (private_path settings) (s.new_pair.0) files)
          (s.new_pair.0, read-write_self (private_path settings) (s.new_pair.0) files),
      (
        s.new_pair.1,
        read-write_self (public_path settings) (s.new_pair.1)
            (write_file (private_path settings) (s.new_pair.0) files),
      ),
    )

-- What the script has done when it returns.
minted_parts :
    (s : Signer) (settings : Settings) (args : Args) (files : Files) (table : CustomerTable)
    (m : Minted)
    → main s settings args files table ≡ ok m
    → (m.files ≡ ensure_keypair s settings files)
      × ((private : String) × (read_file (private_path settings) m.files ≡ some private)
          × (m.token
              ≡ s.encode
                  (claims_for s settings args.customer_id
                    (minutes_of settings args.expires_minutes))
                  private
                  settings.jwt_algorithm))
unfolding main
minted_parts s settings args files table m h =
    elim (Bool-cases (settings.app_env =ₛ "production")) [
      | inl e ↦ let k = rw e at h in absurd (ground arith)
      | inr e ↦
          let (table', t, r) =
            then_ok
              (if args.skip_db_check
                then ok table
                else ensure_customer_exists s args.customer_id table)
              (mint_with s settings args files) m (rw e at h) in
          go table' (keypair_there s settings files).0 r
    ]
  where
    go :
        (table' : CustomerTable)
        → ((c : String) × (read_file (private_path settings) (ensure_keypair s settings files)
              ≡ some c))
        → mint_with s settings args files table' ≡ ok m
        → (m.files ≡ ensure_keypair s settings files)
          × ((private : String) × (read_file (private_path settings) m.files ≡ some private)
              × (m.token
                  ≡ s.encode
                      (claims_for s settings args.customer_id
                        (minutes_of settings args.expires_minutes))
                      private
                      settings.jwt_algorithm))
    go table' (c, k) r =
        let token =
          s.encode
            (claims_for s settings args.customer_id (minutes_of settings args.expires_minutes)) c
            settings.jwt_algorithm in
        let result : Minted = record {
          table = table';
          files = ensure_keypair s settings files;
          token = token;
        } in
        let same : result ≡ m = ok_injective result m (rw k at r) in
        (
          sym (ap (λ x. x.files) same),
          (
            c,
            ap (λ x. read_file (private_path settings) x.files) (sym same) ∙ k,
            sym (ap (λ x. x.token) same),
          ),
        )

-- A token that was minted is accepted by a service with the same settings and disk, as long as it
-- has not expired: the request has the identity of the customer that it was minted for, and the
-- session that it names. The settings must name the public key, and the libraries must print and
-- read numbers and keys as `Verifies` says. The sequence of ids must have passed every id; then it
-- still has, and unless the check of the database was skipped, the customer is a row of it.
pub minted_token-verified :
    (s : Signer) (jwt : Jwt) (settings : Settings) (args : Args) (files : Files)
    (table : CustomerTable) (m : Minted) (clock : ℕ)
    → IsAhead table
    → main s settings args files table ≡ ok m
    → (settings.jwt_public_key_path =ₛ "") ≡ false
    → Verifies s jwt settings m.files
        (claims_for s settings args.customer_id (minutes_of settings args.expires_minutes))
        clock
    → clock < s.now + minutes_of settings args.expires_minutes * 60
    → jwt.to_int (str (s.print_int args.customer_id)) ≡ some args.customer_id
    → (s.print_int args.customer_id =ₛ "") ≡ false
    → (s.new_uuid =ₛ "") ≡ false
    → (get_current_identity jwt settings (some m.token)
        ≡ ok (record { session_id = str s.new_uuid; customer_id = some args.customer_id }))
      × ((args.skip_db_check || has_customer args.customer_id m.table.rows) ≡ true)
      × IsAhead m.table
unfolding get_current_identity verify_token load_public_key identity_of_claims truthy
minted_token-verified s jwt settings args files table m clock ahead h path v fresh reads printed
      session =
    let (f, (private, k, t)) = minted_parts s settings args files table m h in
    let (public, q) = (keypair_there s settings files).1 in
    let claims =
      claims_for s settings args.customer_id (minutes_of settings args.expires_minutes) in
    let q' : read_file (public_path settings) m.files ≡ some public =
      ap (read_file (public_path settings)) f ∙ q in
    let (r, d) =
      v private public (s.now + minutes_of settings args.expires_minutes * 60) k q' refl refl refl
        fresh in
    let r' : jwt.read_file settings.jwt_public_key_path ≡ ok public = (rw path at r) in
    let (known, ahead') = minted_customer s settings args files table m ahead h in
    (rw (path, r', t, d, printed, reads, session) refl, known, ahead')

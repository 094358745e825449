-- ===== src/Scripts/MintToken.antt =====
-- scripts/mint_dev_token.py: a signed token for a customer of the database, with the key pair on disk.
pub mod Customers
pub mod Accepted
use dealership_agent.Base.{
  Bool, List, Option, String, [], any, false, if◌then◌else◌, max, negsuc, none, pos, same_int, some,
  true, ℕ, ℤ, ◌&&◌, ◌*◌, ◌++◌, ◌+◌, ◌<>◌, ◌==◌, ◌=ₛ◌, ◌||◌, ◌∷◌,
}
use dealership_agent.Config.{Settings}
use dealership_agent.Python.{
  Fields, Outcome, end, external_error, field, int, num, ok, raise, str, ◌>>=◌,
}

-- A row of `customers`, the columns that the insert gives.
pub record CustomerRow : Type 0 where
  pub id : ℤ
  pub external_ref : String
  pub email : String
  pub full_name : String

-- The table and the last value of its sequence.
pub record CustomerTable : Type 0 where
  pub rows : List CustomerRow
  pub last_value : ℕ

-- What the script takes from its libraries: `str(int)`, `str(uuid.uuid4())`, the clock in seconds,
-- a new key pair in PEM (private, public), and `jose.jwt.encode` of claims with a key and an
-- algorithm.
pub record Signer : Type 0 where
  pub print_int : ℤ → String
  pub new_uuid : String
  pub now : ℕ
  pub new_pair : String × String
  pub encode : Fields → String → String → String

abbrev pub Files : Type 0
Files = List (String × String)

-- path.exists() and path.read_text()
unfoldable pub read_file : String → Files → Option String
read_file path [] = none
read_file path ((p, content) ∷ files) = if p =ₛ path then some content else read_file path files

unfoldable pub write_file : String → String → Files → Files
write_file path content files = (path, content) ∷ files

abbrev pub exists : String → Files → Bool
exists path files = elim (read_file path files) [ none ↦ false | some content ↦ true ]

abbrev pub pos_or_zero : ℤ → ℕ
pos_or_zero (pos n) = n
pos_or_zero (negsuc n) = 0

-- The highest id that is not negative, or zero.
unfoldable pub max_id : List CustomerRow → ℕ
max_id [] = 0
max_id (r ∷ rs) = max (pos_or_zero r.id) (max_id rs)

abbrev pub new_customer : Signer → ℤ → CustomerRow
new_customer s customer = record {
  id = customer;
  external_ref = "dev-token-customer-" <> s.print_int customer;
  email = "dev-token-customer-" <> (s.print_int customer <> "@example.com");
  full_name = "Dev Token Customer " <> s.print_int customer;
}

-- The unique columns of the table.
abbrev pub clashes : CustomerRow → CustomerRow → Bool
clashes row r = (r.external_ref =ₛ row.external_ref) || (r.email =ₛ row.email)

-- setval, which takes no value below one
abbrev pub advanced : List CustomerRow → Outcome CustomerTable
advanced rows =
    if max_id rows == 0
    then raise (external_error "setval: value is out of bounds")
    else ok (record { rows = rows; last_value = max_id rows })

-- _ensure_customer_exists
unfoldable pub ensure_customer_exists : Signer → ℤ → CustomerTable → Outcome CustomerTable
unfolding max_id
ensure_customer_exists s customer table =
    if any (λ r. same_int r.id customer) table.rows
    then ok table
    else if any (clashes (new_customer s customer)) table.rows
    then raise (external_error "duplicate key value violates unique constraint")
    else advanced (table.rows ++ (new_customer s customer ∷ []))

abbrev pub path_or : String → String → String
path_or path default = if path =ₛ "" then default else path

abbrev pub private_path : Settings → String
private_path settings = path_or settings.jwt_private_key_path "dev_keys/dev_jwt_private.pem"

abbrev pub public_path : Settings → String
public_path settings = path_or settings.jwt_public_key_path "dev_keys/dev_jwt_public.pem"

-- if not private_path.exists() or not public_path.exists(): _generate_keypair(…)
unfoldable pub ensure_keypair : Signer → Settings → Files → Files
unfolding read_file write_file
ensure_keypair s settings files =
    if exists (private_path settings) files && exists (public_path settings) files
    then files
    else write_file (public_path settings) (s.new_pair.1)
        (write_file (private_path settings) (s.new_pair.0) files)

abbrev pub claims_for : Signer → Settings → ℤ → ℕ → Fields
claims_for s settings customer minutes = field "sub" (str (s.print_int customer)) (
    field "session_id" (str s.new_uuid) (
      field "iss" (str settings.jwt_issuer) (
        field "aud" (str settings.jwt_audience) (
          field "iat" (num (int (pos s.now)))
            (field "exp" (num (int (pos (s.now + minutes * 60)))) end)))))

-- The arguments of the command line; the minutes are not negative.
pub record Args : Type 0 where
  pub customer_id : ℤ
  pub expires_minutes : Option ℕ
  pub skip_db_check : Bool

abbrev pub minutes_of : Settings → Option ℕ → ℕ
minutes_of settings none = settings.jwt_access_token_expire_minutes
minutes_of settings (some n) = n

abbrev pub signed : Signer → Settings → Args → Files → Option String → Outcome String
signed s settings args files none = raise (external_error "FileNotFoundError")
signed s settings args files (some key) = ok (
    s.encode (claims_for s settings args.customer_id (minutes_of settings args.expires_minutes)) key
      settings.jwt_algorithm)

-- What is left of the database and of the disk, and the token that is printed. `sys.exit(1)` is a
-- SystemExit.
pub record Minted : Type 0 where
  pub table : CustomerTable
  pub files : Files
  pub token : String

abbrev pub mint_with : Signer → Settings → Args → Files → CustomerTable → Outcome Minted
mint_with s settings args files table =
    let files' = ensure_keypair s settings files in
    signed s settings args files' (read_file (private_path settings) files') >>= λ token.
    ok (record { table = table; files = files'; token = token })

unfoldable pub main : Signer → Settings → Args → Files → CustomerTable → Outcome Minted
unfolding ensure_customer_exists ensure_keypair read_file
main s settings args files table =
    if settings.app_env =ₛ "production"
    then raise (external_error "SystemExit")
    else ((if args.skip_db_check then ok table else ensure_customer_exists s args.customer_id table)
        >>= λ table'. mint_with s settings args files table')

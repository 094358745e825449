-- ===== src/Tools/Session/Travel.antt =====
-- What arrives at the tool server.
use mathlib.Core.Path.{subst}
use dealership_agent.Base.{
  Bool-cases, Option, String, [], eq_iff, false, inl, inr, none, refl, some, sym, ℤ, ◌=ₛ◌, ◌∙◌, ◌∷◌,
  ◌≡◌,
}
use dealership_agent.Python.{ok, str}
use dealership_agent.Tools.Identity.{RequestIdentity}
use dealership_agent.Tools.Session.{
  Environment, Printing, customer_from, customer_id_env_var, get_env, identity_from_env,
  session_environment, session_id_env_var, set_env,
}

get-set :
    (name value : String) (env : Environment) → get_env name (set_env name value env) ≡ some value
unfolding get_env set_env
get-set name value [] = rw ((eq_iff name name).1 refl) refl
get-set name value ((k, v) ∷ rest) = elim (Bool-cases (k =ₛ name)) [
  | inl e ↦ rw (e, e) refl
  | inr e ↦ rw (e, e, get-set name value rest) refl
]

get-set_other :
    (name other value : String) (env : Environment)
    → (name =ₛ other) ≡ false
    → get_env other (set_env name value env) ≡ get_env other env
unfolding get_env set_env
get-set_other name other value [] n = rw n refl
get-set_other name other value ((k, v) ∷ rest) n = elim (Bool-cases (k =ₛ name)) [
  | inl e ↦
      let m : (k =ₛ other) ≡ false =
        subst (λ x. (x =ₛ other) ≡ false) (sym ((eq_iff k name).0 e)) n in
      rw (e, m) refl
  | inr e ↦ rw (e, get-set_other name other value rest n) refl
]

module _ (printing : Printing) (parent : Environment) (session : String)
    (given : (session =ₛ "") ≡ false) where
  abbrev pub anonymous : RequestIdentity
  anonymous = record { session_id = str session; customer_id = none }

  abbrev pub customer_of : ℤ → RequestIdentity
  customer_of c = record { session_id = str session; customer_id = some c }

  -- The identity that the server reads where the identity `sent` was to reach it.
  abbrev pub Arrives : RequestIdentity → RequestIdentity → Type 0
  Arrives sent read =
      (env : Environment) × (session_environment printing parent sent ≡ ok env)
      × (identity_from_env printing env ≡ ok (some read))

  -- An authenticated identity reaches the tool server as it is, whatever the environment of the
  -- service already holds. Its session id must not be empty, and its number must be one that is
  -- read back from its print.
  pub customer_identity-Arrives :
      (c : ℤ)
      → (printing.print_int c =ₛ "") ≡ false
      → printing.parse_int (printing.print_int c) ≡ some c
      → Arrives (customer_of c) (customer_of c)
  unfolding session_environment identity_from_env
  customer_identity-Arrives c printed parsed =
      let text = printing.print_int c in
      let first = set_env session_id_env_var session parent in
      let env = set_env customer_id_env_var text first in
      let here : get_env session_id_env_var env ≡ some session =
        get-set_other customer_id_env_var session_id_env_var text first refl
        ∙ get-set session_id_env_var session parent in
      let who : get_env customer_id_env_var env ≡ some text =
        get-set customer_id_env_var text first in
      (env, refl, rw (here, given) (rw who (rw (printed, parsed) refl)))

  -- What an anonymous identity arrives as.
  anonymous_read :
      (found : Option String)
      → get_env customer_id_env_var parent ≡ found
      → (customer : Option ℤ) → customer_from printing found ≡ ok customer
      → Arrives anonymous (record { session_id = str session; customer_id = customer })
  unfolding session_environment identity_from_env
  anonymous_read found f customer k =
      let env = set_env session_id_env_var session parent in
      let here = get-set session_id_env_var session parent in
      let who : get_env customer_id_env_var env ≡ found =
        get-set_other session_id_env_var customer_id_env_var session parent refl ∙ f in
      (env, refl, rw (here, given) (rw (who, k) refl))

  -- An anonymous identity stays anonymous if the service's own environment has no customer variable.
  pub anonymous_identity-Arrives :
      get_env customer_id_env_var parent ≡ none → Arrives anonymous anonymous
  unfolding customer_from
  anonymous_identity-Arrives h = anonymous_read none h none refl

  -- If the service's own environment has a customer variable with a number, an anonymous identity
  -- reaches the tool server as that customer.
  pub anonymous_identity-inherits :
      (text : String) (c : ℤ)
      → get_env customer_id_env_var parent ≡ some text
      → (text =ₛ "") ≡ false
      → printing.parse_int text ≡ some c
      → Arrives anonymous (customer_of c)
  unfolding customer_from
  anonymous_identity-inherits text c h n p = anonymous_read (some text) h (some c) (rw (n, p) refl)

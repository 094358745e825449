-- ===== src/Scripts/MintToken/Customers.antt =====
-- The customer of a token that was minted, in the database.
use mathlib.Core.Path.{subst}
use dealership_agent.Base.{
  All, Bool, Bool-cases, List, [], any, ap, arith, if◌then◌else◌, inl, inr, refl, same_int,
  same_int_iff, sym, true, ℕ, ℤ, ◌++◌, ◌==◌, ◌=ₛ◌, ◌||◌, ◌∙◌, ◌∷◌, ◌≡◌, ◌≤◌,
}
use dealership_agent.Config.{Settings}
use dealership_agent.Python.{ok, ok_injective, then_ok}
use dealership_agent.Scripts.MintToken.{
  Args, CustomerRow, CustomerTable, Files, Minted, Signer, advanced, clashes,
  ensure_customer_exists, ensure_keypair, main, max_id, mint_with, new_customer, pos_or_zero,
  private_path, read_file, signed,
}

abbrev pub has_customer : ℤ → List CustomerRow → Bool
has_customer customer rows = any (λ r. same_int r.id customer) rows

-- The sequence has passed every id, so that the next one of it is new.
abbrev pub IsAhead : CustomerTable → Type 0
IsAhead table = All (λ r. pos_or_zero r.id ≤ table.last_value) table.rows

has_customer_last :
    (customer : ℤ) (rows : List CustomerRow) (row : CustomerRow)
    → same_int row.id customer ≡ true
    → has_customer customer (rows ++ (row ∷ [])) ≡ true
has_customer_last customer [] row h = rw h refl
has_customer_last customer (r ∷ rs) row h = rw (has_customer_last customer rs row h) (ground arith)

below_max :
    (rows : List CustomerRow) (n : ℕ) → max_id rows ≤ n → All (λ r. pos_or_zero r.id ≤ n) rows
unfolding max_id
below_max [] n h = tt
below_max (r ∷ rs) n h = (omega arith, below_max rs n (omega arith))

advanced-IsAhead :
    (rows : List CustomerRow) (t : CustomerTable)
    → advanced rows ≡ ok t
    → (t.rows ≡ rows) × IsAhead t
advanced-IsAhead rows t h = elim (Bool-cases (max_id rows == 0)) [
  | inl e ↦ let k = rw e at h in absurd (ground arith)
  | inr e ↦
      let same : record { rows = rows; last_value = max_id rows } ≡ t =
        ok_injective (record { rows = rows; last_value = max_id rows }) t (rw e at h) in
      (ap (λ x. x.rows) (sym same), subst IsAhead same (below_max rows (max_id rows) (omega arith)))
]

pub ensure_customer_exists-known :
    (s : Signer) (customer : ℤ) (table t : CustomerTable)
    → IsAhead table
    → ensure_customer_exists s customer table ≡ ok t
    → (has_customer customer t.rows ≡ true) × IsAhead t
unfolding ensure_customer_exists
ensure_customer_exists-known s customer table t ahead h =
    elim (Bool-cases (has_customer customer table.rows)) [
      | inl e ↦
          let same : table ≡ t = ok_injective table t (rw e at h) in
          (ap (λ x. has_customer customer x.rows) (sym same) ∙ e, subst IsAhead same ahead)
      | inr e ↦ elim (Bool-cases (any (clashes (new_customer s customer)) table.rows)) [
        | inl d ↦ let k = rw (e, d) at h in absurd (ground arith)
        | inr d ↦
            let (same, ahead') =
              advanced-IsAhead (table.rows ++ (new_customer s customer ∷ [])) t (rw (e, d) at h) in
            (
              ap (has_customer customer) same
                  ∙ has_customer_last customer table.rows (new_customer s customer)
                      ((same_int_iff customer customer).1 refl),
              ahead',
            )
      ]
    ]

-- The table that a run leaves.
pub minted_customer :
    (s : Signer) (settings : Settings) (args : Args) (files : Files) (table : CustomerTable)
    (m : Minted)
    → IsAhead table
    → main s settings args files table ≡ ok m
    → ((args.skip_db_check || has_customer args.customer_id m.table.rows) ≡ true) × IsAhead m.table
unfolding main
minted_customer s settings args files table m ahead h =
    elim (Bool-cases (settings.app_env =ₛ "production")) [
      | inl e ↦ let k = rw e at h in absurd (ground arith)
      | inr e ↦
          let (table', t, r) =
            then_ok
              (if args.skip_db_check
                then ok table
                else ensure_customer_exists s args.customer_id table)
              (mint_with s settings args files) m (rw e at h) in
          let (token, k, finished) =
            then_ok
              (signed s settings args (ensure_keypair s settings files)
                (read_file (private_path settings) (ensure_keypair s settings files)))
              _ m r in
          let same : table' ≡ m.table = ap (λ x. x.table) (ok_injective _ m finished) in
          subst
            (λ x. ((args.skip_db_check || has_customer args.customer_id x.rows) ≡ true) × IsAhead x)
            same (left table' t)
    ]
  where
    left :
        (t : CustomerTable)
        → (if args.skip_db_check then ok table else ensure_customer_exists s args.customer_id table)
          ≡ ok t
        → ((args.skip_db_check || has_customer args.customer_id t.rows) ≡ true) × IsAhead t
    left t k = elim (Bool-cases args.skip_db_check) [
      | inl e ↦
          let same : table ≡ t = ok_injective table t (rw e at k) in
          (rw e refl, subst IsAhead same ahead)
      | inr e ↦ rw e (ensure_customer_exists-known s args.customer_id table t ahead (rw e at k))
    ]

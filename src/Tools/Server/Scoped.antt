-- ===== src/Tools/Server/Scoped.antt =====
-- The customer-scoped tools, by who asks.
use dealership_agent.Base.{
  Option, String, ap, filter, filter-twice, map, negsuc, none, pos, refl, same_int, some, take, ℤ,
  ◌=ₛ◌, ◌≡◌,
}
use dealership_agent.Python.{Library, Value, ok, raise}
use dealership_agent.Tools.Identity.{RequestIdentity}
use dealership_agent.Tools.Server.{
  Tables, customer_scoped_connection, escalate_to_human, first_order, get_order_status, has_status,
  join_orders, list_my_orders, most_recent, no_customer, order_rows, summary_fields, visible_orders,
}

-- The tables with no order but those that have the customer's number.
abbrev pub own_orders : ℤ → Tables → Tables
own_orders customer tables = record tables {
  orders = filter (λ o. same_int o.customer_id customer) tables.orders;
}

-- An identity that names no customer, or none at all.
abbrev pub IsAnonymous : Option RequestIdentity → Type 0
IsAnonymous none = Unit
IsAnonymous (some identity) = identity.customer_id ≡ none

anonymous_connection :
    (identity : Option RequestIdentity)
    → IsAnonymous identity
    → customer_scoped_connection identity ≡ raise no_customer
unfolding customer_scoped_connection
anonymous_connection none h = refl
anonymous_connection (some identity) h = rw h refl

-- Without an authenticated customer each of the three tools raises, whatever its arguments are, and
-- so no row is read or written.
pub tools_fail_closed :
    (lib : Library) (identity : Option RequestIdentity) (text other : String) (now : Value)
    (status : Option String) (limit : ℤ) (tables : Tables)
    → IsAnonymous identity
    → (get_order_status identity text tables ≡ raise no_customer)
      × (list_my_orders lib identity status limit tables ≡ raise no_customer)
      × (escalate_to_human identity now text other tables ≡ raise no_customer)
unfolding get_order_status list_my_orders escalate_to_human
tools_fail_closed lib identity text other now status (pos limit) tables h =
    let e = anonymous_connection identity h in (rw e refl, rw e refl, rw e refl)
tools_fail_closed lib identity text other now status (negsuc limit) tables h =
    let e = anonymous_connection identity h in (rw e refl, rw e refl, rw e refl)

-- The listing of the orders that are given as visible.
own_listing :
    (lib : Library) (identity : RequestIdentity) (customer : ℤ) (status : Option String) (limit : ℤ)
    (tables : Tables)
    → identity.customer_id ≡ some customer
    → list_my_orders lib (some identity) status limit (own_orders customer tables)
      ≡ list_my_orders lib (some identity) status limit tables
unfolding list_my_orders customer_scoped_connection order_rows visible_orders
own_listing lib identity customer status (negsuc limit) tables h = refl
own_listing lib identity customer status (pos limit) tables h = rw h (
    ap
      (λ rows. ok (
        map (summary_fields lib) (
          take limit
            (most_recent (join_orders tables.vehicles (filter (has_status status) rows))))))
      (filter-twice (λ o. same_int o.customer_id customer) tables.orders))

-- What the two reading tools return for a customer depends on the orders that have that customer's
-- number only: without all others the answers are the same.
pub tools_read_own_orders :
    (lib : Library) (identity : RequestIdentity) (customer : ℤ) (order_ref : String)
    (status : Option String) (limit : ℤ) (tables : Tables)
    → identity.customer_id ≡ some customer
    → (get_order_status (some identity) order_ref (own_orders customer tables)
        ≡ get_order_status (some identity) order_ref tables)
      × (list_my_orders lib (some identity) status limit (own_orders customer tables)
          ≡ list_my_orders lib (some identity) status limit tables)
unfolding get_order_status customer_scoped_connection visible_orders
tools_read_own_orders lib identity customer order_ref status limit tables h = (
  rw h (
      ap (λ rows. ok (first_order (filter (λ o. o.order_ref =ₛ order_ref) rows)))
        (filter-twice (λ o. same_int o.customer_id customer) tables.orders)),
  own_listing lib identity customer status limit tables h,
)

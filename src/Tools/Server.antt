-- ===== src/Tools/Server.antt =====
-- tools/server.py, the three customer-scoped tools, with tools/scope.py and the policies of
-- db/migrations/versions/05d78e206134_enable_row_level_security.py on the tables that they use. A
-- result is the dict that the tool returns.
pub mod Scoped
pub mod Escalated
use dealership_agent.Base.{
  Bool, List, Option, String, [], any, filter, if◌then◌else◌, leb, map, negsuc, none, not, pos,
  same_int, some, suc, take, true, ℕ, ℤ, ◌&&◌, ◌++◌, ◌<>◌, ◌==◌, ◌=ₛ◌, ◌∷◌,
}
use dealership_agent.Db.{fits_text, fits_varchar, max_int4}
use dealership_agent.Python.{
  Exn, Library, Number, Outcome, Value, end, external_error, field, int, null, num, obj, ok, raise,
  scope_error, str, ◌>>=◌,
}
use dealership_agent.Tools.Identity.{RequestIdentity}
use dealership_agent.Tools.Session.{session_text}

pub record VehicleRow : Type 0 where
  pub id : ℕ
  pub year : Number
  pub make : String
  pub model : String

-- `created_at` orders the rows; the dates are shown as they are.
pub record OrderRow : Type 0 where
  pub order_ref : String
  pub customer_id : ℤ
  pub vehicle_id : ℕ
  pub status : String
  pub created_at : ℕ
  pub total_amount : Value
  pub created_text : Value
  pub expected_delivery_date : Value
  pub actual_delivery_date : Value

pub record EscalationRow : Type 0 where
  pub id : ℕ
  pub customer_id : ℤ
  pub conversation_id : String
  pub summary : String
  pub reason : String

pub record Tables : Type 0 where
  pub orders : List OrderRow
  pub vehicles : List VehicleRow
  pub escalations : List EscalationRow
  pub next_escalation : ℕ
  -- the ids of `customers`, which is all that the tools rest on of that table
  pub customers : List ℤ

pub record ScopedConnection : Type 0 where
  pub customer_id : ℤ
  pub session_id : Value

abbrev pub no_customer : Exn
no_customer =
    scope_error
      "No authenticated customer in the current request context - refusing to open a customer-scoped database connection."

abbrev pub scoped_for : Value → Option ℤ → Outcome ScopedConnection
scoped_for session none = raise no_customer
scoped_for session (some customer) = ok (record { customer_id = customer; session_id = session })

-- customer_scoped_connection, from the identity that the process is bound to
unfoldable pub customer_scoped_connection : Option RequestIdentity → Outcome ScopedConnection
customer_scoped_connection none = raise no_customer
customer_scoped_connection (some identity) = scoped_for identity.session_id identity.customer_id

-- The orders that the policy `orders_isolation` shows.
unfoldable pub visible_orders : ℤ → Tables → List OrderRow
visible_orders customer tables = filter (λ o. same_int o.customer_id customer) tables.orders

abbrev pub order_fields : OrderRow → Value
order_fields o = obj (
    field "order_ref" (str o.order_ref) (
      field "status" (str o.status) (
        field "total_amount" o.total_amount (
          field "created_at" o.created_text (
            field "expected_delivery_date" o.expected_delivery_date
              (field "actual_delivery_date" o.actual_delivery_date end))))))

abbrev pub first_order : List OrderRow → Value
first_order [] = null
first_order (o ∷ os) = order_fields o

unfoldable pub get_order_status : Option RequestIdentity → String → Tables → Outcome Value
unfolding customer_scoped_connection visible_orders
get_order_status identity order_ref tables = customer_scoped_connection identity >>= λ scoped. ok (
    first_order (filter (λ o. o.order_ref =ₛ order_ref) (visible_orders scoped.customer_id tables)))

-- CAST(:status_filter AS text) IS NULL OR o.status::text = :status_filter
unfoldable pub has_status : Option String → OrderRow → Bool
has_status none o = true
has_status (some status) o = o.status =ₛ status

-- JOIN vehicles v ON v.id = o.vehicle_id, where the foreign key makes the vehicle unique
unfoldable pub vehicle_of : ℕ → List VehicleRow → Option VehicleRow
vehicle_of id [] = none
vehicle_of id (v ∷ vs) = if v.id == id then some v else vehicle_of id vs

abbrev pub joined : List VehicleRow → OrderRow → List (OrderRow × VehicleRow)
unfolding vehicle_of
joined vehicles o = elim (vehicle_of o.vehicle_id vehicles) [ none ↦ [] | some v ↦ (o, v) ∷ [] ]

unfoldable pub join_orders : List VehicleRow → List OrderRow → List (OrderRow × VehicleRow)
unfolding joined
join_orders vehicles [] = []
join_orders vehicles (o ∷ os) = joined vehicles o ++ join_orders vehicles os

-- ORDER BY o.created_at DESC
unfoldable pub insert_recent :
    OrderRow × VehicleRow → List (OrderRow × VehicleRow) → List (OrderRow × VehicleRow)
insert_recent r [] = r ∷ []
insert_recent r (s ∷ ss) =
    let later = insert_recent r ss in
    if leb s.0.created_at r.0.created_at then r ∷ s ∷ ss else s ∷ later

unfoldable pub most_recent : List (OrderRow × VehicleRow) → List (OrderRow × VehicleRow)
unfolding insert_recent
most_recent [] = []
most_recent (r ∷ rs) = insert_recent r (most_recent rs)

abbrev pub summary_fields : Library → OrderRow × VehicleRow → Value
summary_fields lib (o, v) = obj (
    field "order_ref" (str o.order_ref) (
      field "status" (str o.status) (
        field "vehicle_summary"
          (str (lib.format (num v.year) <> (" " <> (v.make <> (" " <> v.model)))))
          (field "created_at" o.created_text (
            field "expected_delivery_date" o.expected_delivery_date
              (field "actual_delivery_date" o.actual_delivery_date end))))))

-- The rows of the query.
unfoldable pub order_rows : ℤ → Option String → ℕ → Tables → List (OrderRow × VehicleRow)
unfolding visible_orders has_status join_orders most_recent
order_rows customer status limit tables = take limit (
    most_recent
      (join_orders tables.vehicles (filter (has_status status) (visible_orders customer tables))))

-- A negative LIMIT is an error of the database.
unfoldable pub list_my_orders :
    Library → Option RequestIdentity → Option String → ℤ → Tables → Outcome (List Value)
unfolding customer_scoped_connection order_rows
list_my_orders lib identity status (negsuc n) tables =
    customer_scoped_connection identity >>= λ scoped.
    raise (external_error "LIMIT must not be negative")
list_my_orders lib identity status (pos limit) tables =
    customer_scoped_connection identity >>= λ scoped.
    ok (map (summary_fields lib) (order_rows scoped.customer_id status limit tables))

abbrev pub escalation_fields : ℕ → Value → Value
escalation_fields id created_at = obj (
    field "id" (num (int (pos id)))
      (field "created_at" created_at (field "status" (str "escalated") end)))

-- escalations.customer_id REFERENCES customers.id
unfoldable pub is_customer : ℤ → List ℤ → Bool
is_customer customer ids = any (λ id. same_int id customer) ids

-- The columns of the row, with the next number of the sequence.
unfoldable pub fits_escalation : ℕ → String → String → String → Bool
unfolding fits_text fits_varchar
fits_escalation id session summary reason =
    leb id max_int4 && (fits_varchar 64 session && (fits_text summary && fits_varchar 128 reason))

-- The row in scope, since its customer is the scope's, with the types of its columns in db/models.py and
-- the foreign key, which is checked at the end of the statement.
unfoldable pub insert_escalation :
    ScopedConnection → Value → String → String → Tables → String → Outcome (Value × Tables)
unfolding is_customer fits_escalation
insert_escalation scoped now summary reason tables session =
    if not (fits_escalation tables.next_escalation session summary reason)
    then raise (external_error "DataError")
    else if not (is_customer scoped.customer_id tables.customers)
    then raise (external_error "insert or update violates foreign key constraint")
    else ok (
      escalation_fields tables.next_escalation now,
      record tables {
        escalations =
            tables.escalations
            ++ (record {
              id = tables.next_escalation;
              customer_id = scoped.customer_id;
              conversation_id = session;
              summary = summary;
              reason = reason;
            }
                ∷ []);
        next_escalation = suc tables.next_escalation;
      },
    )

-- `now` is the database's clock.
unfoldable pub escalate_to_human :
    Option RequestIdentity → Value → String → String → Tables → Outcome (Value × Tables)
unfolding customer_scoped_connection insert_escalation
escalate_to_human identity now summary reason tables =
    customer_scoped_connection identity >>= λ scoped. session_text scoped.session_id >>= λ session.
    insert_escalation scoped now summary reason tables session

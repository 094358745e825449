-- ===== src/Tests/Sessions.antt =====
-- A session of the tool server, and its customer-scoped tools.
use dealership_agent.Base.{
  String, [], if◌then◌else◌, len, map, none, pos, refl, same_int, some, ℕ, ℤ, ◌=ₛ◌, ◌∷◌, ◌≡◌,
}
use dealership_agent.Db.{fits_text, fits_varchar}
use dealership_agent.Python.{end, external_error, field, int, null, ok, raise, str, value_error}
use dealership_agent.Retrieval.Sorting.{insert, sort}
use dealership_agent.Tests.{someone, toy}
use dealership_agent.Tools.Public.{keys, log_tool_call, logged_rows, row_count}
use dealership_agent.Tools.Server.{
  OrderRow, Tables, customer_scoped_connection, escalate_to_human, fits_escalation,
  get_order_status, has_status, insert_escalation, insert_recent, is_customer, join_orders,
  list_my_orders, most_recent, no_customer, order_rows, vehicle_of, visible_orders,
}
use dealership_agent.Tools.Server.Scoped.{own_orders, tools_fail_closed, tools_read_own_orders}
use dealership_agent.Tools.Session.{Environment, Printing, customer_id_env_var, get_env}
use dealership_agent.Tools.Session.Travel.{
  Arrives, anonymous, anonymous_identity-inherits, customer_identity-Arrives, customer_of,
}

abbrev pub printing : Printing
printing = record { print_int = λ c. "1"; parse_int = λ s. if s =ₛ "1" then some (pos 1) else none }

abbrev pub plain : Environment
plain = ("PATH", "/bin") ∷ []

abbrev pub leaking : Environment
leaking = ("PATH", "/bin") ∷ (customer_id_env_var, "1") ∷ []

customer_identity-Arrives_example :
    Arrives printing leaking "s1" refl
      (customer_of printing leaking "s1" refl (pos 1))
      (customer_of printing leaking "s1" refl (pos 1))
customer_identity-Arrives_example =
    customer_identity-Arrives printing leaking "s1" refl (pos 1) refl refl

anonymous_identity-inherits_example :
    Arrives printing leaking "s1" refl
      (anonymous printing leaking "s1" refl)
      (customer_of printing leaking "s1" refl (pos 1))
unfolding get_env
anonymous_identity-inherits_example =
    anonymous_identity-inherits printing leaking "s1" refl "1" (pos 1) refl refl refl

abbrev pub order_of : String → ℤ → ℕ → OrderRow
order_of ref customer created = record {
  order_ref = ref;
  customer_id = customer;
  vehicle_id = 4;
  status = "confirmed";
  created_at = created;
  total_amount = null;
  created_text = null;
  expected_delivery_date = null;
  actual_delivery_date = null;
}

abbrev pub dealership : Tables
dealership = record {
  orders = order_of "A" (pos 1) 1 ∷ order_of "B" (pos 2) 2 ∷ order_of "C" (pos 1) 3 ∷ [];
  vehicles = record { id = 4; year = int (pos 2024); make = "Audi"; model = "A3" } ∷ [];
  escalations = [];
  next_escalation = 9;
  customers = pos 1 ∷ pos 2 ∷ [];
}

tools_fail_closed_example :
    (get_order_status none "A" dealership ≡ raise no_customer)
    × (list_my_orders toy none none (pos 20) dealership ≡ raise no_customer)
    × (escalate_to_human none null "A" "angry" dealership ≡ raise no_customer)
tools_fail_closed_example = tools_fail_closed toy none "A" "angry" null none (pos 20) dealership tt

tools_read_own_orders_example :
    (get_order_status (some someone) "A" (own_orders (pos 1) dealership)
      ≡ get_order_status (some someone) "A" dealership)
    × (list_my_orders toy (some someone) none (pos 20) (own_orders (pos 1) dealership)
        ≡ list_my_orders toy (some someone) none (pos 20) dealership)
tools_read_own_orders_example =
    tools_read_own_orders toy someone (pos 1) "A" none (pos 20) dealership refl

-- The newest order stands first.
own_orders_listed :
    map (λ r. r.0.order_ref) (order_rows (pos 1) none 20 dealership) ≡ ("C" ∷ "A" ∷ [])
unfolding order_rows visible_orders has_status join_orders vehicle_of most_recent insert_recent
    same_int
own_orders_listed = refl

-- Another customer's order reads as one that does not exist.
other_order_hidden : get_order_status (some someone) "B" dealership ≡ ok null
unfolding get_order_status customer_scoped_connection visible_orders same_int
other_order_hidden = refl

-- A customer whose token was minted without the check of the database, and who has no row.
unknown_customer :
    escalate_to_human
      (some (record { session_id = str "s1"; customer_id = some (pos 7) }))
      null
      "wants a refund"
      "angry"
      dealership
    ≡ raise (external_error "insert or update violates foreign key constraint")
unfolding escalate_to_human customer_scoped_connection insert_escalation is_customer same_int
    fits_escalation fits_text fits_varchar len
unknown_customer = refl

-- The log has the names of the arguments, in order, and none of their values.
call_logged :
    log_tool_call "search_policy_docs"
      (some someone)
      3
      (λ kwargs. raise value_error)
      (field "query" (str "secret") (field "limit" null end))
    ≡ (
      raise value_error,
      record {
        tool = "search_policy_docs";
        session_id = some (str "s1");
        argument_keys = "limit" ∷ "query" ∷ [];
        row_count = 0;
        duration_ms = 3;
      },
    )
unfolding log_tool_call keys sort insert logged_rows row_count
call_logged = refl

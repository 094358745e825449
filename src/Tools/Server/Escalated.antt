-- ===== src/Tools/Server/Escalated.antt =====
-- What an escalation leaves in the queue of the human agents.
use dealership_agent.Base.{List, String, [], false, filter, same_int, true, ℤ, ◌++◌, ◌∷◌, ◌≡◌, ◌⊎◌}
use dealership_agent.Python.{Outcome, Value, ok, raise}
use dealership_agent.Tools.Server.{
  EscalationRow, Tables, escalation_fields, fits_escalation, is_customer,
}

abbrev pub escalations_of : ℤ → Tables → List EscalationRow
escalations_of customer tables = filter (λ r. same_int r.customer_id customer) tables.escalations

-- The queue `after` has one row more than `before`, of this customer and this session, and every
-- other customer's part of it is as it was.
abbrev pub IsHandedOff : ℤ → String → String → String → Tables → Tables → Type 0
IsHandedOff customer session summary reason before after =
    (escalations_of customer after
      ≡ escalations_of customer before
        ++ (record {
          id = before.next_escalation;
          customer_id = customer;
          conversation_id = session;
          summary = summary;
          reason = reason;
        }
            ∷ []))
    × ((other : ℤ)
        → same_int customer other ≡ false
        → escalations_of other after ≡ escalations_of other before)

-- The customer has no row in `customers`, or a value does not fit its column.
abbrev pub IsRefused : ℤ → String → String → String → Tables → Type 0
IsRefused customer session summary reason tables =
    (is_customer customer tables.customers ≡ false)
    ⊎ (fits_escalation tables.next_escalation session summary reason ≡ false)

-- What the tool made of an escalation.
abbrev pub IsHandled :
    ℤ → String → String → String → Value → Tables → Outcome (Value × Tables) → Type 0
IsHandled customer session summary reason now tables (raise e) =
    IsRefused customer session summary reason tables
IsHandled customer session summary reason now tables (ok (answer, after)) =
    (is_customer customer tables.customers ≡ true)
    × (fits_escalation tables.next_escalation session summary reason ≡ true)
    × (answer ≡ escalation_fields tables.next_escalation now)
    × IsHandedOff customer session summary reason tables after

-- ===== src/Agents/ToolBinding/Build.antt =====
-- When a sub-agent can be built, and what it then holds.
use dealership_agent.Agents.ToolBinding.{
  RegisteredTool, SubAgent, ToolSpec, account_agent_tools, bind_spec, bind_specs, build_sales_agent,
  build_sub_agent, call_tool, is_subset, make_sub_agent, missing_tools, registered_by_name,
  sales_agent_tools, spec_names, spec_of,
}
use dealership_agent.Base.{
  Bool, Bool-cases, List, Option-cases, String, [], all, ap, arith, eq_iff, false, inl, inr, map,
  member, refl, some, true, ◌∷◌, ◌≡◌, ◌≢◌, ◌⊎◌,
}
use dealership_agent.Python.{
  Trace, Value, World, ok, permission_error, raise, str, unregistered_tools,
}

-- A name that `missing_tools` does not report has a registered tool.
registered_by_name_of_member :
    (name : String) (ts : List RegisteredTool)
    → member name (map (λ t. t.name) ts) ≡ true
    → (t : RegisteredTool) × (registered_by_name name ts ≡ some t)
unfolding registered_by_name
registered_by_name_of_member name [] h = absurd (ground arith)
registered_by_name_of_member name (t ∷ ts) h = elim (Option-cases (registered_by_name name ts)) [
  | inr (u, e) ↦ (u, rw e)
  | inl e ↦ elim (Bool-cases (member name (map (λ t. t.name) ts))) [
    | inl later ↦
        registered_by_name_of_member_later name t ts (registered_by_name_of_member name ts later)
    | inr first ↦ (t, ground (arith, eq_iff name t.name, eq_iff t.name name))
  ]
]
  where
    registered_by_name_of_member_later :
        (name : String) (t : RegisteredTool) (ts : List RegisteredTool)
        → (u : RegisteredTool) × (registered_by_name name ts ≡ some u)
        → (u : RegisteredTool) × (registered_by_name name (t ∷ ts) ≡ some u)
    registered_by_name_of_member_later name t ts (u, e) = (u, rw e)

bind_spec_of_registered :
    (ts : List RegisteredTool) (name : String)
    → (t : RegisteredTool) × (registered_by_name name ts ≡ some t)
    → (spec : ToolSpec) × (bind_spec ts name ≡ ok (name, spec))
unfolding bind_spec
bind_spec_of_registered ts name (t, e) = (spec_of name t, rw (e, bind_spec))

-- With nothing missing the comprehension gives each allowed tool its specification.
bind_specs_of_none_missing :
    (ts : List RegisteredTool) (allowed : List String)
    → missing_tools ts allowed ≡ []
    → (specs : List (String × ToolSpec)) × (bind_specs ts allowed ≡ ok specs)
      × (spec_names specs ≡ allowed)
unfolding missing_tools bind_specs
bind_specs_of_none_missing ts [] h = ([], refl, refl)
bind_specs_of_none_missing ts (name ∷ rest) h =
    elim (Bool-cases (member name (map (λ t. t.name) ts))) [
      | inr gone ↦ absurd (ground arith)
      | inl there ↦
          go (bind_spec_of_registered ts name (registered_by_name_of_member name ts there))
            (bind_specs_of_none_missing ts rest (ground arith))
    ]
  where
    go :
        (spec : ToolSpec) × (bind_spec ts name ≡ ok (name, spec))
        → (specs : List (String × ToolSpec)) × (bind_specs ts rest ≡ ok specs)
          × (spec_names specs ≡ rest)
        → (specs : List (String × ToolSpec)) × (bind_specs ts (name ∷ rest) ≡ ok specs)
          × (spec_names specs ≡ name ∷ rest)
    go (spec, e) (specs, f, n) = ((name, spec) ∷ specs, ground arith, ap (λ ns. name ∷ ns) n)

member-cons : (x y : String) (xs : List String) → member x xs ≡ true → member x (y ∷ xs) ≡ true
member-cons x y xs h = ground arith

all_mono :
    (p q : String → Bool) (xs : List String)
    → ((x : String) → p x ≡ true → q x ≡ true)
    → all p xs ≡ true
    → all q xs ≡ true
all_mono p q [] f h = refl
all_mono p q (x ∷ xs) f h = ground (arith, f x, all_mono p q xs f)

is_subset_refl : (xs : List String) → is_subset xs xs ≡ true
is_subset_refl [] = refl
is_subset_refl (x ∷ xs) = ground (
  arith,
  eq_iff x x,
  all_mono (λ y. member y xs) (λ y. member y (x ∷ xs)) xs (λ y. member-cons y x xs)
      (is_subset_refl xs),
)

nil-or_cons : (xs : List String) → (xs ≡ []) ⊎ ((y : String) × (ys : List String) × (xs ≡ y ∷ ys))
nil-or_cons [] = inl refl
nil-or_cons (y ∷ ys) = inr (y, ys, refl)

-- A sub-agent is built exactly when every tool of its allow-list is registered. It then holds that
-- allow-list and one specification for each of its tools; otherwise building raises, with the
-- tools that are missing.
pub build_sub_agent_lem :
    (ts : List RegisteredTool) (name : String) (allowed : List String)
    → ((missing_tools ts allowed ≡ [])
        × (agent : SubAgent) × (build_sub_agent ts name allowed ≡ ok agent)
        × (agent.name ≡ name)
        × (agent.allowed_tools ≡ allowed)
        × (spec_names agent.tool_specs ≡ allowed))
      ⊎ ((missing_tools ts allowed ≢ [])
          × (build_sub_agent ts name allowed
              ≡ raise (unregistered_tools name (missing_tools ts allowed))))
unfolding build_sub_agent make_sub_agent
build_sub_agent_lem ts name allowed = elim (nil-or_cons (missing_tools ts allowed)) [
  | inl h ↦ inl (built h (bind_specs_of_none_missing ts allowed h))
  | inr (m, ms, e) ↦ inr (λ h. ground arith, ground arith)
]
  where
    built :
        missing_tools ts allowed ≡ []
        → (specs : List (String × ToolSpec)) × (bind_specs ts allowed ≡ ok specs)
          × (spec_names specs ≡ allowed)
        → (missing_tools ts allowed ≡ [])
          × (agent : SubAgent) × (build_sub_agent ts name allowed ≡ ok agent)
          × (agent.name ≡ name)
          × (agent.allowed_tools ≡ allowed)
          × (spec_names agent.tool_specs ≡ allowed)
    built h (specs, e, n) = (
      h,
      record { name = name; allowed_tools = allowed; tool_specs = specs },
      ground (arith, is_subset_refl allowed),
      refl,
      refl,
      n,
    )

pub built_tools :
    (ts : List RegisteredTool) (name : String) (allowed : List String) (agent : SubAgent)
    → build_sub_agent ts name allowed ≡ ok agent
    → agent.allowed_tools ≡ allowed
unfolding build_sub_agent make_sub_agent
built_tools ts name allowed agent h = ground arith

account_tool_cases :
    (n : String)
    → member n account_agent_tools ≡ true
    → (n ≡ "get_order_status") ⊎ ((n ≡ "list_my_orders") ⊎ (n ≡ "escalate_to_human"))
account_tool_cases n h =
    ground
      (arith, eq_iff n "get_order_status", eq_iff n "list_my_orders", eq_iff n "escalate_to_human")

-- An account tool is no sales tool.
pub disjoint :
    (n : String) → member n account_agent_tools ≡ true → member n sales_agent_tools ≡ false
disjoint n h = elim (account_tool_cases n h) [
  | inl e ↦ rw e refl
  | inr (inl e) ↦ rw e refl
  | inr (inr e) ↦ rw e refl
]

-- A sales agent that was built, from whatever the tool server registers, never reaches a tool of
-- the account agent: the call raises and the tool server is not asked.
pub sales_agent_has_no_account_tool :
    (w : World) (ts : List RegisteredTool) (agent : SubAgent) (n : String) (arguments : Value)
    (t : Trace)
    → build_sales_agent ts ≡ ok agent
    → member n account_agent_tools ≡ true
    → call_tool w agent (str n) arguments t
      ≡ (raise (permission_error agent.name (str n) sales_agent_tools), t)
unfolding call_tool build_sales_agent
sales_agent_has_no_account_tool w ts agent n arguments t h m =
    let e : agent.allowed_tools ≡ sales_agent_tools =
      built_tools ts "sales_agent" sales_agent_tools agent h in
    let d = disjoint n m in rw e (rw d refl)

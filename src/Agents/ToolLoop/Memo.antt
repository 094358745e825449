-- ===== src/Agents/ToolLoop/Memo.antt =====
-- The cache of the loop: what it means that an identical call is not made again.
pub mod Rounds
pub mod Served
use mathlib.Core.List.{append-nil}
use dealership_agent.Agents.ToolLoop.{Loop, ToolCall, cache_key, failed, lookup, returned}
use dealership_agent.Base.{
  All, All-append, List, String, [], ap, arith, eq_iff, false, none, refl, some, true, ◌++◌, ◌∷◌,
  ◌≡◌,
}
use dealership_agent.Python.{Library, Value}

module _ (lib : Library) where
  -- The entries that came from the tool server, in order, with the keys of their calls.
  abbrev pub fresh_entries : List ToolCall → List (String × Value)
  fresh_entries [] = []
  fresh_entries (returned tool arguments result false ∷ calls) =
      (cache_key lib tool arguments, result) ∷ fresh_entries calls
  fresh_entries (returned tool arguments result true ∷ calls) = fresh_entries calls
  fresh_entries (failed tool arguments error ∷ calls) = fresh_entries calls

  -- An entry shows the result that the tool server gave for its call.
  abbrev pub IsFaithful : List (String × Value) → ToolCall → Type 0
  IsFaithful served (returned tool arguments result cached) =
      lookup (cache_key lib tool arguments) served ≡ some result
  IsFaithful served (failed tool arguments error) = Unit

  pub fresh_entries-append :
      (xs ys : List ToolCall) → fresh_entries (xs ++ ys) ≡ fresh_entries xs ++ fresh_entries ys
  fresh_entries-append [] ys = refl
  fresh_entries-append (returned tool arguments result false ∷ xs) ys =
      ap (λ es. (cache_key lib tool arguments, result) ∷ es) (fresh_entries-append xs ys)
  fresh_entries-append (returned tool arguments result true ∷ xs) ys = fresh_entries-append xs ys
  fresh_entries-append (failed tool arguments error ∷ xs) ys = fresh_entries-append xs ys

abbrev pub Distinct : List (String × Value) → Type 0
Distinct [] = Unit
Distinct ((k, v) ∷ es) = (lookup k es ≡ none) × Distinct es

pub lookup-append :
    (k : String) (xs ys : List (String × Value)) (v : Value)
    → lookup k xs ≡ some v
    → lookup k (xs ++ ys) ≡ some v
unfolding lookup
lookup-append k [] ys v h = absurd (ground arith)
lookup-append k ((j, u) ∷ xs) ys v h = ground (arith, lookup-append k xs ys v)

pub lookup-append_none :
    (k : String) (xs ys : List (String × Value))
    → lookup k xs ≡ none
    → lookup k (xs ++ ys) ≡ lookup k ys
unfolding lookup
lookup-append_none k [] ys h = refl
lookup-append_none k ((j, u) ∷ xs) ys h = ground (arith, lookup-append_none k xs ys)

lookup_head : (k : String) (v : Value) → lookup k ((k, v) ∷ []) ≡ some v
unfolding lookup
lookup_head k v = ground (arith, eq_iff k k)

Distinct-snoc :
    (xs : List (String × Value)) (k : String) (v : Value)
    → Distinct xs
    → lookup k xs ≡ none
    → Distinct (xs ++ (k, v) ∷ [])
unfolding lookup
Distinct-snoc [] k v d h = (refl, tt)
Distinct-snoc ((j, u) ∷ xs) k v d h = (
  ground (arith, eq_iff j k, eq_iff k j, lookup-append_none j xs ((k, v) ∷ []) d.0),
  Distinct-snoc xs k v d.1 (ground arith),
)

IsFaithful-append :
    (lib : Library) (served more_served : List (String × Value)) (calls : List ToolCall)
    → All (IsFaithful lib served) calls
    → All (IsFaithful lib (served ++ more_served)) calls
IsFaithful-append lib served m [] h = tt
IsFaithful-append lib served m (returned tool arguments result cached ∷ calls) h = (
  lookup-append (cache_key lib tool arguments) served m result h.0,
  IsFaithful-append lib served m calls h.1,
)
IsFaithful-append lib served m (failed tool arguments error ∷ calls) h =
    (tt, IsFaithful-append lib served m calls h.1)

pub record IsMemo (lib : Library) (calls : List ToolCall) : Type 0 where
  pub distinct : Distinct (fresh_entries lib calls)
  pub faithful : All (IsFaithful lib (fresh_entries lib calls)) calls

pub record Agrees (lib : Library) (s : Loop) : Type 0 where
  pub memo : IsMemo lib s.tool_calls
  pub same : (k : String) → lookup k s.call_cache ≡ lookup k (fresh_entries lib s.tool_calls)

module _ (lib : Library) (calls : List ToolCall) (tool arguments : Value)
    (m : IsMemo lib calls) where
  pub IsMemo-failed : (error : String) → IsMemo lib (calls ++ failed tool arguments error ∷ [])
  IsMemo-failed error =
      let e = fresh_entries-append lib calls (failed tool arguments error ∷ []) in
      record {
        distinct = rw (e, append-nil) m.distinct;
        faithful =
            rw (e, append-nil)
              (All-append (IsFaithful lib (fresh_entries lib calls)) calls _ m.faithful (tt, tt));
      }

  pub IsMemo-cached :
      (result : Value)
      → lookup (cache_key lib tool arguments) (fresh_entries lib calls) ≡ some result
      → IsMemo lib (calls ++ returned tool arguments result true ∷ [])
  IsMemo-cached result h =
      let e = fresh_entries-append lib calls (returned tool arguments result true ∷ []) in
      record {
        distinct = rw (e, append-nil) m.distinct;
        faithful =
            rw (e, append-nil)
              (All-append (IsFaithful lib (fresh_entries lib calls)) calls _ m.faithful (h, tt));
      }

  pub IsMemo-fresh :
      (result : Value)
      → lookup (cache_key lib tool arguments) (fresh_entries lib calls) ≡ none
      → IsMemo lib (calls ++ returned tool arguments result false ∷ [])
  IsMemo-fresh result h =
      let k : String = cache_key lib tool arguments in
      let fe : List (String × Value) = fresh_entries lib calls in
      let e = fresh_entries-append lib calls (returned tool arguments result false ∷ []) in
      let found : lookup k (fe ++ (k, result) ∷ []) ≡ some result =
        rw (lookup-append_none k fe ((k, result) ∷ []) h) (lookup_head k result) in
      record {
        distinct = rw e (Distinct-snoc fe k result m.distinct h);
        faithful = rw e (
            All-append (IsFaithful lib (fe ++ (k, result) ∷ [])) calls _
              (IsFaithful-append lib fe ((k, result) ∷ []) calls m.faithful) (found, tt));
      }

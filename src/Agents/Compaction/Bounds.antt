-- ===== src/Agents/Compaction/Bounds.antt =====
-- How long an observation can be.
use dealership_agent.Agents.Compaction.{
  clip, compact_body, compact_error, compact_tool_result, truncation_marker,
}
use dealership_agent.Base.{
  String, arith, len, len-append, len-prefix, len-rstrip, max, prefix, rstrip, ℕ, ◌+◌, ◌<◌, ◌≡◌,
  ◌≤◌,
}
use dealership_agent.Python.{
  Library, Outcome, Value, arr, bool, cons, nil, null, num, obj, ok, raise, str, ◌>>=◌,
}

len-marker : len truncation_marker ≡ 14
unfolding len
len-marker = omega arith

-- A text that fits is not touched, and a cut text has at most the marker more than the limit.
pub len-clip : (n : ℕ) (s : String) → len (clip n s) ≤ n + 14
unfolding clip
len-clip n s = ground (
  arith,
  len-append (rstrip (prefix n s)) truncation_marker,
  len-rstrip (prefix n s),
  len-prefix n s,
  len-marker,
)

len-compact_tool_result_cut :
    (lib : Library) (n : ℕ) (result : Value) (s : String)
    → (compact_body lib n result >>= λ body. ok (clip n body)) ≡ ok s
    → len s ≤ n + 14
len-compact_tool_result_cut lib n result s h = go (compact_body lib n result) h
  where
    go : (r : Outcome String) → (r >>= λ body. ok (clip n body)) ≡ ok s → len s ≤ n + 14
    go (ok body) e = ground (arith, len-clip n body)
    go (raise x) e = absurd (ground arith)

-- Whatever the tool returned, an observation that comes back has at most fourteen characters, the
-- marker's, over the limit; only the two fixed texts for no result can be longer.
pub len-compact_tool_result :
    (lib : Library) (n : ℕ) (result : Value) (s : String)
    → compact_tool_result lib n result ≡ ok s
    → len s ≤ max 17 (n + 14)
unfolding compact_tool_result
len-compact_tool_result lib n null s h = let e : s ≡ "null" = cc in rw e (unfold len in omega arith)
len-compact_tool_result lib n (arr nil) s h =
    let e : s ≡ "[] (zero results)" = cc in rw e (unfold len in omega arith)
len-compact_tool_result lib n (arr (cons v vs)) s h =
    omega (arith, len-compact_tool_result_cut lib n (arr (cons v vs)) s h)
len-compact_tool_result lib n (bool b) s h =
    omega (arith, len-compact_tool_result_cut lib n (bool b) s h)
len-compact_tool_result lib n (num b) s h =
    omega (arith, len-compact_tool_result_cut lib n (num b) s h)
len-compact_tool_result lib n (str b) s h =
    omega (arith, len-compact_tool_result_cut lib n (str b) s h)
len-compact_tool_result lib n (obj b) s h =
    omega (arith, len-compact_tool_result_cut lib n (obj b) s h)

-- A longer error text whose cut does not end in a space comes back with exactly fourteen characters
-- over the limit.
pub len-compact_error :
    (n : ℕ) (s : String)
    → n < len s
    → rstrip (prefix n s) ≡ prefix n s
    → len (compact_error n s) ≡ n + 14
unfolding compact_error clip
len-compact_error n s h e =
    ground (arith, len-append (rstrip (prefix n s)) truncation_marker, len-prefix n s, len-marker)

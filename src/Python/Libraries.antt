-- ===== src/Python/Libraries.antt =====
-- The library functions that render or parse values. Their tables (Unicode case, float printing,
-- JSON syntax) are not the program's, so a development that uses them takes them as one record.
use dealership_agent.Base.{String, Option, Bool}
use Prim.Native.Char.{Char}
use dealership_agent.Python.Values.{Value}
use dealership_agent.Python.Outcomes.{Exn, Outcome}

pub record Library : Type 0 where
  -- s.lower()
  pub lower : String → String
  -- json.loads(s): `none` is a JSONDecodeError
  pub loads : String → Option Value
  -- json.dumps(v, default=str), and with sort_keys=True
  pub dumps : Value → String
  pub dumps_sorted : Value → String
  -- f"{v}"
  pub format : Value → String
  -- f"{v:,.2f}" and f"{v:.2f}", which raise on what is no number
  pub format_money : Value → Outcome String
  pub format_fixed : Value → String
  -- str(exc)
  pub message : Exn → String
  -- the word characters of `\w`
  pub is_word : Char → Bool

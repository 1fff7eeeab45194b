-- ===== src/Table/Values.antt =====
-- src/ffi_table.rs, `Bind::param_str`, `Bind::named_str` and `value_to_string`, as sequences of C
-- calls. Table has the first two on the text of a value.
pub mod Released
use laterite_duckdb.Base.{
  ℕ, zero, suc, ◌+◌, ◌-◌, ◌<>◌, ◌≡◌, refl, ap, ◌∙◌, arith, String, Bool, true, false, Option, none,
  some, List, [], ◌∷◌, if◌then◌else◌, Result, ok, err, panic, ok_or, Bool-cases, inl, inr,
  Option-cases,
}
use laterite_duckdb.Base.Text.{has_nul, is_empty, trim, show}
use laterite_duckdb.Table
use mathlib.Core.Option

-- The C calls, those that return a pointer with whether it is not null.
pub data Call : Type 0 where
  get_parameter : ℕ → Bool → Call
  get_named_parameter : String → Bool → Call
  get_varchar : Bool → Call
  free : Call
  destroy_value : Call

abbrev pub Log : Type 0
Log = List Call

-- The bind info of a call, and `String::from_utf8_lossy`.
pub record Info : Type 1 where
  pub Value : Type 0
  pub parameter : ℕ → Option Value
  pub named_parameter : String → Option Value
  -- the bytes of the C string that `duckdb_get_varchar` returns
  pub varchar : Value → Option (List ℕ)
  pub lossy : List ℕ → String

abbrev pub is_some : {A : Type 0} → Option A → Bool
is_some none = false
is_some (some a) = true

module _ (I : Info) where
  abbrev pub copied : Option (List ℕ) → Log → Option String × Log
  copied none log = (none, log)
  copied (some raw) log = (some (I.lossy raw), free ∷ log)

  unfoldable pub value_to_string : I.Value → Log → Option String × Log
  value_to_string val log = copied (I.varchar val) (get_varchar (is_some (I.varchar val)) ∷ log)

  abbrev pub param_text : ℕ → Option I.Value → Log → Result String × Log
  param_text index none log = (err ("missing positional parameter " <> show index), log)
  param_text index (some val) log =
      let (s, log') = value_to_string val log in
      (
        ok_or s ("positional parameter " <> (show index <> " is not a string")),
        destroy_value ∷ log',
      )

  unfoldable pub param_str : ℕ → Log → Result String × Log
  unfolding value_to_string show
  param_str index log =
      param_text index (I.parameter index) (get_parameter index (is_some (I.parameter index)) ∷ log)

  -- `filter(|v| !v.trim().is_empty())`
  abbrev pub not_blank : Option String → Option String
  not_blank none = none
  not_blank (some v) = if is_empty (trim v) then none else some v

  abbrev pub named_text : Option I.Value → Log → Option String × Log
  named_text none log = (none, log)
  named_text (some val) log =
      let (s, log') = value_to_string val log in (not_blank s, destroy_value ∷ log')

  unfoldable pub named_str : String → Log → Option String × Log
  unfolding has_nul value_to_string trim
  named_str name log =
      if has_nul name
      then (none, log)
      else named_text (I.named_parameter name)
          (get_named_parameter name (is_some (I.named_parameter name)) ∷ log)

  -- What Table's functions take: the text of a value that is there.
  abbrev pub text_of : Option I.Value → Option (Option String)
  text_of none = none
  text_of (some val) = some (Option.map I.lossy (I.varchar val))

-- The values and the strings that a log leaves allocated; none once one is released that is not.
abbrev pub step : Call → ℕ × ℕ → Option (ℕ × ℕ)
step (get_parameter index true) (values, strings) = some (suc values, strings)
step (get_named_parameter name true) (values, strings) = some (suc values, strings)
step (get_varchar true) (values, strings) = some (values, suc strings)
step free (values, suc strings) = some (values, strings)
step free (values, zero) = none
step destroy_value (suc values, strings) = some (values, strings)
step destroy_value (zero, strings) = none
step (get_parameter index false) open_now = some open_now
step (get_named_parameter name false) open_now = some open_now
step (get_varchar false) open_now = some open_now

abbrev pub allocated : Log → Option (ℕ × ℕ)
allocated [] = some (0, 0)
allocated (c ∷ log) = Option.bind (allocated log) (step c)

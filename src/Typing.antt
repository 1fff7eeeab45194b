-- ===== src/Typing.antt =====
-- src/typing.rs: the column type of an AGS type code, and the typing of one raw cell. The crate
-- laterite-ags4-types is the parameter `Types`.
pub mod Sound
use laterite_duckdb.Base.{String, Bool, true, Option, none, some, ◌≢◌, if◌then◌else◌}
use laterite_duckdb.Base.Int.{ℤ}
use laterite_duckdb.Base.Text.{trim, is_empty}
use laterite_duckdb.Table.{Cell, null, str, int, ColType}
use mathlib.Core.Logic.{ite}
use mathlib.Core.Option

pub record Types : Type 1 where
  pub F64 : Type 0
  pub CanonicalType : Type 0
  pub Value : Type 0
  pub Time : Type 0
  pub DateTime : Type 0
  -- The variants of `CanonicalType` that the source names, and its `PartialEq`.
  pub decimal : CanonicalType
  pub integer : CanonicalType
  pub boolean : CanonicalType
  pub datetime : CanonicalType
  pub canonical_eq : Discrete CanonicalType
  pub canonical_type : String → Option CanonicalType
  pub is_time_of_day_unit : String → Bool
  pub parse_time : String → Option Time
  pub parse_datetime_for_unit : String → String → Option DateTime
  -- chrono's `format` with "%H:%M:%S%.f" and with "%Y-%m-%d %H:%M:%S%.f"
  pub format_time : Time → String
  pub format_datetime : DateTime → String
  pub parse_value : Option String → String → Value
  -- the accessors of the JSON value
  pub is_null : Value → Bool
  pub as_f64 : Value → Option F64
  pub as_i64 : Value → Option ℤ
  pub as_bool : Value → Option Bool
  pub as_str : Value → Option String
  -- `sql_type` and `sql_type_for_unit`
  pub sql_type : String → String
  pub sql_type_for_unit : String → String → String

-- The variants are distinct, as those of an enum are.
pub record IsDistinct (T : Types) : Type 0 where
  pub datetime_not_decimal : T.datetime ≢ T.decimal
  pub datetime_not_integer : T.datetime ≢ T.integer
  pub datetime_not_boolean : T.datetime ≢ T.boolean

pub data Emit : Type 0 where
  varchar double big_int bool : Emit

unfoldable pub col_type : Emit → ColType
col_type Emit.varchar = ColType.varchar
col_type Emit.double = ColType.double
col_type Emit.big_int = ColType.big_int
col_type Emit.bool = ColType.boolean

module _ (T : Types) where
  -- The `match` of `Emit::of`.
  unfoldable pub emit_of_canonical : Option T.CanonicalType → Emit
  emit_of_canonical none = Emit.varchar
  emit_of_canonical (some t) = ite (T.canonical_eq t T.decimal) Emit.double (
      ite (T.canonical_eq t T.integer) Emit.big_int
        (ite (T.canonical_eq t T.boolean) Emit.bool Emit.varchar))

  -- `Emit::of`
  unfoldable pub emit_of : String → Emit
  unfolding emit_of_canonical
  emit_of ags_type = emit_of_canonical (T.canonical_type ags_type)

  -- `canonical_type(ags_type) == Some(CanonicalType::Datetime)`
  unfoldable pub is_datetime : Option T.CanonicalType → Bool
  is_datetime none = Bool.false
  is_datetime (some t) = ite (T.canonical_eq t T.datetime) true Bool.false

  abbrev pub or_null : {A : Type 0} → Option A → (A → Cell T.F64) → Cell T.F64
  or_null none f = null
  or_null (some a) f = f a

  -- `raw.filter(|s| !s.trim().is_empty())`
  unfoldable pub not_blank : Option String → Option String
  unfolding trim
  not_blank none = none
  not_blank (some s) = if is_empty (trim s) then none else some s

  unfoldable pub datetime_cell : Option String → String → Cell T.F64
  unfolding not_blank
  datetime_cell raw unit =
      if T.is_time_of_day_unit unit
      then or_null (Option.bind raw T.parse_time) (λ t. str (T.format_time t))
      else or_null (Option.bind (not_blank raw) (λ s. T.parse_datetime_for_unit s unit))
          (λ d. str (T.format_datetime d))

  -- The `match kind` on a value that is not null.
  unfoldable pub value_cell : T.Value → Emit → Cell T.F64
  value_cell value Emit.double = or_null (T.as_f64 value) Cell.double
  value_cell value Emit.big_int = or_null (T.as_i64 value) int
  value_cell value Emit.bool = or_null (T.as_bool value) Cell.bool
  value_cell value Emit.varchar = or_null (T.as_str value) str

  unfoldable pub cell_for : Option String → String → String → Emit → Cell T.F64
  unfolding is_datetime datetime_cell value_cell
  cell_for raw ags_type unit kind =
      if is_datetime (T.canonical_type ags_type)
      then datetime_cell raw unit
      else (let value = T.parse_value raw ags_type in
          if T.is_null value then null else value_cell value kind)

-- ===== src/Table/Declared.antt =====
-- src/ffi_table.rs: the columns that `bind` declares, and the type by which DuckDB reads each.
use laterite_duckdb.Base.{◌≡◌, refl, ap, ap₂, suc, false, [], ◌∷◌, map, length, All}
use laterite_duckdb.Base.Text.{has_nul}
use laterite_duckdb.Table.{
  ColType, varchar, big_int, boolean, Columns, LogicalType, type_varchar, type_bigint, type_double,
  type_boolean, logical_type, declare,
}

-- The physical type of the vector of a column of that logical type.
abbrev pub physical : LogicalType → ColType
physical type_varchar = varchar
physical type_bigint = big_int
physical type_double = ColType.double
physical type_boolean = boolean

physical-logical_type : (col : ColType) → physical (logical_type col) ≡ col
unfolding logical_type
physical-logical_type varchar = refl
physical-logical_type big_int = refl
physical-logical_type ColType.double = refl
physical-logical_type boolean = refl

-- No column name has a NUL.
abbrev pub IsClean : Columns → Type 0
IsClean = All (λ c. has_nul c.0 ≡ false)

pub declare-names :
    (columns : Columns)
    → IsClean columns
    → map (λ c. c.0) (declare columns) ≡ map (λ c. c.0) columns
unfolding declare
declare-names [] clean = refl
declare-names ((name, col) ∷ columns) (h, clean) =
    rw h (ap (◌∷◌ name) (declare-names columns clean))

pub declare-types :
    (columns : Columns)
    → IsClean columns
    → map (λ d. physical d.1) (declare columns) ≡ map (λ c. c.1) columns
unfolding declare
declare-types [] clean = refl
declare-types ((name, col) ∷ columns) (h, clean) =
    rw h (ap₂ ◌∷◌ (physical-logical_type col) (declare-types columns clean))

pub length-declare :
    (columns : Columns) → IsClean columns → length (declare columns) ≡ length columns
unfolding declare
length-declare [] clean = refl
length-declare ((name, col) ∷ columns) (h, clean) = rw h (ap suc (length-declare columns clean))

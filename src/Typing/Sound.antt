-- ===== src/Typing/Sound.antt =====
-- A cell typed by src/typing.rs fits the column that it is declared for.
use laterite_duckdb.Base.{
  if◌then◌else◌, String, Bool, Bool-cases, true, false, Option, none, some, inl, inr, ◌≡◌, arith,
}
use laterite_duckdb.Table.{null, ColType, Conforms}
use laterite_duckdb.Typing.{
  Types, IsDistinct, Emit, col_type, emit_of, emit_of_canonical, is_datetime, datetime_cell,
  value_cell, cell_for,
}

module _ (T : Types) where
  value_cell-Conforms : (v : T.Value) (kind : Emit) → Conforms (col_type kind) (value_cell T v kind)
  unfolding value_cell col_type
  value_cell-Conforms v Emit.double = ground arith
  value_cell-Conforms v Emit.big_int = ground arith
  value_cell-Conforms v Emit.bool = ground arith
  value_cell-Conforms v Emit.varchar = ground arith

  Conforms-null : (t : ColType) → Conforms {F = T.F64} t null
  Conforms-null ColType.varchar = tt
  Conforms-null _ = tt

  json_cell-Conforms :
      (v : T.Value) (kind : Emit) (is_null : Bool)
      → Conforms (col_type kind) (if is_null then null else value_cell T v kind)
  json_cell-Conforms v kind true = Conforms-null (col_type kind)
  json_cell-Conforms v kind false = value_cell-Conforms v kind

  datetime_cell-Conforms :
      (raw : Option String) (unit : String) → Conforms ColType.varchar (datetime_cell T raw unit)
  unfolding datetime_cell
  datetime_cell-Conforms raw unit = ground arith

  emit_of_datetime :
      IsDistinct T
      → (c : Option T.CanonicalType) → is_datetime T c ≡ true
      → emit_of_canonical T c ≡ Emit.varchar
  unfolding is_datetime emit_of_canonical
  emit_of_datetime d none h = cc
  emit_of_datetime d (some t) h =
      ground (arith, d.datetime_not_decimal, d.datetime_not_integer, d.datetime_not_boolean)

  -- With type codes that are distinct, a cell typed for the kind of its type code fits the column
  -- that this kind declares: it is NULL, or of the column's physical type.
  pub cell_for-Conforms :
      IsDistinct T
      → (raw : Option String) (ags_type unit : String)
      → Conforms (col_type (emit_of T ags_type)) (cell_for T raw ags_type unit (emit_of T ags_type))
  unfolding cell_for emit_of
  cell_for-Conforms d raw ags_type unit =
      elim (Bool-cases (is_datetime T (T.canonical_type ags_type))) [
        | inl temporal ↦
            rw (temporal, emit_of_datetime d (T.canonical_type ags_type) temporal)
              (unfold col_type in datetime_cell-Conforms raw unit)
        | inr other ↦
            rw other (json_cell-Conforms (T.parse_value raw ags_type) (emit_of T ags_type) _)
      ]

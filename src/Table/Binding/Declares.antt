-- ===== src/Table/Binding/Declares.antt =====
-- src/ffi_table.rs: the C calls of `bind` leave what its model says.
use laterite_duckdb.Base.{
  ◌+◌, ◌-◌, ◌≡◌, refl, sym, ap, ◌∙◌, arith, String, false, List, [], ◌∷◌, ◌++◌, ◌==◌, nat_eq,
  Result, ok, err, panic, Bool-cases, inl, inr,
}
use laterite_duckdb.Base.Text.{has_nul}
use laterite_duckdb.Table
use laterite_duckdb.Table.{logical_type, LogicalType, Columns, Rows, declare}
use laterite_duckdb.Table.Binding.{Log, column_calls, add_columns, bind, Held, held, outcome}
use mathlib.Core.List.{append_assoc, append-nil}

module _ {F : Type 0} where
  abbrev and_columns : List (String × LogicalType) → Held F → Held F
  and_columns more h = record h { columns = h.columns ++ more }

  held-column_calls :
      (name : String) (lt : LogicalType) (log : Log F)
      → held (column_calls name lt log) ≡ and_columns ((name, lt) ∷ []) (held log)
  held-column_calls name lt log =
      let e : (held log).types + 1 - 1 ≡ (held log).types = omega arith in
      let one : ((held log).types + 1 == 0) ≡ false = ground arith in rw (one, e) refl

  held-add_columns :
      (columns : Columns) (log : Log F)
      → held (add_columns columns log) ≡ and_columns (declare columns) (held log)
  unfolding add_columns declare
  held-add_columns [] log =
      ap (λ l. record (held log) { columns = l }) (sym (append-nil (held log).columns))
  held-add_columns ((name, col) ∷ columns) log = elim (Bool-cases (has_nul name)) [
    | inl nul ↦ rw nul (held-add_columns columns log)
    | inr plain ↦
        let first = held-column_calls name (logical_type col) log in
        rw plain (
          held-add_columns columns (column_calls name (logical_type col) log)
          ∙ ap (and_columns (declare columns)) first
          ∙ ap (λ l. record (held log) { columns = l })
              (append_assoc (held log).columns ((name, logical_type col) ∷ []) (declare columns)))
  ]

  -- Whatever the producer returned: the C calls of `bind` leave DuckDB with exactly the columns,
  -- cardinality and rows that the model declares, or with the error message alone, or, after a
  -- panic, with nothing; no logical type is left open, and none is destroyed that is not.
  pub bind-held : (r : Result (Columns × Rows F)) → held (bind r []).1 ≡ outcome (Table.bind r)
  unfolding bind Table.bind
  bind-held (ok (columns, rows)) = rw (held-add_columns columns []) refl
  bind-held (err msg) = elim (Bool-cases (has_nul msg)) [
    | inl nul ↦ rw nul refl
    | inr plain ↦ rw plain refl
  ]
  bind-held panic = refl

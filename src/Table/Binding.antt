-- ===== src/Table/Binding.antt =====
-- src/ffi_table.rs, `bind`, as a sequence of C calls, the last one first; and what DuckDB holds for
-- the bound call afterwards. Table has the same code on what it declares.
pub mod Declares
use laterite_duckdb.Base.{
  ℕ, ◌+◌, ◌-◌, String, Option, none, some, List, [], ◌∷◌, ◌++◌, map, length, ◌==◌, nat_eq,
  if◌then◌else◌, Result, ok, err, panic,
}
use laterite_duckdb.Base.Io.{Io}
use laterite_duckdb.Base.Text.{has_nul}
use laterite_duckdb.Table.{LogicalType, logical_type, Columns, Rows, BindData, Bound}

pub data Call (F : Type 0) : Type 0 where
  create_logical_type : LogicalType → Call F
  add_result_column : String → LogicalType → Call F
  destroy_logical_type : Call F
  set_cardinality : ℕ → Call F
  set_bind_data : BindData F → Call F
  set_error : String → Call F

abbrev pub Log : Type 0 → Type 0
Log F = List (Call F)

module _ {F : Type 0} where
  abbrev pub column_calls : String → LogicalType → Log F → Log F
  column_calls name lt log =
      destroy_logical_type ∷ (add_result_column name lt ∷ (create_logical_type lt ∷ log))

  -- A round of the loop over the columns.
  unfoldable add_column : String → LogicalType → Log F → Log F
  unfolding has_nul
  add_column name lt log = if has_nul name then log else column_calls name lt log

  unfoldable pub add_columns : Columns → Log F → Log F
  unfolding add_column logical_type
  add_columns [] log = log
  add_columns ((name, col) ∷ columns) log =
      add_columns columns (add_column name (logical_type col) log)

  -- `bind`, given what the producer returned. A panic of the producer unwinds through it.
  unfoldable pub bind : Result (Columns × Rows F) → Io (Log F) (Unit {0})
  unfolding add_columns has_nul
  bind (ok (columns, rows)) log = (
    ok tt,
    set_bind_data (record { col_types = map (λ c. c.1) columns; rows = rows })
        ∷ (set_cardinality (length rows) ∷ add_columns columns log),
  )
  bind (err msg) log = (ok tt, set_error (if has_nul msg then "bind error" else msg) ∷ log)
  bind panic log = (panic, log)

-- What DuckDB holds for the call: the columns in order, the type handles that are open, and what
-- was set last.
pub record Held (F : Type 0) : Type 0 where
  pub columns : List (String × LogicalType)
  pub types : ℕ
  -- the handles that were destroyed when none was open
  pub misuses : ℕ
  pub cardinality : Option ℕ
  pub bind_data : Option (BindData F)
  pub error : Option String

module _ {F : Type 0} where
  abbrev pub after : Call F → Held F → Held F
  after (create_logical_type lt) h = record h { types = h.types + 1 }
  after (add_result_column name lt) h = record h { columns = h.columns ++ (name, lt) ∷ [] }
  after destroy_logical_type h =
      if h.types == 0
      then record h { misuses = h.misuses + 1 }
      else record h { types = h.types - 1 }
  after (set_cardinality n) h = record h { cardinality = some n }
  after (set_bind_data d) h = record h { bind_data = some d }
  after (set_error message) h = record h { error = some message }

  abbrev pub nothing_held : Held F
  nothing_held = record {
    columns = [];
    types = 0;
    misuses = 0;
    cardinality = none;
    bind_data = none;
    error = none;
  }

  abbrev pub held : Log F → Held F
  held [] = nothing_held
  held (c ∷ log) = after c (held log)

  -- What the model of `bind` in Table says that DuckDB holds.
  abbrev pub outcome : Result (Bound F) → Held F
  outcome (ok bound) = record nothing_held {
    columns = bound.declared;
    cardinality = some bound.cardinality;
    bind_data = some bound.bind_data;
  }
  outcome (err message) = record nothing_held { error = some message }
  outcome panic = nothing_held

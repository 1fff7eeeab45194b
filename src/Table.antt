-- ===== src/Table.antt =====
-- src/ffi_table.rs: output cells and column types, and the scan that streams the rows computed at
-- bind, a vector at a time. `F` is the type of a `f64`.
pub mod Scan
pub mod Declared
pub mod Shape
pub mod Vectors
pub mod Binding
pub mod Values
use laterite_duckdb.Base.{
  ℕ, zero, suc, ◌+◌, ◌-◌, min, ◌≡◌, String, Bool, true, false, Option, none, some, List, [], ◌∷◌,
  map, length, get_elem?, ◌<>◌, ◌==◌, nat_eq, if◌then◌else◌, Result, ok, err, panic, ◌>>=◌,
}
use laterite_duckdb.Base.Int.{ℤ}
use laterite_duckdb.Base.Text.{has_nul, is_empty, trim, show}

pub data Cell (F : Type 0) : Type 0 where
  null : Cell F
  str : String → Cell F
  int : ℤ → Cell F
  double : F → Cell F
  bool : Bool → Cell F

-- `map_or(Cell::Null, Cell::Str)`
abbrev pub text_cell : {F : Type 0} → Option String → Cell F
text_cell none = null
text_cell (some s) = str s

-- The text, or NULL when there is none in it.
abbrev pub unless_empty : {F : Type 0} → String → Cell F
unless_empty s = if is_empty s then null else str s

pub data ColType : Type 0 where
  varchar big_int double boolean : ColType

-- The DuckDB type ids that `logical_type` picks from.
pub data LogicalType : Type 0 where
  type_varchar type_bigint type_double type_boolean : LogicalType

unfoldable pub logical_type : ColType → LogicalType
logical_type varchar = type_varchar
logical_type big_int = type_bigint
logical_type ColType.double = type_double
logical_type boolean = type_boolean

abbrev pub Columns : Type 0
Columns = List (String × ColType)

abbrev pub Rows : Type 0 → Type 0
Rows F = List (List (Cell F))

-- The cell's store is one that the column's physical type has.
abbrev pub Conforms : {F : Type 0} → ColType → Cell F → Type 0
Conforms t null = Unit
Conforms varchar (str s) = Unit
Conforms big_int (int n) = Unit
Conforms ColType.double (Cell.double x) = Unit
Conforms boolean (bool b) = Unit
Conforms _ _ = ⊥

pub text_cell-Conforms : (F : Type 0) (o : Option String) → Conforms {F = F} varchar (text_cell o)
text_cell-Conforms F none = tt
text_cell-Conforms F (some s) = tt

pub unless_empty-Conforms : (F : Type 0) (s : String) → Conforms {F = F} varchar (unless_empty s)
unless_empty-Conforms F s =
    elim (is_empty s) as (λ b. Conforms {F = F} varchar (if b then null else str s)) [
      | true ↦ tt
      | false ↦ tt
    ]

-- A row has a cell of the right type for each column, and no more.
abbrev pub RowFits : {F : Type 0} → List ColType → List (Cell F) → Type 0
RowFits [] [] = Unit
RowFits [] (c ∷ cs) = ⊥
RowFits (t ∷ ts) [] = ⊥
RowFits (t ∷ ts) (c ∷ cs) = Conforms t c × RowFits ts cs

-- `param_str` and `named_str`, given the text of the value: the outer option is the null value of
-- DuckDB, the inner one a value that is no text.
unfoldable pub param_str : ℕ → Option (Option String) → Result String
unfolding show
param_str index none = err ("missing positional parameter " <> show index)
param_str index (some none) = err ("positional parameter " <> (show index <> " is not a string"))
param_str index (some (some s)) = ok s

unfoldable pub named_str : Option (Option String) → Option String
unfolding trim
named_str (some (some s)) = if is_empty (trim s) then none else some s
named_str _ = none

pub record BindData (F : Type 0) : Type 0 where
  pub col_types : List ColType
  pub rows : Rows F

-- What `bind` declares to DuckDB, and the data that it leaves for the scan.
pub record Bound (F : Type 0) : Type 0 where
  pub declared : List (String × LogicalType)
  pub cardinality : ℕ
  pub bind_data : BindData F

-- A column name with a NUL is not declared.
unfoldable pub declare : Columns → List (String × LogicalType)
unfolding has_nul logical_type
declare [] = []
declare ((name, col) ∷ columns) =
    let rest = declare columns in if has_nul name then rest else (name, logical_type col) ∷ rest

-- `bind`, given what the producer returned; an error goes to `duckdb_bind_set_error`.
unfoldable pub bind : {F : Type 0} → Result (Columns × Rows F) → Result (Bound F)
unfolding declare has_nul
bind (ok (columns, rows)) = ok (record {
  declared = declare columns;
  cardinality = length rows;
  bind_data = record { col_types = map (λ c. c.1) columns; rows = rows };
})
bind (err message) = if has_nul message then err "bind error" else err message
bind panic = panic

-- Indexing of a vector.
abbrev pub index {ℓ} : {A : Type ℓ} → List A → ℕ → Result A
index [] i = panic
index (x ∷ xs) zero = ok x
index (x ∷ xs) (suc i) = index xs i

module _ {F : Type 0} where
  -- `write_cell`: what the vector holds afterwards; a text with a NUL is written as NULL.
  unfoldable pub write_cell : Cell F → Cell F
  unfolding has_nul
  write_cell (str s) = if has_nul s then null else str s
  write_cell c = c

  -- The inner loop of `func`: `n` cells of column `col`, from row `start` on.
  unfoldable pub write_column : Rows F → ℕ → ℕ → ℕ → Result (List (Cell F))
  unfolding write_cell
  write_column rows col start zero = ok []
  write_column rows col start (suc n) = do
    row ← index rows start
    cell ← index row col
    rest ← write_column rows col (start + 1) n
    ok (write_cell cell ∷ rest)

  -- The outer loop: the columns from `col` on, `left` of them.
  unfoldable pub write_columns : Rows F → ℕ → ℕ → ℕ → ℕ → Result (List (List (Cell F)))
  unfolding write_column
  write_columns rows start n col zero = ok []
  write_columns rows start n col (suc left) = do
    column ← write_column rows col start n
    rest ← write_columns rows start n (col + 1) left
    ok (column ∷ rest)

-- What one call of `func` hands to DuckDB, and the cursor that it leaves.
pub record Chunk (F : Type 0) : Type 0 where
  pub size : ℕ
  pub columns : List (List (Cell F))
  pub cursor : ℕ

-- `init`: the cursor that a scan starts with.
abbrev pub init : ℕ
init = 0

module _ {F : Type 0} (vector_size : ℕ) (bound : BindData F) where
  unfoldable pub func : ℕ → Result (Chunk F)
  unfolding write_columns
  func start =
      let n = min (length bound.rows - start) vector_size in
      if n == 0 then ok (record { size = 0; columns = []; cursor = start }) else do
        columns ← write_columns bound.rows start n 0 (length bound.col_types)
        ok (record { size = n; columns = columns; cursor = start + n })

  -- DuckDB's side: it calls `func` until a chunk is empty.
  unfoldable pub scan : ℕ → ℕ → Result (List (Chunk F))
  unfolding func
  scan zero start = ok []
  scan (suc calls) start = func start >>= λ chunk.
      let rest = scan calls chunk.cursor in
      if chunk.size == 0 then ok (chunk ∷ []) else (rest >>= λ chunks. ok (chunk ∷ chunks))

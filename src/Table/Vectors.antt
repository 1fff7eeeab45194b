-- ===== src/Table/Vectors.antt =====
-- src/ffi_table.rs, `func`, `write_cell` and `set_null`, on the memory of DuckDB's vectors: the data
-- at each row, and the validity mask. Table has the same code on the cells that it delivers.
pub mod Written
pub mod Delivered
pub mod Scanned
pub mod Read
use laterite_duckdb.Base.{
  ℕ, zero, suc, ◌+◌, ◌-◌, min, ◌≡◌, String, Bool, true, false, Option, none, some, List, [], ◌∷◌,
  length, ◌==◌, nat_eq, if◌then◌else◌, Result, ok, err, panic, ◌>>=◌,
}
use laterite_duckdb.Base.Int.{ℤ}
use laterite_duckdb.Base.Text.{has_nul}
use laterite_duckdb.Table.{
  Cell, null, str, int, double, bool, ColType, varchar, big_int, boolean, Rows, BindData, index,
}

-- What lies at one row: a string element, or one of the physical types.
pub data Stored (F : Type 0) : Type 0 where
  string_element : String → Stored F
  as_i64 : ℤ → Stored F
  as_f64 : F → Stored F
  as_bool : Bool → Stored F

pub record Vector (F : Type 0) : Type 0 where
  pub at : ℕ → Stored F
  -- no mask: every row is valid
  pub validity : Option (ℕ → Bool)

-- `duckdb_data_chunk`
pub record DataChunk (F : Type 0) : Type 0 where
  pub vectors : List (Vector F)
  pub size : ℕ

-- The bit of a row in the mask.
abbrev pub is_valid : Option (ℕ → Bool) → ℕ → Bool
is_valid none row = true
is_valid (some mask) row = mask row

module _ {F : Type 0} where
  -- `duckdb_vector_ensure_validity_writable` and `duckdb_validity_set_row_invalid`
  unfoldable pub set_null : ℕ → Vector F → Vector F
  set_null row v = record v {
    validity = some (λ i. if i == row then false else is_valid v.validity i);
  }

  -- `duckdb_vector_assign_string_element`, or a store through the pointer to the data
  abbrev pub put : ℕ → Stored F → Vector F → Vector F
  put row x v = record v { at = λ i. if i == row then x else v.at i }

  unfoldable pub write_cell : Vector F → ℕ → Cell F → Vector F
  unfolding set_null has_nul
  write_cell v row null = set_null row v
  write_cell v row (str s) = if has_nul s then set_null row v else put row (string_element s) v
  write_cell v row (int n) = put row (as_i64 n) v
  write_cell v row (Cell.double x) = put row (as_f64 x) v
  write_cell v row (bool b) = put row (as_bool b) v

  -- The inner loop, from `i` on; `left` rounds are left.
  unfoldable pub write_rows : Rows F → ℕ → ℕ → ℕ → ℕ → Vector F → Result (Vector F)
  unfolding write_cell
  write_rows rows col start i zero v = ok v
  write_rows rows col start i (suc left) v = do
    row ← index rows (start + i)
    cell ← index row col
    write_rows rows col start (i + 1) left (write_cell v i cell)

  -- The outer loop, from `col` on, with the vectors of those columns; there is one for each declared
  -- column.
  unfoldable pub write_vectors : Rows F → ℕ → ℕ → ℕ → ℕ → List (Vector F) → Result (List (Vector F))
  unfolding write_rows
  write_vectors rows start n col zero vectors = ok vectors
  write_vectors rows start n col (suc left) [] = panic
  write_vectors rows start n col (suc left) (v ∷ vectors) = do
    written ← write_rows rows col start 0 n v
    others ← write_vectors rows start n (col + 1) left vectors
    ok (written ∷ others)

  -- The chunk and the cursor afterwards.
  unfoldable pub func : ℕ → BindData F → ℕ → DataChunk F → Result (DataChunk F × ℕ)
  unfolding write_vectors
  func vector_size bind_data start output =
      let n = min (length bind_data.rows - start) vector_size in
      if n == 0 then ok (record output { size = 0 }, start) else do
        vectors ← write_vectors bind_data.rows start n 0 (length bind_data.col_types) output.vectors
        ok (record { vectors = vectors; size = n }, start + n)

  -- DuckDB's side: it calls `func` on one chunk after another until one comes back empty.
  unfoldable pub scan : ℕ → BindData F → List (DataChunk F) → ℕ → Result (List (DataChunk F))
  unfolding func
  scan vector_size bind_data [] start = ok []
  scan vector_size bind_data (output ∷ outputs) start = do
    (filled, cursor) ← func vector_size bind_data start output
    let rest = scan vector_size bind_data outputs cursor
    (if filled.size == 0 then ok (filled ∷ []) else (rest >>= λ others. ok (filled ∷ others)))

  -- How DuckDB reads a row of a column's type; no cell for a store of another type.
  abbrev pub typed : ColType → Stored F → Option (Cell F)
  typed varchar (string_element s) = some (str s)
  typed big_int (as_i64 n) = some (int n)
  typed ColType.double (as_f64 x) = some (Cell.double x)
  typed boolean (as_bool b) = some (bool b)
  typed _ _ = none

  abbrev pub read : ColType → Vector F → ℕ → Option (Cell F)
  read t v row = if is_valid v.validity row then typed t (v.at row) else some null

  -- The rows from `i` on.
  abbrev pub reads : ColType → Vector F → ℕ → ℕ → List (Option (Cell F))
  reads t v i zero = []
  reads t v i (suc n) = read t v i ∷ reads t v (i + 1) n

  -- The first `n` rows of each column, by the columns' types.
  abbrev pub read_columns : List ColType → List (Vector F) → ℕ → List (List (Option (Cell F)))
  read_columns [] vectors n = []
  read_columns (t ∷ ts) [] n = []
  read_columns (t ∷ ts) (v ∷ vectors) n = reads t v 0 n ∷ read_columns ts vectors n

-- A vector of a chunk that was reset: every row is valid.
abbrev pub IsFresh : {F : Type 0} → Vector F → Type 0
IsFresh v = (row : ℕ) → is_valid v.validity row ≡ true

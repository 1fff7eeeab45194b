-- ===== src/Functions/Read.antt =====
-- src/lib.rs and src/ffi_table.rs: what DuckDB reads from the vectors of a query's scan.
use laterite_duckdb.Base.{
  ℕ, ◌<◌, ◌≡◌, refl, ap, suc, [], ◌∷◌, sym, subst, arith, some, List, map, length, All, ok,
}
use laterite_duckdb.Engine.{MintsIds}
use laterite_duckdb.Functions.{Query, Outside, Process, produce}
use laterite_duckdb.Functions.Typed.{produce-IsTyped}
use laterite_duckdb.Table.{Columns, Rows, BindData}
use laterite_duckdb.Table.Scan.{cell_at}
use laterite_duckdb.Table.Vectors.{DataChunk, scan}
use laterite_duckdb.Table.Vectors.Read.{read_stream, scan-read_stream}
use laterite_duckdb.Table.Vectors.Scanned.{IsReset}
use laterite_duckdb.Typing.{IsDistinct}

pub length-map_types : (columns : Columns) → length (map (λ c. c.1) columns) ≡ length columns
length-map_types [] = refl
length-map_types (c ∷ cs) = ap suc (length-map_types cs)

module _ (O : Outside) where
  open O use {C, E, H, T, R, D, J, word}

  -- What `bind` keeps of a table for the scan.
  abbrev pub kept : Columns → Rows T.F64 → BindData T.F64
  kept columns rows = record { col_types = map (λ c. c.1) columns; rows = rows }

  -- With a keychain that mints one id a row, or none for a keyless declaration, and type codes
  -- that are distinct: when the producer of a query succeeds, with vectors of at least one row,
  -- and more chunks than rows, each with a vector for each column in which every row is valid,
  -- whatever lies in its data: the scan on these vectors never panics, and each column, read
  -- through the validity masks by the column's type, is over all chunks together the producer's
  -- cells, each once and in order, where a text with a NUL is a NULL.
  pub produce-read :
      IsDistinct T
      → MintsIds E
      → (vector_size : ℕ) (query : Query) (s : Process O) (columns : Columns) (rows : Rows T.F64)
        (outputs : List (DataChunk T.F64))
      → (produce O query s).0 ≡ ok (columns, rows)
      → 0 < vector_size
      → All (IsReset vector_size (kept columns rows)) outputs
      → length rows < length outputs
      → (filled : List (DataChunk T.F64)) × (scan vector_size (kept columns rows) outputs 0
          ≡ ok filled)
        × ((c : ℕ)
            → c < length columns
            → read_stream vector_size (kept columns rows) c filled
              ≡ map some (map (cell_at c) rows))
  produce-read distinct mints vector_size query s columns rows outputs made room resets enough =
      let typed = (produce-IsTyped O distinct mints query s (columns, rows) made).fits in
      let (filled, done, all) =
        scan-read_stream vector_size (kept columns rows) outputs 0 room typed resets (omega arith)
          (omega arith) in
      (filled, done, λ c inside. all c (subst (λ n. c < n) (sym (length-map_types columns)) inside))

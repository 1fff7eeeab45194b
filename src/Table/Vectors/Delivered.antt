-- ===== src/Table/Vectors/Delivered.antt =====
-- src/ffi_table.rs: what DuckDB reads from the vectors of a chunk is what the scan delivers.
use laterite_duckdb.Base.{
  ℕ, ◌+◌, ◌-◌, ◌<◌, ◌≡◌, refl, arith, min, true, false, some, List, [], map, length, All, ◌==◌,
  nat_eq, Result, ok, Bool-cases, inl, inr,
}
use laterite_duckdb.Table
use laterite_duckdb.Table.{
  Cell, null, str, int, double, bool, ColType, varchar, big_int, boolean, Rows, BindData, index,
  Conforms, RowFits, write_column, write_columns, Chunk,
}
use laterite_duckdb.Table.Shape.{RowFits-IsRectangular}
use laterite_duckdb.Table.Scan.{write_columns-eq}
use laterite_duckdb.Table.Vectors.{Vector, DataChunk, write_vectors, func, read_columns, IsFresh}
use laterite_duckdb.Table.Vectors.Written.{write_vectors-read}

module _ {F : Type 0} where
  -- A call of `func` on a chunk's vectors, beside the chunk that the model of the cells delivers:
  -- its size, the cursor, and each column's rows as DuckDB reads them.
  pub record IsShown (b : BindData F) (m : Result (Chunk F)) (r : Result (DataChunk F × ℕ))
      : Type 0 where
    pub chunk : Chunk F
    pub delivered : m ≡ ok chunk
    pub output : DataChunk F
    pub run : r ≡ ok (output, chunk.cursor)
    pub size : output.size ≡ chunk.size
    pub content :
        0 < chunk.size
        → read_columns b.col_types output.vectors chunk.size ≡ map (map some) chunk.columns
    pub no_rows : chunk.size ≡ 0 → chunk.columns ≡ []

  func_done :
      (vector_size start : ℕ) (b : BindData F) (output : DataChunk F)
      → (min (length b.rows - start) vector_size == 0) ≡ true
      → (Table.func vector_size b start ≡ ok (record { size = 0; columns = []; cursor = start }))
        × (func vector_size b start output ≡ ok (record output { size = 0 }, start))
  unfolding Table.func func
  func_done vector_size start b output done = (rw done refl, rw done refl)

  func_more :
      (vector_size start : ℕ) (b : BindData F) (output : DataChunk F)
      (columns : List (List (Cell F))) (ws : List (Vector F))
      → let n = min (length b.rows - start) vector_size in
        (n == 0) ≡ false
        → write_columns b.rows start n 0 (length b.col_types) ≡ ok columns
        → write_vectors b.rows start n 0 (length b.col_types) output.vectors ≡ ok ws
        → (Table.func vector_size b start
            ≡ ok (record { size = n; columns = columns; cursor = start + n }))
          × (func vector_size b start output ≡ ok (record { vectors = ws; size = n }, start + n))
  unfolding Table.func func
  func_more vector_size start b output columns ws more h k = (rw (more, h) refl, rw (more, k) refl)

  -- With rows that fit their column types, and a chunk that has a vector for each column in which
  -- every row is valid, whatever lies in its data: a call of `func` succeeds, has the size and
  -- leaves the cursor of the chunk that the model of the cells delivers, and each column's rows,
  -- read through the validity mask by the column's type, are that chunk's cells.
  pub func-IsShown :
      (vector_size start : ℕ) (b : BindData F) (output : DataChunk F)
      → All (RowFits b.col_types) b.rows
      → length output.vectors ≡ length b.col_types
      → All IsFresh output.vectors
      → IsShown b (Table.func vector_size b start) (func vector_size b start output)
  func-IsShown vector_size start b output fits long fresh =
      let n = min (length b.rows - start) vector_size in
      let width = length b.col_types in
      elim (Bool-cases (n == 0)) [
        | inl done ↦
            let (cells, vectors) = func_done vector_size start b output done in
            record {
              chunk = record { size = 0; columns = []; cursor = start };
              delivered = cells;
              output = record output { size = 0 };
              run = vectors;
              size = refl;
              content = λ h. absurd (omega (arith, h));
              no_rows = λ h. refl;
            }
        | inr more ↦
            let shape = RowFits-IsRectangular b.col_types b.rows fits in
            let written =
              write_columns-eq b.rows width shape start n 0 width (omega arith) (ground arith) in
            let (ws, run, same) =
              write_vectors-read b.col_types b.rows fits b.col_types start n 0 output.vectors _
                (λ k t e. let z : 0 + k ≡ k = omega arith in rw z e) long fresh written in
            let (cells, vectors) = func_more vector_size start b output _ ws more written run in
            record {
              chunk = record { size = n; columns = _; cursor = start + n };
              delivered = cells;
              output = record { vectors = ws; size = n };
              run = vectors;
              size = refl;
              content = λ _. same;
              no_rows = λ h. absurd (ground arith);
            }
      ]

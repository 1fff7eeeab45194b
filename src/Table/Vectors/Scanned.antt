-- ===== src/Table/Vectors/Scanned.antt =====
-- src/ffi_table.rs: a whole scan on the vectors of DuckDB's chunks.
use laterite_duckdb.Base.{
  ℕ, suc, ◌<◌, ◌≡◌, refl, some, List, [], ◌∷◌, map, length, All, ◌==◌, nat_eq, Result, ok,
  Bool-cases, inl, inr,
}
use laterite_duckdb.Table
use laterite_duckdb.Table.{Cell, BindData, Chunk, RowFits}
use laterite_duckdb.Table.Vectors.{DataChunk, func, scan, read_columns, IsFresh}
use laterite_duckdb.Table.Vectors.Delivered.{IsShown, func-IsShown}

module _ {F : Type 0} (vector_size : ℕ) (b : BindData F) where
  -- A chunk of cells, and the chunk whose vectors show it.
  pub record Shows (chunk : Chunk F) (output : DataChunk F) : Type 0 where
    pub size : output.size ≡ chunk.size
    pub content :
        0 < chunk.size
        → read_columns b.col_types output.vectors chunk.size ≡ map (map some) chunk.columns
    pub no_rows : chunk.size ≡ 0 → chunk.columns ≡ []

  abbrev pub AllShow : List (Chunk F) → List (DataChunk F) → Type 0
  AllShow [] [] = Unit
  AllShow (chunk ∷ chunks) (output ∷ outputs) = Shows chunk output × AllShow chunks outputs
  AllShow _ _ = ⊥

  -- A chunk that was reset, with a vector for each column.
  abbrev pub IsReset : DataChunk F → Type 0
  IsReset output = (length output.vectors ≡ length b.col_types) × All IsFresh output.vectors

  pub record IsShownAll (m : Result (List (Chunk F))) (r : Result (List (DataChunk F)))
      : Type 0 where
    pub chunks : List (Chunk F)
    pub delivered : m ≡ ok chunks
    pub filled : List (DataChunk F)
    pub run : r ≡ ok filled
    pub shows : AllShow chunks filled

  scan_step :
      (start : ℕ) (output : DataChunk F) (outputs : List (DataChunk F))
      (s : IsShown b (Table.func vector_size b start) (func vector_size b start output))
      → IsShownAll
          (Table.scan vector_size b (length outputs) s.chunk.cursor)
          (scan vector_size b outputs s.chunk.cursor)
      → IsShownAll
          (Table.scan vector_size b (suc (length outputs)) start)
          (scan vector_size b (output ∷ outputs) start)
  unfolding Table.scan scan
  scan_step start output outputs s rest =
      let shown : Shows s.chunk s.output = record {
        size = s.size;
        content = s.content;
        no_rows = s.no_rows;
      } in
      elim (Bool-cases (s.chunk.size == 0)) [
        | inl done ↦ record {
          chunks = s.chunk ∷ [];
          delivered = rw (s.delivered, done) refl;
          filled = s.output ∷ [];
          run = rw (s.run, s.size, done) refl;
          shows = (shown, tt);
        }
        | inr more ↦ record {
          chunks = s.chunk ∷ rest.chunks;
          delivered = rw (s.delivered, more, rest.delivered) refl;
          filled = s.output ∷ rest.filled;
          run = rw (s.run, s.size, more, rest.run) refl;
          shows = (shown, rest.shows);
        }
      ]

  -- With rows that fit their column types, and one chunk after another that has a vector for each
  -- column in which every row is valid, whatever lies in its data: a scan from any row succeeds as
  -- the model on the cells does, and its chunks have, one by one, the size of that model's chunks,
  -- and each column's rows, read through the validity mask by the column's type, are their cells.
  pub scan-IsShownAll :
      (outputs : List (DataChunk F)) (start : ℕ)
      → All (RowFits b.col_types) b.rows
      → All IsReset outputs
      → IsShownAll
          (Table.scan vector_size b (length outputs) start)
          (scan vector_size b outputs start)
  scan-IsShownAll [] start fits resets = record {
    chunks = [];
    delivered = unfold Table.scan in refl;
    filled = [];
    run = unfold scan in refl;
    shows = tt;
  }
  scan-IsShownAll (output ∷ outputs) start fits (reset, resets) =
      let s = func-IsShown vector_size start b output fits reset.0 reset.1 in
      scan_step start output outputs s (scan-IsShownAll outputs s.chunk.cursor fits resets)

-- ===== src/Table/Vectors/Read.antt =====
-- src/ffi_table.rs: the rows that DuckDB reads over a whole scan.
use laterite_duckdb.Base.{
  ℕ, zero, suc, ◌-◌, ◌≤◌, ◌<◌, ◌≡◌, refl, ap, ap₂, sym, ◌∙◌, arith, Option, some, List, [], ◌∷◌,
  ◌++◌, map, length, drop, get_or, All, ◌==◌, nat_eq, ok, ok-inj, Bool-cases, inl, inr,
}
use laterite_duckdb.Table.{Cell, ColType, BindData, Chunk, RowFits}
use laterite_duckdb.Table.Scan.{cell_at, stream, scan-stream}
use laterite_duckdb.Table.Shape.{RowFits-IsRectangular}
use laterite_duckdb.Table.Vectors.{Vector, DataChunk, scan, read_columns}
use laterite_duckdb.Table.Vectors.Scanned.{Shows, AllShow, IsReset, scan-IsShownAll}
use mathlib.Core.List.{map-append}

module _ {F : Type 0} where
  get_or-map :
      (columns : List (List (Cell F))) (c : ℕ)
      → get_or (map (map some) columns) c [] ≡ map some (get_or columns c [])
  get_or-map [] c = refl
  get_or-map (x ∷ xs) zero = refl
  get_or-map (x ∷ xs) (suc c) = get_or-map xs c

  read_columns_zero :
      (ts : List ColType) (vectors : List (Vector F)) (c : ℕ)
      → get_or (read_columns ts vectors 0) c [] ≡ []
  read_columns_zero [] vectors c = refl
  read_columns_zero (t ∷ ts) [] c = refl
  read_columns_zero (t ∷ ts) (v ∷ vectors) zero = refl
  read_columns_zero (t ∷ ts) (v ∷ vectors) (suc c) = read_columns_zero ts vectors c

  module _ (vector_size : ℕ) (b : BindData F) where
    -- What DuckDB reads of column `c` over several chunks.
    abbrev pub read_stream : ℕ → List (DataChunk F) → List (Option (Cell F))
    read_stream c [] = []
    read_stream c (output ∷ outputs) =
        get_or (read_columns b.col_types output.vectors output.size) c [] ++ read_stream c outputs

    shown_column :
        (chunk : Chunk F) (output : DataChunk F) (c : ℕ)
        → Shows vector_size b chunk output
        → get_or (read_columns b.col_types output.vectors output.size) c []
          ≡ map some (get_or chunk.columns c [])
    shown_column chunk output c s = elim (Bool-cases (chunk.size == 0)) [
      | inl none_left ↦
          let empty : chunk.size ≡ 0 = ground arith in
          rw (s.size, empty, s.no_rows empty) (read_columns_zero b.col_types output.vectors c)
      | inr some_left ↦
          let more : 0 < chunk.size = ground arith in
          rw (s.size, s.content more) (get_or-map chunk.columns c)
    ]

    read_stream-stream :
        (chunks : List (Chunk F)) (filled : List (DataChunk F)) (c : ℕ)
        → AllShow vector_size b chunks filled
        → read_stream c filled ≡ map some (stream c chunks)
    read_stream-stream [] [] c h = refl
    read_stream-stream [] (o ∷ os) c h = absurd h
    read_stream-stream (x ∷ xs) [] c h = absurd h
    read_stream-stream (chunk ∷ chunks) (output ∷ filled) c (s, h) =
        ap₂ ◌++◌ (shown_column chunk output c s) (read_stream-stream chunks filled c h)
        ∙ sym (map-append some (get_or chunk.columns c []) (stream c chunks))

    pub scan-read_stream :
        (outputs : List (DataChunk F)) (start : ℕ)
        → 0 < vector_size
        → All (RowFits b.col_types) b.rows
        → All (IsReset vector_size b) outputs
        → start ≤ length b.rows
        → length b.rows - start < length outputs
        → (filled : List (DataChunk F)) × (scan vector_size b outputs start ≡ ok filled)
          × ((c : ℕ)
              → c < length b.col_types
              → read_stream c filled ≡ map some (map (cell_at c) (drop start b.rows)))
    scan-read_stream outputs start room fits resets inside enough =
        let shape = RowFits-IsRectangular b.col_types b.rows fits in
        let (chunks, done, small, all) =
          scan-stream vector_size room b shape (length outputs) start inside enough in
        let s = scan-IsShownAll vector_size b outputs start fits resets in
        let same : s.chunks ≡ chunks = ok-inj (sym s.delivered ∙ done) in
        (
          s.filled,
          s.run,
          λ c h.
              read_stream-stream s.chunks s.filled c s.shows
              ∙ ap (λ l. map some (stream c l)) same
              ∙ ap (map some) (all c h),
        )

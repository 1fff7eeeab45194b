-- ===== src/Functions/Delivers.antt =====
-- src/lib.rs and src/ffi_table.rs: a query whose producer succeeds, bound and scanned.
use laterite_duckdb.Base.{
  ℕ, zero, suc, ◌+◌, ◌<◌, ◌≡◌, refl, ap, sym, ◌∙◌, arith, String, some, List, [], ◌∷◌, map, length,
  All, ok,
}
use laterite_duckdb.Engine.{MintsIds}
use laterite_duckdb.Functions.{Query, Outside, Process, Made, produce, run, vectors_at, chunks_for}
use laterite_duckdb.Functions.Read.{kept, produce-read, length-map_types}
use laterite_duckdb.Table.{Columns, Rows, LogicalType, BindData, Bound, bind, declare}
use laterite_duckdb.Table.Declared.{physical, IsClean, declare-names, declare-types, length-declare}
use laterite_duckdb.Table.Scan.{cell_at}
use laterite_duckdb.Table.Vectors.{Vector, DataChunk, IsFresh}
use laterite_duckdb.Table.Vectors.Read.{read_stream}
use laterite_duckdb.Table.Vectors.Scanned.{IsReset}
use laterite_duckdb.Typing.{IsDistinct}

module _ (O : Outside) where
  open O use {C, E, H, T, R, D, J, word}

  length-vectors_at :
      (memory : ℕ → Vector T.F64) (c : ℕ) (declared : List (String × LogicalType))
      → length (vectors_at O memory c declared) ≡ length declared
  length-vectors_at memory c [] = refl
  length-vectors_at memory c (d ∷ declared) = ap suc (length-vectors_at memory (c + 1) declared)

  vectors_at-IsFresh :
      (memory : ℕ → Vector T.F64)
      → ((c : ℕ) → IsFresh (memory c))
      → (c : ℕ) (declared : List (String × LogicalType))
      → All IsFresh (vectors_at O memory c declared)
  vectors_at-IsFresh memory fresh c [] = tt
  vectors_at-IsFresh memory fresh c (d ∷ declared) =
      (fresh c, vectors_at-IsFresh memory fresh (c + 1) declared)

  length-chunks_for :
      (memory : ℕ → ℕ → Vector T.F64) (i calls : ℕ) (declared : List (String × LogicalType))
      → length (chunks_for O memory i calls declared) ≡ calls
  length-chunks_for memory i zero declared = refl
  length-chunks_for memory i (suc calls) declared =
      ap suc (length-chunks_for memory (i + 1) calls declared)

  chunks_for-IsReset :
      (vector_size : ℕ) (b : BindData T.F64) (memory : ℕ → ℕ → Vector T.F64)
      → ((i c : ℕ) → IsFresh (memory i c))
      → (declared : List (String × LogicalType)) → length declared ≡ length b.col_types
      → (i calls : ℕ) → All (IsReset vector_size b) (chunks_for O memory i calls declared)
  chunks_for-IsReset vector_size b memory fresh declared same i zero = tt
  chunks_for-IsReset vector_size b memory fresh declared same i (suc calls) = (
    (
      length-vectors_at (memory i) 0 declared ∙ same,
      vectors_at-IsFresh (memory i) (fresh i) 0 declared,
    ),
    chunks_for-IsReset vector_size b memory fresh declared same (i + 1) calls,
  )

  -- The names that DuckDB knows the columns by, and the cells that it reads of each column, over
  -- all chunks together, by the type that it was declared with.
  abbrev pub Shows : ℕ → Made O → Bound T.F64 → List (DataChunk T.F64) → Type 0
  Shows vector_size table bound filled =
      (map (λ d. d.0) bound.declared ≡ map (λ c. c.0) table.0)
      × (bound.cardinality ≡ length table.1)
      × ((c : ℕ)
          → c < length table.0
          → read_stream vector_size
              (record {
                col_types = map (λ d. physical d.1) bound.declared;
                rows = bound.bind_data.rows;
              })
              c filled
            ≡ map some (map (cell_at c) table.1))

  module _ (distinct : IsDistinct T) (mints : MintsIds E) where
    -- With a keychain that mints one id a row, or none for a keyless declaration, and type codes
    -- that are distinct: when the producer of a query succeeds and no name of its columns has a
    -- NUL, with vectors of at least one row, in which every row is valid whatever lies in its
    -- data, and a call for each row and one more, binding and scanning it on a vector for each
    -- declared column never panics and leaves the process as the producer left it. DuckDB has the
    -- names of the columns and the number of rows, and reads in each column, by its declared type
    -- and through the validity masks, the producer's cells, each once and in order, where a text
    -- with a NUL is a NULL.
    pub run-Shows :
        (vector_size calls : ℕ) (memory : ℕ → ℕ → Vector T.F64) (query : Query) (s : Process O)
        (columns : Columns) (rows : Rows T.F64)
        → (produce O query s).0 ≡ ok (columns, rows)
        → IsClean columns
        → ((i c : ℕ) → IsFresh (memory i c))
        → 0 < vector_size
        → length rows < calls
        → (bound : Bound T.F64) × (filled : List (DataChunk T.F64)) × (run O vector_size memory
              calls query s
            ≡ (ok (bound, filled), (produce O query s).1))
          × Shows vector_size (columns, rows) bound filled
    unfolding run bind
    run-Shows vector_size calls memory query s columns rows made clean fresh room enough =
        let outputs = chunks_for O memory 0 calls (declare columns) in
        let vectors : length (declare columns) ≡ length (map (λ c. c.1) columns) =
          length-declare columns clean ∙ sym (length-map_types columns) in
        let resets =
          chunks_for-IsReset vector_size (kept O columns rows) memory fresh (declare columns)
            vectors 0 calls in
        let (filled, done, all) =
          produce-read O distinct mints vector_size query s columns rows outputs made room resets
            (omega (arith, length-chunks_for memory 0 calls (declare columns))) in
        (
          record {
            declared = declare columns;
            cardinality = length rows;
            bind_data = kept O columns rows;
          },
          filled,
          rw (made, done) refl,
          (declare-names columns clean, refl, rw (declare-types columns clean) all),
        )

-- ===== src/Table/Scan.antt =====
-- The scan of src/ffi_table.rs delivers the rows of the bind, each once and in order.
use laterite_duckdb.Base.{
  ℕ, zero, suc, ◌+◌, ◌-◌, ◌≤◌, ◌<◌, min, ◌≡◌, refl, arith, List, [], ◌∷◌, ◌++◌, map, length, take,
  drop, get_or, drop-get_or, All, All-get_or, take-append-drop, drop-drop, Bool-cases, inl, inr,
  ◌==◌, nat_eq, if◌then◌else◌, ok, ltb, pos→not_zero, drop_of_length-le, ◌>>=◌,
}
use laterite_duckdb.Table.{
  Cell, null, Rows, BindData, Chunk, write_cell, index, write_column, write_columns, func, scan,
}
use mathlib.Core.List.{map-append}

pub index-get_or {ℓ} :
    {A : Type ℓ} (xs : List A) (i : ℕ) (d : A) → i < length xs → index xs i ≡ ok (get_or xs i d)
index-get_or [] i d h = absurd (omega arith)
index-get_or (x ∷ xs) zero d h = refl
index-get_or (x ∷ xs) (suc i) d h = index-get_or xs i d (omega arith)

module _ {F : Type 0} where
  -- The cell of a row that column `col` shows.
  abbrev pub cell_at : ℕ → List (Cell F) → Cell F
  cell_at col row = write_cell (get_or row col null)

  -- Every row has a cell for each of `width` columns.
  abbrev pub IsRectangular : ℕ → Rows F → Type 0
  IsRectangular width = All (λ row. length row ≡ width)

  -- The cells of a column over several chunks.
  abbrev pub stream : ℕ → List (Chunk F) → List (Cell F)
  stream c [] = []
  stream c (chunk ∷ chunks) = get_or chunk.columns c [] ++ stream c chunks

  module _ (rows : Rows F) (width : ℕ) (shape : IsRectangular width rows) where
    write_column-eq :
        (col start n : ℕ)
        → col < width
        → start + n ≤ length rows
        → write_column rows col start n ≡ ok (map (cell_at col) (take n (drop start rows)))
    unfolding write_column
    write_column-eq col start zero h k = refl
    write_column-eq col start (suc n) h k =
        let inside : start < length rows = omega arith in
        let full : length (get_or rows start []) ≡ width =
          All-get_or (λ row. length row ≡ width) rows start [] inside shape in
        let e : start + 1 ≡ suc start = omega arith in
        let rest = write_column-eq col (start + 1) n h (omega arith) in
        rw (
          index-get_or rows start [] inside,
          index-get_or (get_or rows start []) col null (omega (arith, full)),
          rest,
          drop-get_or rows start [] inside,
          e,
        )

    pub columns_of : Rows F → ℕ → ℕ → List (List (Cell F))
    columns_of batch col zero = []
    columns_of batch col (suc left) = map (cell_at col) batch ∷ columns_of batch (col + 1) left

    pub write_columns-eq :
        (start n col left : ℕ)
        → col + left ≤ width
        → start + n ≤ length rows
        → write_columns rows start n col left ≡ ok (columns_of (take n (drop start rows)) col left)
    unfolding write_columns columns_of
    write_columns-eq start n col zero h k = refl
    write_columns-eq start n col (suc left) h k = rw (
      write_column-eq col start n (omega arith) k,
      write_columns-eq start n (col + 1) left (omega arith) k,
    )

    get_or-columns_of :
        (batch : Rows F) (col left c : ℕ)
        → c < left
        → get_or (columns_of batch col left) c [] ≡ map (cell_at (col + c)) batch
    unfolding columns_of
    get_or-columns_of batch col zero c h = absurd (omega arith)
    get_or-columns_of batch col (suc left) zero h = let e : col + 0 ≡ col = omega arith in rw e
    get_or-columns_of batch col (suc left) (suc c) h =
        let e : col + suc c ≡ col + 1 + c = omega arith in
        rw e (get_or-columns_of batch (col + 1) left c (omega arith))

  module _ (vector_size : ℕ) (room : 0 < vector_size) (b : BindData F)
      (shape : IsRectangular (length b.col_types) b.rows) where
    abbrev chunk_at : ℕ → Chunk F
    chunk_at start =
        let n = min (length b.rows - start) vector_size in
        record {
          size = n;
          columns =
              columns_of b.rows (length b.col_types) shape (take n (drop start b.rows)) 0
                (length b.col_types);
          cursor = start + n;
        }

    func_more : (start : ℕ) → start < length b.rows → func vector_size b start ≡ ok (chunk_at start)
    unfolding func
    func_more start h =
        let n = min (length b.rows - start) vector_size in
        rw (
          pos→not_zero n (omega arith),
          write_columns-eq b.rows (length b.col_types) shape start n 0 (length b.col_types)
              (omega arith) (omega arith),
        )

    func_end :
        (start : ℕ)
        → length b.rows ≤ start
        → func vector_size b start ≡ ok (record { size = 0; columns = []; cursor = start })
    unfolding func
    func_end start h = let e : min (length b.rows - start) vector_size ≡ 0 = omega arith in rw e

    -- The outcome of a scan from row `start`: chunks of at most a vector, which together show the
    -- rows from there on.
    abbrev pub Delivers : ℕ → ℕ → Type 0
    Delivers calls start =
        (chunks : List (Chunk F)) × (scan vector_size b calls start ≡ ok chunks)
        × All (λ chunk. chunk.size ≤ vector_size) chunks
        × ((c : ℕ) → c < length b.col_types → stream c chunks ≡ map (cell_at c) (drop start b.rows))

    scan-suc :
        (calls start : ℕ)
        → scan vector_size b (suc calls) start ≡ (
            func vector_size b start >>= λ chunk.
            if chunk.size == 0
            then ok (chunk ∷ [])
            else (scan vector_size b calls chunk.cursor >>= λ chunks. ok (chunk ∷ chunks)))
    unfolding scan
    scan-suc calls start = refl

    scan_step :
        (calls start : ℕ)
        → start < length b.rows
        → Delivers calls (start + min (length b.rows - start) vector_size)
        → Delivers (suc calls) start
    scan_step calls start inside (chunks, done, small, all) =
        let n = min (length b.rows - start) vector_size in
        let width = length b.col_types in
        let batch = take n (drop start b.rows) in
        (
          chunk_at start ∷ chunks,
          rw (scan-suc, func_more start inside, pos→not_zero n (omega arith), done),
          (omega arith, small),
          λ c h.
              let e : 0 + c ≡ c = omega arith in
              rw (
                get_or-columns_of b.rows width shape batch 0 width c h,
                e,
                all c h,
                ← drop-drop,
                ← map-append,
                take-append-drop,
              ),
        )

    -- A scan over rectangular rows, with vectors of at least one row, never panics. With a call
    -- for each row left and one more it has delivered every row from the cursor on, once and in
    -- order, in chunks of at most a vector.
    pub scan-stream :
        (calls start : ℕ)
        → start ≤ length b.rows
        → length b.rows - start < calls
        → Delivers calls start
    scan-stream zero start h k = absurd (omega arith)
    scan-stream (suc calls) start h k = elim (Bool-cases (ltb start (length b.rows))) [
      | inl more ↦
          let inside : start < length b.rows = ground arith in
          scan_step calls start inside (scan-stream calls _ (omega arith) (omega arith))
      | inr over ↦
          let past : length b.rows ≤ start = ground arith in
          (
            record { size = 0; columns = []; cursor = start } ∷ [],
            rw (scan-suc, func_end start past),
            (omega arith, tt),
            λ c inside. rw (drop_of_length-le start b.rows past),
          )
    ]

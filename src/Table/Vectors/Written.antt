-- ===== src/Table/Vectors/Written.antt =====
-- src/ffi_table.rs: what DuckDB reads from a vector that was written.
use laterite_duckdb.Base.{
  ℕ, zero, suc, ◌+◌, ◌≤◌, ◌<◌, ◌≡◌, refl, ap, ap₂, ◌∙◌, subst, arith, true, false, some, List, [],
  ◌∷◌, map, length, All, ◌==◌, nat_eq, Result, ok, and_then-ok, ok-inj, eq_self,
}
use laterite_duckdb.Table
use laterite_duckdb.Table.{
  Cell, null, str, int, double, bool, ColType, varchar, big_int, boolean, Rows, BindData, index,
  Conforms, RowFits, write_column, write_columns, Chunk,
}
use laterite_duckdb.Table.Shape.{cell-Conforms, row-RowFits}
use laterite_duckdb.Table.Vectors.{
  Vector, is_valid, set_null, write_cell, write_rows, write_vectors, read, reads, read_columns,
  IsFresh,
}

other_row : (i j : ℕ) → j < i → (j == i) ≡ false
other_row i j h = ground arith

later_row : (i j : ℕ) → i < j → (j == i) ≡ false
later_row i j h = ground arith

module _ {F : Type 0} where
  -- A written row reads as its cell.
  read_written :
      (t : ColType) (c : Cell F) (v : Vector F) (i : ℕ)
      → Conforms t c
      → is_valid v.validity i ≡ true
      → read t (write_cell v i c) i ≡ some (Table.write_cell c)
  unfolding write_cell set_null Table.write_cell
  read_written t c v i k e = ground (arith, eq_self i)

  -- The other rows are as they were.
  read_other :
      (t : ColType) (c : Cell F) (v : Vector F) (i j : ℕ)
      → (j == i) ≡ false
      → (read t (write_cell v i c) j ≡ read t v j)
        × (is_valid (write_cell v i c).validity j ≡ is_valid v.validity j)
  unfolding write_cell set_null
  read_other t c v i j e = ground arith

  -- The writes succeed. `n` rows from `i` on read as the cells, and those before as they were.
  record Writes (t : ColType) (v : Vector F) (i n : ℕ) (cells : List (Cell F))
      (m : Result (Vector F)) : Type 0 where
    written : Vector F
    run : m ≡ ok written
    before : (j : ℕ) → j < i → read t written j ≡ read t v j
    here : reads t written i n ≡ map some cells

  module _ (ts : List ColType) (rows : Rows F) (fits : All (RowFits ts) rows) where
    Writes-step :
        (t : ColType) (col start i n : ℕ) (v : Vector F) (row : List (Cell F)) (cell : Cell F)
        (rest : List (Cell F))
        → index rows (start + i) ≡ ok row
        → index row col ≡ ok cell
        → Conforms t cell
        → is_valid v.validity i ≡ true
        → Writes t
            (write_cell v i cell)
            (i + 1)
            n
            rest
            (write_rows rows col start (i + 1) n (write_cell v i cell))
        → Writes t v i
            (suc n)
            (Table.write_cell cell ∷ rest)
            (write_rows rows col start i (suc n) v)
    unfolding write_rows
    Writes-step t col start i n v row cell rest hr hc fit fresh w = record {
      written = w.written;
      run = rw (hr, hc) w.run;
      before = λ j k. w.before j (omega (arith, k)) ∙ (read_other t cell v i j (other_row i j k)).0;
      here = ap₂ ◌∷◌ (w.before i (omega arith) ∙ read_written t cell v i fit fresh) w.here;
    }

    write_rows-Writes :
        (t : ColType) (col start i n : ℕ) (v : Vector F) (cells : List (Cell F))
        → index ts col ≡ ok t
        → ((j : ℕ) → i ≤ j → is_valid v.validity j ≡ true)
        → write_column rows col (start + i) n ≡ ok cells
        → Writes t v i n cells (write_rows rows col start i n v)
    unfolding write_column write_rows
    write_rows-Writes t col start i zero v cells found fresh h = record {
      written = v;
      run = refl;
      before = λ j k. refl;
      here = subst (λ cs. [] ≡ map some cs) (ok-inj h) refl;
    }
    write_rows-Writes t col start i (suc n) v cells found fresh h =
        let (row, hr, h1) = and_then-ok (index rows (start + i)) _ h in
        let (cell, hc, h2) = and_then-ok (index row col) _ h1 in
        let (rest, hs, h3) = and_then-ok (write_column rows col (start + i + 1) n) _ h2 in
        let e : start + i + 1 ≡ start + (i + 1) = omega arith in
        let ih =
          write_rows-Writes t col start (i + 1) n (write_cell v i cell) rest found
            (λ j k.
              (read_other t cell v i j (later_row i j (omega (arith, k)))).1
              ∙ fresh j (omega (arith, k)))
            (subst (λ m. write_column rows col m n ≡ ok rest) e hs) in
        subst (λ cs. Writes t v i (suc n) cs (write_rows rows col start i (suc n) v)) (ok-inj h3)
          (Writes-step t col start i n v row cell rest hr hc
            (cell-Conforms ts row col t cell (row-RowFits ts rows (start + i) row fits hr) found hc)
            (fresh i (omega arith)) ih)

    -- The vectors of the columns of the types `us`, from `col` on.
    pub write_vectors-read :
        (us : List ColType) (start n col : ℕ) (vectors : List (Vector F))
        (columns : List (List (Cell F)))
        → ((k : ℕ) (t : ColType) → index us k ≡ ok t → index ts (col + k) ≡ ok t)
        → length vectors ≡ length us
        → All IsFresh vectors
        → write_columns rows start n col (length us) ≡ ok columns
        → (ws : List (Vector F)) × (write_vectors rows start n col (length us) vectors ≡ ok ws)
          × (read_columns us ws n ≡ map (map some) columns)
    unfolding write_columns write_vectors
    write_vectors-read [] start n col vectors columns types long fresh h =
        (vectors, refl, subst (λ cs. [] ≡ map (map some) cs) (ok-inj h) refl)
    write_vectors-read (t ∷ us) start n col [] columns types long fresh h =
        absurd (omega (arith, long))
    write_vectors-read (t ∷ us) start n col (v ∷ vectors) columns types long (new, fresh) h =
        let (cells, hc, h1) = and_then-ok (write_column rows col start n) _ h in
        let (others, ho, h2) =
          and_then-ok (write_columns rows start n (col + 1) (length us)) _ h1 in
        let zero_row : start ≡ start + 0 = omega arith in
        let here : index ts col ≡ ok t =
          let e : col + 0 ≡ col = omega arith in
          subst (λ k. index ts k ≡ ok t) e (types 0 t refl) in
        let w =
          write_rows-Writes t col start 0 n v cells here (λ j k. new j)
            (subst (λ m. write_column rows col m n ≡ ok cells) zero_row hc) in
        let (ws, run, same) =
          write_vectors-read us start n (col + 1) vectors others
            (λ k u e.
              let next : col + suc k ≡ col + 1 + k = omega arith in
              subst (λ m. index ts m ≡ ok u) next (types (suc k) u e))
            (omega (arith, long)) fresh ho in
        (
          w.written ∷ ws,
          rw (w.run, run) refl,
          ap₂ ◌∷◌ w.here same ∙ ap (map (map some)) (ok-inj h2),
        )

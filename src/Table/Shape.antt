-- ===== src/Table/Shape.antt =====
-- The rows of src/ffi_table.rs: rows that fit their column types are rectangular, and each cell fits
-- its column.
use laterite_duckdb.Base.{
  ℕ, zero, suc, ◌≡◌, refl, ap, subst, List, [], ◌∷◌, length, All, ok, ok-inj,
}
use laterite_duckdb.Table.{Cell, ColType, Rows, RowFits, Conforms, index}
use laterite_duckdb.Table.Scan.{IsRectangular}

module _ {F : Type 0} where
  length-RowFits :
      (ts : List ColType) (row : List (Cell F)) → RowFits ts row → length row ≡ length ts
  length-RowFits [] [] h = refl
  length-RowFits [] (c ∷ cs) h = absurd h
  length-RowFits (t ∷ ts) [] h = absurd h
  length-RowFits (t ∷ ts) (c ∷ cs) (_, h) = ap suc (length-RowFits ts cs h)

  pub RowFits-IsRectangular :
      (ts : List ColType) (rows : Rows F) → All (RowFits ts) rows → IsRectangular (length ts) rows
  RowFits-IsRectangular ts [] h = tt
  RowFits-IsRectangular ts (row ∷ rows) (h, hs) =
      (length-RowFits ts row h, RowFits-IsRectangular ts rows hs)

  -- A row of the right types has a cell of the column's type.
  pub cell-Conforms :
      (ts : List ColType) (row : List (Cell F)) (col : ℕ) (t : ColType) (c : Cell F)
      → RowFits ts row
      → index ts col ≡ ok t
      → index row col ≡ ok c
      → Conforms t c
  cell-Conforms [] row col t c fits h k = cc
  cell-Conforms (u ∷ ts) [] col t c fits h k = absurd fits
  cell-Conforms (u ∷ ts) (d ∷ row) zero t c fits h k =
      subst (Conforms t) (ok-inj k) (subst (λ x. Conforms x d) (ok-inj h) fits.0)
  cell-Conforms (u ∷ ts) (d ∷ row) (suc col) t c fits h k = cell-Conforms ts row col t c fits.1 h k

  pub row-RowFits :
      (ts : List ColType) (rows : Rows F) (i : ℕ) (row : List (Cell F))
      → All (RowFits ts) rows
      → index rows i ≡ ok row
      → RowFits ts row
  row-RowFits ts [] i row fits h = cc
  row-RowFits ts (r ∷ rows) zero row fits h = subst (RowFits ts) (ok-inj h) fits.0
  row-RowFits ts (r ∷ rows) (suc i) row fits h = row-RowFits ts rows i row fits.1 h

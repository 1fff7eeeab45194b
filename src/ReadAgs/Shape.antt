-- ===== src/ReadAgs/Shape.antt =====
-- The table of src/read_ags.rs has the shape that its columns declare.
use laterite_duckdb.Base.{
  ℕ, zero, suc, ◌+◌, ◌<◌, ◌≡◌, refl, ap, arith, String, Option, none, some, List, [], ◌∷◌, ◌++◌,
  map, length, length-append, get_or, All, ◌⊎◌, inl, inr, ok,
}
use laterite_duckdb.Engine.{Engine, MintsIds}
use laterite_duckdb.Table.{Cell, null, str, ColType, varchar, Columns, Rows, RowFits, Conforms}
use laterite_duckdb.Table.Scan.{index-get_or}
use laterite_duckdb.Typing.{Types, IsDistinct}
use laterite_duckdb.Typing.Sound.{cell_for-Conforms}
use laterite_duckdb.ReadAgs.{
  Binding, keyed, declared, some_unless_empty, row_ids, plan_from, plan_columns, id_cells,
  plan_cells, hash_cells, build_row, build_rows, build_table, intern,
}
use mathlib.Core.List.{map-append}
use mathlib.Core.Option

abbrev pub col_types : Columns → List ColType
col_types = map (λ c. c.1)

RowFits-append :
    {F : Type 0} (ts us : List ColType) (cs ds : List (Cell F))
    → RowFits ts cs
    → RowFits us ds
    → RowFits (ts ++ us) (cs ++ ds)
RowFits-append [] us [] ds h k = k
RowFits-append [] us (c ∷ cs) ds h k = absurd h
RowFits-append (t ∷ ts) us [] ds h k = absurd h
RowFits-append (t ∷ ts) us (c ∷ cs) ds h k = (h.0, RowFits-append ts us cs ds h.1 k)

module _ (E : Engine) (T : Types) where
  -- There is an id for each row, or no ids at all.
  abbrev pub HasIds : ℕ → Option (List (String × Option String)) → Type 0
  HasIds n none = Unit
  HasIds n (some ids) = length ids ≡ n

  some_unless_empty-HasIds :
      (n : ℕ) (ids : List (String × Option String))
      → (length ids ≡ n) ⊎ (ids ≡ [])
      → HasIds n (some_unless_empty E ids)
  unfolding some_unless_empty
  some_unless_empty-HasIds n [] h = tt
  some_unless_empty-HasIds n (id ∷ ids) (inl h) = h
  some_unless_empty-HasIds n (id ∷ ids) (inr h) = cc

  row_ids-HasIds :
      MintsIds E
      → (ags : E.AgsGroup) (group : String) (b : Binding E)
      → HasIds (E.n_rows ags) (row_ids E ags group b)
  unfolding row_ids
  row_ids-HasIds m ags group keyed = m.standard group (E.headings ags) (E.n_rows ags) _
  row_ids-HasIds m ags group (declared fd) =
      some_unless_empty-HasIds (E.n_rows ags) _
        (m.declared fd group (E.headings ags) (E.n_rows ags) _)

  parent_cell-Conforms :
      (parent : Option String)
      → Conforms {F = T.F64} varchar (Option.get_or (Option.map str parent) null)
  parent_cell-Conforms none = tt
  parent_cell-Conforms (some s) = tt

  id_cells-RowFits :
      (n r : ℕ) (ids : Option (List (String × Option String)))
      → HasIds n ids
      → r < n
      → (cells : List (Cell T.F64)) × (id_cells E T ids r ≡ ok cells)
        × RowFits (varchar ∷ varchar ∷ []) cells
  unfolding id_cells
  id_cells-RowFits n r none h k = (null ∷ null ∷ [], refl, (tt, (tt, tt)))
  id_cells-RowFits n r (some ids) h k =
      let id = get_or ids r ("", none) in
      (
        str id.0 ∷ Option.get_or (Option.map str id.1) null ∷ [],
        rw (index-get_or ids r ("", none) (omega (arith, h))),
        (tt, (parent_cell-Conforms id.1, tt)),
      )

  module _ (distinct : IsDistinct T) (ags : E.AgsGroup) (group : String) where
    plan_cells-RowFits :
        (i r c : ℕ) (hs pool : List String)
        → RowFits
            (col_types (plan_columns E T (plan_from E T ags i hs) pool).0)
            (plan_cells E T ags r c (plan_from E T ags i hs))
    unfolding plan_columns plan_from plan_cells
    plan_cells-RowFits i r c [] pool = tt
    plan_cells-RowFits i r c (h ∷ hs) pool = (
      cell_for-Conforms T distinct _ _ _,
      plan_cells-RowFits (i + 1) r (c + 1) hs (intern h pool).1,
    )

    -- The columns of a table, for the pool that `intern` starts from.
    abbrev pub table_columns : List String → Columns
    table_columns pool =
        ("_id", varchar)
        ∷ ("_parent_id", varchar)
        ∷ ((plan_columns E T (plan_from E T ags 0 (E.headings ags)) pool).0
            ++ ("_content_hash", varchar) ∷ [])

    build_row-RowFits :
        (n r : ℕ) (ids : Option (List (String × Option String))) (pool : List String)
        → HasIds n ids
        → r < n
        → (row : List (Cell T.F64)) × (build_row E T ags group ids
              (plan_from E T ags 0 (E.headings ags))
              r
            ≡ ok row)
          × RowFits (col_types (table_columns pool)) row
    unfolding build_row
    build_row-RowFits n r ids pool h k =
        let (keys, found, fit) = id_cells-RowFits n r ids h k in
        let hs = E.headings ags in
        let plan = plan_from E T ags 0 hs in
        let hash : List (Cell T.F64) =
          str (E.content_hash group (hash_cells E T ags r 0 hs)) ∷ [] in
        let named = (plan_columns E T plan pool).0 in
        let last : RowFits (col_types named ++ varchar ∷ []) (plan_cells E T ags r 0 plan ++ hash) =
          RowFits-append (col_types named) (varchar ∷ []) (plan_cells E T ags r 0 plan) hash
            (plan_cells-RowFits 0 r 0 hs pool) (tt, tt) in
        (
          keys ++ (plan_cells E T ags r 0 plan ++ hash),
          rw found,
          rw (map-append (λ (c : String × ColType). c.1) named (("_content_hash", varchar) ∷ [])) (
              RowFits-append (varchar ∷ varchar ∷ []) (col_types named ++ varchar ∷ []) keys _ fit
                last),
        )

    build_rows-RowFits :
        (n r left : ℕ) (ids : Option (List (String × Option String))) (pool : List String)
        → HasIds n ids
        → r + left ≡ n
        → (rows : Rows T.F64) × (build_rows E T ags group ids
              (plan_from E T ags 0 (E.headings ags))
              r
              left
            ≡ ok rows)
          × (length rows ≡ left)
          × All (RowFits (col_types (table_columns pool))) rows
    unfolding build_rows
    build_rows-RowFits n r zero ids pool h k = ([], refl, refl, tt)
    build_rows-RowFits n r (suc left) ids pool h k =
        let (row, made, fit) = build_row-RowFits n r ids pool h (omega arith) in
        let (rows, more, size, fits) = build_rows-RowFits n (r + 1) left ids pool h (omega arith) in
        (row ∷ rows, rw (made, more), ap suc size, (fit, fits))

  length-plan_columns :
      (ags : E.AgsGroup) (i : ℕ) (hs pool : List String)
      → length (plan_columns E T (plan_from E T ags i hs) pool).0 ≡ length hs
  unfolding plan_columns plan_from
  length-plan_columns ags i [] pool = refl
  length-plan_columns ags i (h ∷ hs) pool =
      ap suc (length-plan_columns ags (i + 1) hs (intern h pool).1)

  -- With a keychain that mints one id a row, or none for a keyless declaration, and type codes
  -- that are distinct, `build_table` never fails: it has a row for each data row, a column for
  -- each heading and three more, and every row has for each column a NULL or a cell of the
  -- column's type.
  pub build_table-RowFits :
      IsDistinct T
      → MintsIds E
      → (ags : E.AgsGroup) (group : String) (b : Binding E) (pool : List String)
      → (columns : Columns) × (rows : Rows T.F64) × ((build_table E T ags group b pool).0
          ≡ ok (columns, rows))
        × (length columns ≡ length (E.headings ags) + 3)
        × (length rows ≡ E.n_rows ags)
        × All (RowFits (col_types columns)) rows
  unfolding build_table
  build_table-RowFits d m ags group b pool =
      let (rows, made, size, fits) =
        build_rows-RowFits d ags group (E.n_rows ags) 0 (E.n_rows ags) (row_ids E ags group b) pool
          (row_ids-HasIds m ags group b) (omega arith) in
      let named = (plan_columns E T (plan_from E T ags 0 (E.headings ags)) pool).0 in
      (
        table_columns d ags group pool,
        rows,
        rw made,
        omega (
          arith,
          length-plan_columns ags 0 (E.headings ags) pool,
          length-append named (("_content_hash", varchar) ∷ []),
        ),
        size,
        fits,
      )

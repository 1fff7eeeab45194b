-- ===== src/Meta/Listed.antt =====
-- src/meta.rs: `ags_groups` lists each group once, in file order.
use laterite_duckdb.Base.{
  ◌≡◌, refl, String, ◌==◌, string_eq, if◌then◌else◌, Bool-cases, inl, inr, Option, none, some, List,
  [], ◌∷◌, map, All, ok, length,
}
use laterite_duckdb.Base.Int.{as_i64}
use laterite_duckdb.Engine.{Engine}
use laterite_duckdb.Meta.{
  groups_columns, group_row, group_rows, ags_groups, shown_parent, file_parent, named_parent,
  or_else,
}
use laterite_duckdb.Table.{Cell, text_cell, text_cell-Conforms, null, str, int, Rows, RowFits}

-- The group is in the file.
abbrev pub IsPresent : (E : Engine) → E.ParsedAgs4 → String → Type 0
IsPresent E parsed code = (g : E.AgsGroup) × (E.get_group parsed code ≡ some g)

module _ (E : Engine) {F : Type 0} where
  -- The parent of a group: the registry's; or else the one that the file declares, where that is
  -- neither empty nor a dash; or else NULL.
  abbrev pub parent_cell : Option String → Option String → Cell F
  parent_cell (some registered) declared = str registered
  parent_cell none none = null
  parent_cell none (some String.[]) = null
  parent_cell none (some (String.◌∷◌ c s)) =
      if String.◌∷◌ c s == "-" then null else str (String.◌∷◌ c s)

  abbrev pub with_row : E.ParsedAgs4 → String → Option E.AgsGroup → Rows F → Rows F
  with_row parsed code none rows = rows
  with_row parsed code (some g) rows =
      (str code
        ∷ int (as_i64 (E.n_rows g))
        ∷ int (as_i64 (length (E.headings g)))
        ∷ parent_cell (E.registry_parent code) (E.declared_parent (E.file_dict_of parsed) code)
        ∷ [])
      ∷ rows

  -- The row of each group of the order: its code, its numbers of rows and of headings, its parent.
  abbrev pub listing : E.ParsedAgs4 → List String → Rows F
  listing parsed [] = []
  listing parsed (code ∷ order) =
      with_row parsed code (E.get_group parsed code) (listing parsed order)

  shown-parent_cell :
      (registered declared : Option String)
      → text_cell (or_else registered (named_parent declared)) ≡ parent_cell registered declared
  shown-parent_cell (some r) declared = refl
  shown-parent_cell none none = refl
  shown-parent_cell none (some String.[]) = refl
  shown-parent_cell none (some (String.◌∷◌ c s)) = elim (Bool-cases (String.◌∷◌ c s == "-")) [
    | inl dash ↦ rw dash refl
    | inr name ↦ rw name refl
  ]

  shown_parent-cell :
      (fd : E.FileDict) (code : String)
      → text_cell (shown_parent E fd code)
        ≡ parent_cell (E.registry_parent code) (E.declared_parent fd code)
  unfolding shown_parent file_parent
  shown_parent-cell fd code = shown-parent_cell (E.registry_parent code) (E.declared_parent fd code)

  group_rows-listing :
      (parsed : E.ParsedAgs4) (order : List String)
      → All (IsPresent E parsed) order
      → (rows : Rows F) × (group_rows E parsed (E.file_dict_of parsed) order ≡ ok rows)
        × All (RowFits (map (λ c. c.1) groups_columns)) rows
        × (rows ≡ listing parsed order)
  unfolding group_rows
  group_rows-listing parsed [] present = ([], refl, tt, refl)
  group_rows-listing parsed (code ∷ order) ((g, found), present) =
      let (rows, made, fits, listed) = group_rows-listing parsed order present in
      let fd = E.file_dict_of parsed in
      (
        (str code
              ∷ int (as_i64 (E.n_rows g))
              ∷ int (as_i64 (length (E.headings g)))
              ∷ text_cell (shown_parent E fd code)
              ∷ [])
            ∷ rows,
        rw (found, group_row, made) refl,
        ((tt, (tt, (tt, (text_cell-Conforms F (shown_parent E fd code), tt)))), fits),
        rw (found, shown_parent-cell fd code, listed) refl,
      )

  -- When every group of the order is in the file, `ags_groups` succeeds, with a typed row for each
  -- group in file order: its code, its numbers of rows and of headings as an `i64` each, and its
  -- parent, which is the registry's, or else the one that the file declares where that is neither
  -- empty nor a dash, or else NULL.
  pub ags_groups-Lists :
      (parsed : E.ParsedAgs4)
      → All (IsPresent E parsed) (E.order parsed)
      → (rows : Rows F) × (ags_groups E parsed ≡ ok (groups_columns, rows))
        × All (RowFits (map (λ c. c.1) groups_columns)) rows
        × (rows ≡ listing parsed (E.order parsed))
  unfolding ags_groups
  ags_groups-Lists parsed present =
      let (rows, made, fits, listed) = group_rows-listing parsed (E.order parsed) present in
      (rows, rw made refl, fits, listed)

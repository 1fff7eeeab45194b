-- ===== src/Meta.antt =====
-- src/meta.rs: the rows of `ags_groups` and of `ags_headings`.
pub mod Listed
pub mod Headings
use mathlib.Core.Option
use laterite_duckdb.Typing.{Types}
use laterite_duckdb.Base.{
  ℕ, ◌+◌, ◌++◌, get_elem?, ◌≡◌, String, Bool, true, false, not, ◌&&◌, Option, none, some, List, [],
  ◌∷◌, length, ◌==◌, string_eq, if◌then◌else◌, Result, expect, ok, panic, ◌>>=◌,
}
use laterite_duckdb.Base.Int.{as_i64}
use laterite_duckdb.Base.Text.{is_empty, upper_contains}
use laterite_duckdb.Engine.{Engine, Registry}
use laterite_duckdb.Table.{
  boolean, bool, unless_empty, text_cell, Cell, null, str, int, varchar, big_int, Columns, Rows,
}

abbrev pub groups_columns : Columns
groups_columns =
    ("group", varchar) ∷ ("n_rows", big_int) ∷ ("n_headings", big_int) ∷ ("parent", varchar) ∷ []

-- `filter(|p| !p.is_empty() && *p != "-")`
abbrev pub named_parent : Option String → Option String
named_parent none = none
named_parent (some p) = if not (is_empty p) && not (p == "-") then some p else none

-- `or_else`
abbrev pub or_else : {A : Type 0} → Option A → Option A → Option A
or_else none other = other
or_else (some p) other = some p

module _ (E : Engine) where
  unfoldable pub file_parent : E.FileDict → String → Option String
  file_parent fd code = named_parent (E.declared_parent fd code)

  -- The parent that `ags_groups` shows: the registry's, or else the file's own.
  unfoldable pub shown_parent : E.FileDict → String → Option String
  unfolding file_parent
  shown_parent fd code = or_else (E.registry_parent code) (file_parent fd code)

  module _ {F : Type 0} where
    -- A row; `expect` panics on a group that is not there.
    unfoldable pub group_row : E.FileDict → String → Option E.AgsGroup → Result (List (Cell F))
    unfolding shown_parent
    group_row fd code none = panic
    group_row fd code (some g) = ok (
        str code
        ∷ int (as_i64 (E.n_rows g))
        ∷ int (as_i64 (length (E.headings g)))
        ∷ text_cell (shown_parent fd code)
        ∷ [])

    unfoldable pub group_rows : E.ParsedAgs4 → E.FileDict → List String → Result (Rows F)
    unfolding group_row
    group_rows parsed fd [] = ok []
    group_rows parsed fd (code ∷ order) = do
      row ← group_row fd code (E.get_group parsed code)
      rest ← group_rows parsed fd order
      ok (row ∷ rest)

    -- `ags_groups`, past the parse.
    unfoldable pub ags_groups : E.ParsedAgs4 → Result (Columns × Rows F)
    unfolding group_rows
    ags_groups parsed = do
      rows ← group_rows parsed (E.file_dict_of parsed) (E.order parsed)
      ok (groups_columns, rows)

abbrev pub headings_columns : Columns
headings_columns =
    ("group", varchar)
    ∷ ("heading", varchar)
    ∷ ("unit", varchar)
    ∷ ("ags_type", varchar)
    ∷ ("sql_type", varchar)
    ∷ ("status", varchar)
    ∷ ("is_key", boolean)
    ∷ ("ordinal", big_int)
    ∷ []

module _ (E : Engine) (R : Registry) where
  -- `d.headings.iter().find(|h| h.name == *heading)`
  unfoldable pub find_heading : List R.Heading → String → Option R.Heading
  find_heading [] heading = none
  find_heading (h ∷ hs) heading =
      let rest = find_heading hs heading in if R.name h == heading then some h else rest

  -- The registry's status and key mark.
  abbrev registry_status : Option R.Group → String → Option (String × Bool)
  registry_status desc heading =
      Option.map (λ h. (R.status h, R.is_key h))
        (Option.bind desc (λ d. find_heading (R.headings d) heading))

  -- The file's own declaration.
  abbrev file_status : E.FileDict → String → String → Option (String × Bool)
  file_status fd code heading =
      Option.map (λ status. (status, upper_contains status "KEY"))
        (E.declared_status fd code heading)

  unfoldable pub heading_status : E.FileDict → Option R.Group → String → String → String × Bool
  unfolding find_heading upper_contains
  heading_status fd desc code heading =
      Option.get_or (or_else (registry_status desc heading) (file_status fd code heading))
        ("OTHER", false)

  module _ (T : Types) where
    unfoldable pub heading_row :
        E.FileDict → String → E.AgsGroup → Option R.Group → ℕ → String → List (Cell T.F64)
    unfolding heading_status
    heading_row fd code g desc i heading =
        let ags_type = Option.get_or (get_elem? (E.types g) i) "" in
        let unit = Option.get_or (get_elem? (E.units g) i) "" in
        let (status, is_key) = heading_status fd desc code heading in
        str code
        ∷ str heading
        ∷ unless_empty unit
        ∷ str ags_type
        ∷ str (T.sql_type_for_unit ags_type unit)
        ∷ str status
        ∷ bool is_key
        ∷ int (as_i64 i)
        ∷ []

    -- The loop over the headings, from position `i` on.
    unfoldable pub heading_rows :
        E.FileDict → String → E.AgsGroup → Option R.Group → ℕ → List String → Rows T.F64
    unfolding heading_row
    heading_rows fd code g desc i [] = []
    heading_rows fd code g desc i (heading ∷ hs) =
        heading_row fd code g desc i heading ∷ heading_rows fd code g desc (i + 1) hs

    -- The loop over the groups.
    unfoldable pub all_heading_rows : E.ParsedAgs4 → E.FileDict → List String → Result (Rows T.F64)
    unfolding heading_rows
    all_heading_rows parsed fd [] = ok []
    all_heading_rows parsed fd (code ∷ order) = do
      g ← expect (E.get_group parsed code)
      rest ← all_heading_rows parsed fd order
      ok (heading_rows fd code g (R.get code) 0 (E.headings g) ++ rest)

    -- `ags_headings`, past the parse.
    unfoldable pub ags_headings : E.ParsedAgs4 → Result (Columns × Rows T.F64)
    unfolding all_heading_rows
    ags_headings parsed = do
      rows ← all_heading_rows parsed (E.file_dict_of parsed) (E.order parsed)
      ok (headings_columns, rows)

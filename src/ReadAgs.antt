-- ===== src/ReadAgs.antt =====
-- src/read_ags.rs: how a group binds, and the typed table that `build_table` makes of it.
pub mod Shape
pub mod Pool
use laterite_duckdb.Base.{
  ℕ, zero, suc, ◌+◌, ◌<>◌, String, Bool, true, Option, none, some, List, [], ◌∷◌, ◌++◌, map, length,
  get_elem?, if◌then◌else◌, ◌==◌, string_eq, ◌||◌, Result, ok, err, panic, ok_or, ◌>>=◌,
}
use laterite_duckdb.Base.Text.{join}
use laterite_duckdb.Engine.{Engine}
use laterite_duckdb.Table.{Cell, null, str, ColType, varchar, Columns, Rows, index}
use laterite_duckdb.Typing.{Types, Emit, col_type, emit_of, cell_for}
use mathlib.Core.Option

-- The pool of `intern`: each distinct name is leaked once. `HashSet::get` and `insert`.
unfoldable pub is_interned : String → List String → Bool
is_interned name [] = Bool.false
is_interned name (other ∷ pool) = name == other || is_interned name pool

-- The name to use, and the pool afterwards.
unfoldable pub intern : String → List String → String × List String
unfolding is_interned
intern name pool = (name, if is_interned name pool then pool else name ∷ pool)

module _ (E : Engine) where
  open E use {
    ParsedAgs4, AgsGroup, FileDict, get_group, order, headings, types, units, n_rows, cell,
    file_dict_of, declares, is_standard, group_row_ids, group_row_ids_effective, content_hash,
  }

  pub data Binding : Type 0 where
    keyed : Binding
    declared : FileDict → Binding

  unfoldable pub binding_for : ParsedAgs4 → String → Result Binding
  binding_for parsed group =
      if is_standard group
      then ok keyed
      else (let fd = file_dict_of parsed in
          if declares fd group
          then ok (declared fd)
          else err (
              "group '"
              <> (group
                  <> ("' is not in the AGS dictionary and the file's own DICT group does not "
                      <> "declare it (Rule 18); a custom group is readable once the file declares it"))))

  unfoldable pub resolve_group : ParsedAgs4 → String → Result AgsGroup
  unfolding join
  resolve_group parsed group = ok_or (get_group parsed group) (
      "group '"
      <> (group <> ("' not found (groups present: " <> (join (order parsed) ", " <> ")"))))

  -- An entry of `plan`.
  pub record Planned : Type 0 where
    pub heading : String
    pub ags_type : String
    pub unit : String
    pub kind : Emit

  -- The ids of the rows, or none for a declaration without KEY headings.
  unfoldable pub some_unless_empty :
      List (String × Option String) → Option (List (String × Option String))
  some_unless_empty [] = none
  some_unless_empty (id ∷ ids) = some (id ∷ ids)

  unfoldable pub row_ids : AgsGroup → String → Binding → Option (List (String × Option String))
  unfolding some_unless_empty
  row_ids ags group keyed =
      some (group_row_ids group (headings ags) (n_rows ags) (λ c r. cell ags r c))
  row_ids ags group (declared fd) =
      some_unless_empty
        (group_row_ids_effective fd group (headings ags) (n_rows ags) (λ c r. cell ags r c))

  module _ (T : Types) where
    -- The loop over the headings, from position `i` on.
    unfoldable pub plan_from : AgsGroup → ℕ → List String → List Planned
    unfolding emit_of
    plan_from ags i [] = []
    plan_from ags i (heading ∷ rest) =
        let ags_type = Option.get_or (get_elem? (types ags) i) "X" in
        record {
          heading = heading;
          ags_type = ags_type;
          unit = Option.get_or (get_elem? (units ags) i) "";
          kind = emit_of T ags_type;
        }
        ∷ plan_from ags (i + 1) rest

    -- The columns that the same loop pushes, with the pool of interned names.
    unfoldable pub plan_columns : List Planned → List String → Columns × List String
    unfolding intern col_type
    plan_columns [] pool = ([], pool)
    plan_columns (p ∷ plan) pool =
        let (name, pool') = intern p.heading pool in
        let (columns, pool'') = plan_columns plan pool' in
        ((name, col_type p.kind) ∷ columns, pool'')

    unfoldable pub id_cells :
        Option (List (String × Option String)) → ℕ → Result (List (Cell T.F64))
    id_cells none r = ok (null ∷ null ∷ [])
    id_cells (some ids) r = do
      (id, parent) ← index ids r
      ok (str id ∷ Option.get_or (Option.map str parent) null ∷ [])

    -- The cells of row `r` for the plan from column `c` on.
    unfoldable pub plan_cells : AgsGroup → ℕ → ℕ → List Planned → List (Cell T.F64)
    unfolding cell_for
    plan_cells ags r c [] = []
    plan_cells ags r c (p ∷ plan) =
        cell_for T (cell ags r c) p.ags_type p.unit p.kind ∷ plan_cells ags r (c + 1) plan

    unfoldable pub hash_cells :
        AgsGroup → ℕ → ℕ → List String → List (String × String × String × String)
    hash_cells ags r i [] = []
    hash_cells ags r i (h ∷ rest) =
        (
          h,
          Option.get_or (get_elem? (units ags) i) "",
          Option.get_or (get_elem? (types ags) i) "",
          Option.get_or (cell ags r i) "",
        )
        ∷ hash_cells ags r (i + 1) rest

    unfoldable pub build_row :
        AgsGroup
        → String
        → Option (List (String × Option String))
        → List Planned
        → ℕ
        → Result (List (Cell T.F64))
    unfolding id_cells plan_cells hash_cells
    build_row ags group ids plan r = do
      keys ← id_cells ids r
      ok (
          keys
          ++ (plan_cells ags r 0 plan
              ++ (str (content_hash group (hash_cells ags r 0 (headings ags))) ∷ [])))

    -- The rows from `r` on, `left` of them.
    unfoldable pub build_rows :
        AgsGroup
        → String
        → Option (List (String × Option String))
        → List Planned
        → ℕ
        → ℕ
        → Result (Rows T.F64)
    unfolding build_row
    build_rows ags group ids plan r zero = ok []
    build_rows ags group ids plan r (suc left) = do
      row ← build_row ags group ids plan r
      rest ← build_rows ags group ids plan (r + 1) left
      ok (row ∷ rest)

    -- The table, and the pool of interned names afterwards.
    unfoldable pub build_table :
        AgsGroup → String → Binding → List String → Result (Columns × Rows T.F64) × List String
    unfolding plan_from plan_columns row_ids build_rows
    build_table ags group binding pool =
        let plan = plan_from ags 0 (headings ags) in
        let (named, pool') = plan_columns plan pool in
        let columns : Columns =
          ("_id", varchar) ∷ ("_parent_id", varchar) ∷ (named ++ ("_content_hash", varchar) ∷ []) in
        let built = (do
          rows ← build_rows ags group (row_ids ags group binding) plan 0 (n_rows ags)
          ok (columns, rows)) in
        (built, pool')

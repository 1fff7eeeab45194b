-- ===== src/Script.antt =====
-- src/load.rs and src/to_duckdb.rs: the numbered SQL statements that `load_ags` and `to_duckdb`
-- return.
pub mod Numbered
pub mod Literal
use laterite_duckdb.Base.{◌<>◌, String, Option, none, some, List, [], ◌∷◌, ◌++◌, length}
use laterite_duckdb.Base.Int.{as_i64}
use laterite_duckdb.Base.Text.{double_quotes}
use laterite_duckdb.Engine.{Engine}
use laterite_duckdb.Table.{Cell, str, int, varchar, big_int, Columns, Rows}

abbrev pub script_columns : Columns
script_columns = ("seq", big_int) ∷ ("stmt", varchar) ∷ []

-- `CREATE TABLE` of both scripts.
unfoldable pub create_table : String → String → String → String
create_table tbl lit code =
    "CREATE TABLE "
    <> (tbl <> (" AS SELECT * FROM read_ags('" <> (lit <> ("', '" <> (code <> "');")))))

unfoldable pub create_index : String → String → String → String
create_index name tbl column =
    "CREATE INDEX " <> (name <> (" ON " <> (tbl <> ("(" <> (column <> ");")))))

-- The parent's index, of a group with a registry parent.
abbrev pub unless_root : Option String → String → List String
unless_root none stmt = []
unless_root (some parent) stmt = stmt ∷ []

module _ {F : Type 0} where
  -- `let seq = rows.len() as i64; rows.push(vec![Cell::Int(seq), Cell::Str(s)]);`
  unfoldable pub push : Rows F → String → Rows F
  push rows s = rows ++ ((int (as_i64 (length rows)) ∷ str s ∷ []) ∷ [])

  unfoldable pub push_all : Rows F → List String → Rows F
  unfolding push
  push_all rows [] = rows
  push_all rows (s ∷ stmts) = push_all (push rows s) stmts

  -- The loop over the groups.
  unfoldable pub push_groups : (String → List String) → Rows F → List String → Rows F
  unfolding push_all
  push_groups stmts rows [] = rows
  push_groups stmts rows (code ∷ order) = push_groups stmts (push_all rows (stmts code)) order

module _ (E : Engine) where
  unfoldable pub load_stmts : String → String → List String
  unfolding create_table create_index
  load_stmts lit code =
      let tbl = "ags_" <> E.to_lowercase code in
      create_table tbl lit code
      ∷ create_index (tbl <> "_id_idx") tbl "_id"
      ∷ unless_root (E.registry_parent code) (create_index (tbl <> "_parent_idx") tbl "_parent_id")

  unfoldable pub to_duckdb_stmts : String → String → List String
  unfolding create_table create_index
  to_duckdb_stmts lit code =
      let lc = E.to_lowercase code in
      let tbl = "_lat_out.ags_" <> lc in
      create_table tbl lit code
      ∷ create_index ("ags_" <> (lc <> "_id_idx")) tbl "_id"
      ∷ unless_root (E.registry_parent code)
          (create_index ("ags_" <> (lc <> "_parent_idx")) tbl "_parent_id")

  module _ {F : Type 0} where
    -- `load_ags`, past the parse.
    unfoldable pub load_rows : String → E.ParsedAgs4 → Rows F
    unfolding double_quotes push_groups load_stmts
    load_rows path parsed =
        let lit = double_quotes path in push_groups (load_stmts lit) [] (E.order parsed)

    -- `to_duckdb`, past the parse.
    unfoldable pub to_duckdb_rows : String → String → E.ParsedAgs4 → Rows F
    unfolding double_quotes push push_groups to_duckdb_stmts
    to_duckdb_rows path out parsed =
        let lit = double_quotes path in
        let out_lit = double_quotes out in
        let attach : List (Cell F) =
          int (as_i64 0) ∷ str ("ATTACH '" <> (out_lit <> "' AS _lat_out;")) ∷ [] in
        push (push_groups (to_duckdb_stmts lit) (attach ∷ []) (E.order parsed)) "DETACH _lat_out;"

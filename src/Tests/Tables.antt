-- ===== src/Tests/Tables.antt =====
-- A group with a text and a decimal column, for src/typing.rs, src/read_ags.rs, src/ffi_table.rs and
-- the scripts.
use laterite_duckdb.Base.{
  map, ℕ, zero, suc, ◌+◌, ◌^◌, ◌≡◌, refl, ap, arith, inr, String, true, false, ◌==◌, string_eq,
  if◌then◌else◌, none, some, List, [], ◌∷◌, ◌++◌, length, All, ok, ◌<>◌,
}
use laterite_duckdb.Cache.{new_cache}
use laterite_duckdb.Engine.{MintsIds}
use laterite_duckdb.Meta.{ags_groups, groups_columns}
use laterite_duckdb.Meta.Listed.{ags_groups-Lists}
use laterite_duckdb.ReadAgs.{keyed, build_table}
use laterite_duckdb.ReadAgs.Shape.{build_table-RowFits, col_types}
use laterite_duckdb.Reader.{Encodings, State, read_ags, read_ags_text}
use laterite_duckdb.Base.Int.{pos}
use laterite_duckdb.Base.Text.{double_quotes}
use laterite_duckdb.Script.{load_rows, load_stmts, to_duckdb_rows, to_duckdb_stmts}
use laterite_duckdb.Script.Literal.{quote, read_body, read_body-double_quotes}
use laterite_duckdb.Script.Numbered.{
  numbered, all_stmts, load_rows-numbered, to_duckdb_rows-numbered,
}
use laterite_duckdb.Table.{
  Cell, null, str, int, ColType, varchar, Columns, Rows, RowFits, Conforms, BindData,
}
use laterite_duckdb.Table.Scan.{IsRectangular, Delivers, scan-stream}
use laterite_duckdb.Tests.Files.{host, engine, ids}
use laterite_duckdb.Typing.{Types, IsDistinct, col_type, emit_of, cell_for}
use laterite_duckdb.Typing.Sound.{cell_for-Conforms}
use native.Mathlib.Decide.{ℕ_discrete}

abbrev pub types : Types
types = record {
  F64 = ℕ;
  CanonicalType = ℕ;
  Value = String;
  Time = String;
  DateTime = String;
  decimal = 0;
  integer = 1;
  boolean = 2;
  datetime = 3;
  canonical_eq = ℕ_discrete;
  canonical_type = λ t. if t == "2DP" then some 0 else if t == "DT" then some 3 else none;
  is_time_of_day_unit = λ unit. unit == "hh:mm";
  parse_time = λ s. some s;
  parse_datetime_for_unit = λ s unit. some s;
  format_time = λ t. t;
  format_datetime = λ d. d;
  parse_value = λ raw t. "1.50";
  is_null = λ v. false;
  as_f64 = λ v. some 150;
  as_i64 = λ v. none;
  as_bool = λ v. none;
  as_str = λ v. some v;
  sql_type = λ t. "VARCHAR";
  sql_type_for_unit = λ t unit. "VARCHAR";
}

pub distinct : IsDistinct types
distinct = record {
  datetime_not_decimal = λ e. omega (arith, e);
  datetime_not_integer = λ e. omega (arith, e);
  datetime_not_boolean = λ e. omega (arith, e);
}

length-ids : (n : ℕ) → length (ids n) ≡ n
length-ids zero = refl
length-ids (suc n) = ap suc (length-ids n)

pub mints : MintsIds engine
mints = record {
  standard = λ group headings n cell. length-ids n;
  declared = λ fd group headings n cell. inr refl;
}

cell_for-Conforms_example :
    Conforms
      (col_type (emit_of types "DT"))
      (cell_for types (some "2020-01-02") "DT" "yyyy-mm-dd" (emit_of types "DT"))
cell_for-Conforms_example = cell_for-Conforms types distinct (some "2020-01-02") "DT" "yyyy-mm-dd"

abbrev pub group : List ℕ
group = 66 ∷ 67 ∷ 68 ∷ []

build_table-RowFits_example :
    (columns : Columns) × (rows : Rows ℕ) × ((build_table engine types group "GEOX" keyed []).0
      ≡ ok (columns, rows))
    × (length columns ≡ 2 + 3)
    × (length rows ≡ 1)
    × All (RowFits (col_types columns)) rows
build_table-RowFits_example = build_table-RowFits engine types distinct mints group "GEOX" keyed []

-- Three rows of two columns, in vectors of two.
abbrev three : BindData ℕ
three = record {
  col_types = varchar ∷ varchar ∷ [];
  rows = (str "a" ∷ null ∷ []) ∷ (str "b" ∷ str "c" ∷ []) ∷ (null ∷ str "d" ∷ []) ∷ [];
}

abbrev two_columns : Columns
two_columns = ("a", varchar) ∷ ("b", varchar) ∷ []

three-IsRectangular : IsRectangular 2 three.rows
three-IsRectangular = (refl, (refl, (refl, tt)))

scan-stream_example : Delivers 2 (omega arith) three three-IsRectangular 4 0
scan-stream_example =
    scan-stream 2 (omega arith) three three-IsRectangular 4 0 (omega arith) (omega arith)

abbrev pub encodings : Encodings
encodings = record {
  Encoding = Unit;
  utf_8 = tt;
  is_utf_8 = λ encoding. true;
  name = λ encoding. "UTF-8";
  for_label = λ label. some tt;
  decode = λ encoding bytes. bytes;
}

abbrev pub state : State encodings engine host (2 ^ 64)
state = record { cache = new_cache 10000; pool = []; world = 0 }

abbrev pub table : Columns × Rows ℕ
table = (
  ("_id", varchar)
      ∷ ("_parent_id", varchar)
      ∷ ("GEOX_REF", varchar)
      ∷ ("GEOX_TOP", ColType.double)
      ∷ ("_content_hash", varchar)
      ∷ [],
  (null ∷ null ∷ str "1.50" ∷ Cell.double 150 ∷ str "hash" ∷ []) ∷ [],
)

runs :
    (read_ags encodings engine host
      (2 ^ 64)
      types
      (some (some "a.ags"))
      (some (some " GEOX "))
      none
      state).0
    ≡ ok table
unfolding read_ags mathlib.Core.Option.bind ℕ_discrete
runs = refl

text_runs :
    (read_ags_text encodings engine host
      (2 ^ 64)
      types
      (λ text. group)
      (some (some "BCD"))
      (some (some "GEOX"))
      state).0
    ≡ ok table
unfolding read_ags_text ℕ_discrete
text_runs = refl

load_rows-numbered_example :
    load_rows engine {F = ℕ} "o'brien.ags" group
    ≡ numbered 0 (all_stmts (load_stmts engine (double_quotes "o'brien.ags")) ("GEOX" ∷ []))
load_rows-numbered_example = load_rows-numbered engine "o'brien.ags" group

to_duckdb_rows-numbered_example :
    to_duckdb_rows engine {F = ℕ} "a.ags" "out.duckdb" group
    ≡ numbered 0 (
        (("ATTACH '" <> (double_quotes "out.duckdb" <> "' AS _lat_out;"))
          ∷ all_stmts (to_duckdb_stmts engine (double_quotes "a.ags")) ("GEOX" ∷ []))
        ++ "DETACH _lat_out;" ∷ [])
to_duckdb_rows-numbered_example = to_duckdb_rows-numbered engine "a.ags" "out.duckdb" group

read_body-double_quotes_example :
    read_body false (double_quotes "o'brien.ags" <> String.◌∷◌ quote ", ")
    ≡ some ("o'brien.ags", ", ")
read_body-double_quotes_example = read_body-double_quotes "o'brien.ags" ", " refl

ags_groups-Lists_example :
    (rows : Rows ℕ) × (ags_groups engine group ≡ ok (groups_columns, rows))
    × All (RowFits (map (λ c. c.1) groups_columns)) rows
    × (rows ≡ (str "GEOX" ∷ int (pos 1) ∷ int (pos 2) ∷ null ∷ []) ∷ [])
ags_groups-Lists_example = ags_groups-Lists engine group ((67 ∷ 68 ∷ [], refl), tt)

-- ===== src/Tests/Vectors.antt =====
-- Three rows in vectors of two, their binding, and a bind info with one parameter, for src/ffi_table.rs.
use laterite_duckdb.Base.{
  ℕ, ◌≡◌, refl, Option, none, some, List, [], ok, ◌∷◌, if◌then◌else◌, ◌==◌, nat_eq, string_eq,
}
use laterite_duckdb.Base.Int.{pos}
use laterite_duckdb.Base.Text.{has_nul}
use laterite_duckdb.Table
use laterite_duckdb.Table.{Cell, null, str, int, ColType, varchar, big_int, BindData, Columns}
use laterite_duckdb.Table.Values.{Info, param_str, named_str, text_of, allocated}
use laterite_duckdb.Table.Values.Released.{bind_texts}
use laterite_duckdb.Table.Binding.{bind, held, outcome}
use laterite_duckdb.Table.Binding.Declares.{bind-held}

abbrev three : BindData ℕ
three = record {
  col_types = varchar ∷ big_int ∷ [];
  rows = (str "a" ∷ int (pos 1) ∷ []) ∷ (str "b" ∷ null ∷ []) ∷ (null ∷ int (pos 3) ∷ []) ∷ [];
}

abbrev two_columns : Columns
two_columns = ("a", varchar) ∷ ("b", big_int) ∷ []

bind-held_example :
    held (bind (ok (two_columns, three.rows)) []).1
    ≡ outcome (Table.bind (ok (two_columns, three.rows)))
bind-held_example = bind-held (ok (two_columns, three.rows))

-- The positional parameter 0 is there, and is a text; `edition` is there, and is none.
abbrev info : Info
info = record {
  Value = Option (List ℕ);
  parameter = λ index. if index == 0 then some (some (65 ∷ [])) else none;
  named_parameter = λ name. if name == "edition" then some none else none;
  varchar = λ value. value;
  lossy = λ bytes. "A";
}

bind_texts_example :
    ((param_str info 0 []).0 ≡ Table.param_str 0 (text_of info (info.parameter 0)))
    × (allocated (param_str info 0 []).1 ≡ allocated [])
    × ((named_str info "edition" []).0
        ≡ Table.named_str (text_of info (info.named_parameter "edition")))
    × (allocated (named_str info "edition" []).1 ≡ allocated [])
unfolding has_nul
bind_texts_example = bind_texts info 0 "edition" [] refl

-- ===== src/Tests/Registration.antt =====
-- A DuckDB that makes no table function after sixty calls, for src/ffi_table.rs and src/lib.rs.
use laterite_duckdb.Base.{refl, true, [], ◌∷◌, length, leb, some, ok}
use laterite_duckdb.Base.Text.{has_nul}
use laterite_duckdb.Register.{Replies, register_table, init_c_api}
use laterite_duckdb.Register.Parameters.{text_function}
use laterite_duckdb.Register.Complete.{Registers, register_table-Registers}
use laterite_duckdb.Register.Init.{Ended, init_c_api-Ended}
use laterite_duckdb.Register.Session.{session}

abbrev replies : Replies
replies = record {
  has_api = λ log. ok true;
  has_get_database = true;
  has_set_error = true;
  finds_database = λ log. true;
  connects = λ log. true;
  creates = λ log. leb (length log) 60;
  registers = λ log. true;
}

register_table-Registers_example :
    Registers replies
      (register_table replies "read_ags" 2 ("encoding" ∷ []))
      (text_function "read_ags" 2 ("encoding" ∷ []) ∷ [])
unfolding has_nul
register_table-Registers_example =
    register_table-Registers replies "read_ags" 2 ("encoding" ∷ []) (refl, (refl, tt))

init_c_api-Ended_example :
    Ended replies
      (some true)
      (init_c_api replies []).0
      (session [])
      (session (init_c_api replies []).1)
init_c_api-Ended_example = init_c_api-Ended replies []

-- ===== src/Register.antt =====
-- src/ffi_table.rs, `register_table`, the `register` functions of the modules, and src/lib.rs. The
-- state is the log of the C calls made so far, the last one first. What DuckDB answers is a parameter.
pub mod Session
pub mod Parameters
pub mod Complete
pub mod Init
use laterite_duckdb.Base.{
  ℕ, zero, suc, ◌+◌, ◌<>◌, not, ◌&&◌, String, Bool, true, false, Option, none, some, List, [], ◌∷◌,
  if◌then◌else◌, Result, ok, err, panic,
}
use laterite_duckdb.Base.Io.{Io, pure, lift, ◌>>=◌, ◌>>◌}
use laterite_duckdb.Base.Text.{has_nul, nul_error}
use laterite_duckdb.Table.{LogicalType, type_varchar}

-- The calls, each with its arguments; a call that may fail carries its answer.
pub data Call : Type 0 where
  api_init : String → Call
  get_database : Call
  connect : Bool → Call
  disconnect : Call
  set_error : String → Call
  create_table_function : Bool → Call
  set_name : String → Call
  create_logical_type : LogicalType → Call
  add_parameter : LogicalType → Call
  add_named_parameter : String → LogicalType → Call
  destroy_logical_type : Call
  set_bind set_init set_function set_extra_info : Call
  register_table_function : Bool → Call
  destroy_table_function : Call

abbrev pub Log : Type 0
Log = List Call

-- DuckDB's answers, which may depend on all the calls so far.
pub record Replies : Type 0 where
  -- `duckdb_rs_extension_api_init`
  pub has_api : Log → Result Bool
  -- whether `access` has `get_database` and `set_error`
  pub has_get_database : Bool
  pub has_set_error : Bool
  -- whether the pointer is not null
  pub finds_database : Log → Bool
  pub connects : Log → Bool
  pub creates : Log → Bool
  -- whether the state is `DuckDBSuccess`
  pub registers : Log → Bool

abbrev pub call : Call → Io Log (Unit {0})
call c log = (ok tt, c ∷ log)

-- A call with its answer.
abbrev pub ask : (Log → Bool) → (Bool → Call) → Io Log Bool
ask answer c log = (ok (answer log), c (answer log) ∷ log)

-- `CString::new(..)?` for the text of an argument
abbrev pub c_string : String → Io Log (Unit {0})
c_string s = lift (if has_nul s then err (nul_error s) else ok tt)

-- The two loops over the parameters. DuckDB copies a logical type, so that each is destroyed at
-- once.
unfoldable pub add_parameters : ℕ → Io Log (Unit {0})
add_parameters zero = pure tt
add_parameters (suc n) = do
  call (create_logical_type type_varchar)
  call (add_parameter type_varchar)
  call destroy_logical_type
  add_parameters n

unfoldable pub add_named_parameters : List String → Io Log (Unit {0})
add_named_parameters [] = pure tt
add_named_parameters (name ∷ named) = do
  c_string name
  call (create_logical_type type_varchar)
  call (add_named_parameter name type_varchar)
  call destroy_logical_type
  add_named_parameters named

module _ (D : Replies) where
  -- From the three callbacks on.
  unfoldable pub finish_table : String → Io Log (Unit {0})
  finish_table name = do
    call set_bind
    call set_init
    call set_function
    call set_extra_info
    done ← ask D.registers register_table_function
    call destroy_table_function
    lift (if done then ok tt else err ("failed to register table function '" <> (name <> "'")))

  -- Past the test for null.
  unfoldable pub describe_table : String → ℕ → List String → Io Log (Unit {0})
  unfolding add_parameters add_named_parameters finish_table
  describe_table name n named = do
    c_string name
    call (set_name name)
    add_parameters n
    add_named_parameters named
    finish_table name

  unfoldable pub register_table : String → ℕ → List String → Io Log (Unit {0})
  unfolding describe_table
  register_table name n named = do
    created ← ask D.creates create_table_function
    (if created
        then describe_table name n named
        else lift (err "duckdb_create_table_function returned null"))

  -- The `register` functions of src/meta.rs, src/read_ags.rs, src/dict_fns.rs, src/load.rs and
  -- src/to_duckdb.rs.
  unfoldable pub register_meta : Io Log (Unit {0})
  register_meta = do register_table "ags_groups" 1 []; register_table "ags_headings" 1 []

  unfoldable pub register_read_ags : Io Log (Unit {0})
  register_read_ags = register_table "read_ags" 2 ("encoding" ∷ [])

  unfoldable pub register_text : Io Log (Unit {0})
  register_text = register_table "read_ags_text" 2 []

  unfoldable pub register_dict_fns : Io Log (Unit {0})
  register_dict_fns = do
    register_table "ags_dictionary" 0 ("edition" ∷ [])
    register_table "ags_relationships" 0 []
    register_table "ags_rules" 0 []

  unfoldable pub register_load : Io Log (Unit {0})
  register_load = register_table "load_ags" 1 []

  unfoldable pub register_to_duckdb : Io Log (Unit {0})
  register_to_duckdb = register_table "to_duckdb" 2 []

  -- `register` of src/lib.rs
  unfoldable pub register : Io Log (Unit {0})
  unfolding register_meta register_read_ags register_text register_dict_fns register_load
      register_to_duckdb
  register = do
    register_meta
    register_read_ags
    register_text
    register_dict_fns
    register_load
    register_to_duckdb

  -- The registration over a connection of its own; `result?` comes after the disconnection.
  unfoldable pub register_connected : Io Log Bool
  register_connected log =
      let (result, log') = register log in (call disconnect >> (lift result >> pure true)) log'

  unfoldable pub with_database : Io Log Bool
  unfolding register_connected
  with_database = do
    connected ← ask D.connects connect
    (if connected
        then register_connected
        else lift (err "failed to open a connection to register functions"))

  -- Past the version check.
  unfoldable pub init_database : Io Log Bool
  unfolding with_database
  init_database = do
    lift (if D.has_get_database then ok tt else err "duckdb_extension_access.get_database is null")
    found ← ask D.finds_database (λ _. get_database)
    (if found then with_database else pure false)

  unfoldable pub init_internal : Io Log Bool
  unfolding init_database
  init_internal = do
    have_api ← λ log. (D.has_api log, api_init "v1.5.6" ∷ log)
    (if have_api then init_database else pure false)

  -- `laterite_ags4_init_c_api`: what it returns, or none for a panic that unwinds through it.
  unfoldable pub report : Result Bool → Log → Option Bool × Log
  report (ok v) log = (some v, log)
  report (err e) log =
      (some false, if D.has_set_error && not (has_nul e) then set_error e ∷ log else log)
  report panic log = (none, log)

  unfoldable pub init_c_api : Log → Option Bool × Log
  unfolding init_internal report
  init_c_api log = let (r, log') = init_internal log in report r log'

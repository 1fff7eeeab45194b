-- ===== src/Functions.antt =====
-- The table functions of src/lib.rs: the producer of each, and a query, which is bound by
-- src/ffi_table.rs and then scanned.
pub mod Typed
pub mod Delivers
pub mod Read
pub mod Valid
pub mod Bounded
use laterite_duckdb.Base.{
  ℕ, zero, suc, ◌+◌, String, Option, none, some, List, [], ◌∷◌, Result, ok, err, panic,
}
use laterite_duckdb.Base.Io.{Io, lift, continue, ◌>>=◌}
use laterite_duckdb.DictFns
use laterite_duckdb.Engine.{Engine, Registry, Dictionaries, Catalogue}
use laterite_duckdb.Host.{Host}
use laterite_duckdb.Meta
use laterite_duckdb.Reader
use laterite_duckdb.Reader.{Encodings, State, with_vfs, read_parsed}
use laterite_duckdb.Script.{script_columns, load_rows, to_duckdb_rows}
use laterite_duckdb.Table.{Columns, Rows, Bound, LogicalType, param_str, named_str, bind, init}
use laterite_duckdb.Table.Vectors.{Vector, DataChunk, scan}
use laterite_duckdb.Typing.{Types}

-- A value of a parameter, as `param_str` and `named_str` take it.
abbrev pub Arg : Type 0
Arg = Option (Option String)

-- A call of a table function. A text comes with its UTF-8 bytes.
pub data Query : Type 0 where
  ags_groups ags_headings load_ags : Arg → Query
  read_ags : Arg → Arg → Arg → Query
  read_ags_text : (String → List ℕ) → Arg → Arg → Query
  ags_dictionary : Arg → Query
  ags_relationships ags_rules : Query
  to_duckdb : Arg → Arg → Query

-- Everything outside the repository.
pub record Outside : Type 1 where
  pub C : Encodings
  pub E : Engine
  pub H : Host
  pub T : Types
  pub R : Registry
  pub D : Dictionaries
  pub J : Catalogue
  -- the modulus of `usize`
  pub word : ℕ

module _ (O : Outside) where
  open O use {C, E, H, T, R, D, J, word}

  abbrev pub Process : Type 0
  Process = State C E H word

  abbrev pub Made : Type 0
  Made = Columns × Rows T.F64

  -- What the producers of a path have in common: the parse, and what is made of it.
  unfoldable pub on_parsed : {A : Type 0} → String → (E.ParsedAgs4 → Result A) → Io Process A
  unfolding with_vfs read_parsed
  on_parsed path f = with_vfs C E H word (do parsed ← read_parsed C E H word path; lift (f parsed))

  unfoldable pub produce_groups : Arg → Io Process Made
  unfolding param_str on_parsed Meta.ags_groups
  produce_groups path_param = do
    path ← lift (param_str 0 path_param)
    on_parsed path (λ parsed. Meta.ags_groups E parsed)

  unfoldable pub produce_headings : Arg → Io Process Made
  unfolding param_str on_parsed Meta.ags_headings
  produce_headings path_param = do
    path ← lift (param_str 0 path_param)
    on_parsed path (λ parsed. Meta.ags_headings E R T parsed)

  unfoldable pub produce_load : Arg → Io Process Made
  unfolding param_str on_parsed load_rows
  produce_load path_param = do
    path ← lift (param_str 0 path_param)
    on_parsed path (λ parsed. ok (script_columns, load_rows E path parsed))

  unfoldable pub produce_to_duckdb : Arg → Arg → Io Process Made
  unfolding param_str on_parsed to_duckdb_rows
  produce_to_duckdb path_param out_param = do
    path ← lift (param_str 0 path_param)
    out ← lift (param_str 1 out_param)
    on_parsed path (λ parsed. ok (script_columns, to_duckdb_rows E path out parsed))

  unfoldable pub produce : Query → Io Process Made
  unfolding produce_groups produce_headings produce_load produce_to_duckdb Reader.read_ags
      Reader.read_ags_text DictFns.ags_dictionary DictFns.ags_relationships DictFns.ags_rules
      named_str
  produce (ags_groups path) = produce_groups path
  produce (ags_headings path) = produce_headings path
  produce (load_ags path) = produce_load path
  produce (read_ags path group encoding) = Reader.read_ags C E H word T path group encoding
  produce (read_ags_text as_bytes content group) =
      Reader.read_ags_text C E H word T as_bytes content group
  produce (ags_dictionary edition) = lift (DictFns.ags_dictionary R D T (named_str edition))
  produce ags_relationships = lift (DictFns.ags_relationships R T)
  produce ags_rules = lift (DictFns.ags_rules J)
  produce (to_duckdb path out) = produce_to_duckdb path out

  -- DuckDB's chunk for one call of the scan: a vector for each declared column, over what lies in
  -- its memory.
  abbrev pub vectors_at : (ℕ → Vector T.F64) → ℕ → List (String × LogicalType) → List (Vector T.F64)
  vectors_at memory c [] = []
  vectors_at memory c (column ∷ declared) = memory c ∷ vectors_at memory (c + 1) declared

  -- The chunks of so many calls, from call `i` on.
  abbrev pub chunks_for :
      (ℕ → ℕ → Vector T.F64) → ℕ → ℕ → List (String × LogicalType) → List (DataChunk T.F64)
  chunks_for memory i zero declared = []
  chunks_for memory i (suc calls) declared =
      record { vectors = vectors_at (memory i) 0 declared; size = 0 }
      ∷ chunks_for memory (i + 1) calls declared

  -- The query is bound, and then DuckDB calls the scan as often as it is told, each time on a chunk
  -- with the columns that were declared: what was bound, and the chunks that were filled.
  unfoldable pub run :
      ℕ → (ℕ → ℕ → Vector T.F64) → ℕ → Query → Io Process (Bound T.F64 × List (DataChunk T.F64))
  unfolding produce bind scan
  run vector_size memory calls query s =
      let (made, s') = produce query s in
      continue (bind made)
        (λ bound. do
          filled ←
              lift
                (scan vector_size bound.bind_data (chunks_for memory 0 calls bound.declared) init)
          lift (ok (bound, filled)))
        s'

  -- Queries one after another, on one thread.
  unfoldable pub run_all : List Query → Process → Process
  unfolding produce
  run_all [] s = s
  run_all (query ∷ queries) s = run_all queries (produce query s).1

-- ===== src/Lifecycle/Queries.antt =====
-- src/lib.rs and src/read_ags.rs: what the queries hold of DuckDB's at their end.
use laterite_duckdb.Base.{
  ℕ, ◌≡◌, String, Bool, true, false, Option, none, some, List, [], ◌∷◌, Result,
}
use laterite_duckdb.Base.Io.{Io, lift, ◌>>=◌}
use laterite_duckdb.Base.Text.{trim}
use laterite_duckdb.Cert.{sliced_group}
use laterite_duckdb.Functions.{
  Arg, Query, Outside, Process, on_parsed, produce_groups, produce_headings, produce_load,
  produce_to_duckdb, produce, run_all,
}
use laterite_duckdb.Lifecycle.{Held, idle, bound}
use laterite_duckdb.Lifecycle.Rules.{Stays, Stays-still, Stays-bind}
use laterite_duckdb.Lifecycle.Reads.{
  S, L, held, Idle, Bound, io-Bound, read_parsed_with_encoding-Bound, with_vfs-Idle,
}
use laterite_duckdb.Lifecycle.Scopes.{sliced_group-StaysBound}
use laterite_duckdb.ReadAgs.{Binding, resolve_group, binding_for}
use laterite_duckdb.Reader
use laterite_duckdb.Reader.{
  resolve_encoding, try_slice, parse_text, build_output, output_of, whole_file, serve, read_parsed,
  read_parsed_with_encoding,
}
use laterite_duckdb.Table.{param_str, named_str}

module _ (O : Outside) where
  open O use {C, E, T, R, D, J, word}

  -- A step on the arguments alone, and then the rest.
  after :
      {A B : Type 0} (a : Held) (r : Result A) {f : A → Io (Process (S O)) B}
      → ((x : A) → Stays (held O) a (f x))
      → Stays (held O) a (lift r >>= f)
  after a r k = Stays-bind (held O) a (lift r) (Stays-still (held O) a _) k

  on_parsed-Idle :
      {A : Type 0} (path : String) (f : E.ParsedAgs4 → Result A) → Idle O (on_parsed (S O) path f)
  unfolding on_parsed read_parsed
  on_parsed-Idle path f = with_vfs-Idle O _ (
      Stays-bind (held O) bound (read_parsed C E (L O) word path)
        (read_parsed_with_encoding-Bound O path C.utf_8) (λ p. Stays-still (held O) bound _))

  module _ (a : Held) where
    build_output-Stays :
        (ags : E.AgsGroup) (group : String) (binding : Binding E)
        → Stays (held O) a (build_output C E (L O) word T ags group binding)
    unfolding build_output
    build_output-Stays ags group binding = record { run = λ s h. h }

    output_of-Stays :
        (p : E.ParsedAgs4) (group : String) → Stays (held O) a (output_of C E (L O) word T p group)
    unfolding output_of
    output_of-Stays p group =
        after a (resolve_group E p group)
          (λ ags. after a (binding_for E p group) (λ binding. build_output-Stays ags group binding))

  serve-Bound :
      (path : String) (encoding : C.Encoding) (group : String)
      (sliced : Option (E.AgsGroup × Binding E))
      → Bound O (serve C E (L O) word T path encoding group sliced)
  unfolding serve whole_file
  serve-Bound path encoding group (some (ags, binding)) = build_output-Stays bound ags group binding
  serve-Bound path encoding group none =
      Stays-bind (held O) bound (read_parsed_with_encoding C E (L O) word path encoding)
        (read_parsed_with_encoding-Bound O path encoding) (λ p. output_of-Stays bound p group)

  try_slice-Bound :
      (utf_8 : Bool) (path group : String) → Bound O (try_slice C E (L O) word utf_8 path group)
  try_slice-Bound true path group =
      io-Bound O (sliced_group E (L O) word path group)
        (sliced_group-StaysBound (Outside.H O) E word path group)
  try_slice-Bound false path group = record { run = λ s h. h }

  read_ags-Idle :
      (path group label : Arg) → Idle O (Reader.read_ags C E (L O) word T path group label)
  unfolding Reader.read_ags
  read_ags-Idle path group label = after idle (param_str 0 path) (λ p.
      after idle (param_str 1 group) (λ raw.
        after idle (resolve_encoding C (named_str label)) (λ encoding. with_vfs-Idle O _ (
          Stays-bind (held O) bound
            (try_slice C E (L O) word (C.is_utf_8 encoding) p (E.to_uppercase (trim raw)))
            (try_slice-Bound (C.is_utf_8 encoding) p (E.to_uppercase (trim raw)))
            (λ sliced. serve-Bound p encoding (E.to_uppercase (trim raw)) sliced)))))

  read_ags_text-Idle :
      (as_bytes : String → List ℕ) (content group : Arg)
      → Idle O (Reader.read_ags_text C E (L O) word T as_bytes content group)
  unfolding Reader.read_ags_text
  read_ags_text-Idle as_bytes content group = after idle (param_str 0 content) (λ text.
      after idle (param_str 1 group) (λ raw.
        after idle (parse_text C E (L O) word (as_bytes text))
          (λ p. output_of-Stays idle p (E.to_uppercase (trim raw)))))

  produce_to_duckdb-Idle : (path out : Arg) → Idle O (produce_to_duckdb (S O) path out)
  unfolding produce_to_duckdb
  produce_to_duckdb-Idle path out =
      after idle (param_str 0 path) (λ p. after idle (param_str 1 out) (λ o. on_parsed-Idle p _))

  produce_groups-Idle : (path : Arg) → Idle O (produce_groups (S O) path)
  unfolding produce_groups
  produce_groups-Idle path = after idle (param_str 0 path) (λ p. on_parsed-Idle p _)

  produce_headings-Idle : (path : Arg) → Idle O (produce_headings (S O) path)
  unfolding produce_headings
  produce_headings-Idle path = after idle (param_str 0 path) (λ p. on_parsed-Idle p _)

  produce_load-Idle : (path : Arg) → Idle O (produce_load (S O) path)
  unfolding produce_load
  produce_load-Idle path = after idle (param_str 0 path) (λ p. on_parsed-Idle p _)

  produce-Idle : (query : Query) → Idle O (produce (S O) query)
  unfolding produce
  produce-Idle (Query.ags_groups path) = produce_groups-Idle path
  produce-Idle (Query.ags_headings path) = produce_headings-Idle path
  produce-Idle (Query.load_ags path) = produce_load-Idle path
  produce-Idle (Query.to_duckdb path out) = produce_to_duckdb-Idle path out
  produce-Idle (Query.read_ags path group encoding) = read_ags-Idle path group encoding
  produce-Idle (Query.read_ags_text as_bytes content group) =
      read_ags_text-Idle as_bytes content group
  produce-Idle (Query.ags_dictionary edition) = Stays-still (held O) idle _
  produce-Idle Query.ags_relationships = Stays-still (held O) idle _
  produce-Idle Query.ags_rules = Stays-still (held O) idle _

  -- On any host, and whatever the state of the cache: a sequence of queries that starts with no
  -- client context, file system, open options or file handle held, and no misuse counted, ends so,
  -- whether its queries succeed, fail or panic. A misuse is a call on an object of a kind of which
  -- none is open, a file system destroyed while a handle is open, or a context while a file system
  -- is; objects of a kind are counted, not told apart.
  pub run_all-idle :
      (queries : List Query) (s : Process (S O))
      → s.world.0 ≡ idle
      → (run_all (S O) queries s).world.0 ≡ idle
  unfolding run_all
  run_all-idle [] s h = h
  run_all-idle (query ∷ queries) s h =
      run_all-idle queries (produce (S O) query s).1 ((produce-Idle query).run s h)

-- ===== src/Functions/Valid.antt =====
-- src/lib.rs: the parse cache over a sequence of queries.
use laterite_duckdb.Base.{
  ℕ, ◌+◌, ◌*◌, ◌≤◌, ◌<◌, ◌≡◌, sym, subst, arith, String, Bool, true, false, Option, none, some,
  List, [], ◌∷◌, length, Result, ok,
}
use laterite_duckdb.Base.Io.{Io, lift, ◌>>=◌}
use laterite_duckdb.Base.Text.{trim}
use laterite_duckdb.Cache.{u64_mod}
use laterite_duckdb.Cache.Invariant.{HasRoom, IsValid}
use laterite_duckdb.DictFns
use laterite_duckdb.Functions.{
  Arg, Query, Outside, Process, on_parsed, produce_groups, produce_headings, produce_load,
  produce_to_duckdb, produce, run_all,
}
use laterite_duckdb.Meta
use laterite_duckdb.ReadAgs.{Binding, resolve_group, binding_for}
use laterite_duckdb.Reader
use laterite_duckdb.Reader.{
  State, io, resolve_encoding, try_slice, parse_text, build_output, output_of, whole_file, serve,
  read_parsed, read_parsed_with_encoding,
}
use laterite_duckdb.Reader.Valid.{
  Keeps, Keeps-io, Keeps-lift, Keeps-bind, Keeps-with_vfs, IsKept-refl,
  read_parsed_with_encoding-Keeps,
}
use laterite_duckdb.Script.{script_columns, load_rows, to_duckdb_rows}
use laterite_duckdb.Source.{max_file_bytes}
use laterite_duckdb.Table.{param_str, named_str}
use laterite_duckdb.Cert.{sliced_group}

module _ (O : Outside) (limit : ℕ) (bounded : max_file_bytes (Outside.H O) ≤ limit) where
  open O use {C, E, H, T, R, D, J, word}

  abbrev Keeping : ℕ → {A : Type 0} → Io (Process O) A → Type 0
  Keeping = Keeps C E H word limit bounded

  -- A step on the arguments alone, and then the rest.
  after :
      {A B : Type 0} (n : ℕ) (r : Result A) {f : A → Io (Process O) B}
      → ((a : A) → Keeping n (f a))
      → Keeping n (lift r >>= f)
  after n r {f} k =
      let e : 0 + n ≡ n = omega arith in
      subst (λ m. Keeping m (lift r >>= f)) e
        (Keeps-bind C E H word limit bounded 0 n (lift r) (Keeps-lift C E H word limit bounded r)
          (λ a _ _. k a))

  on_parsed-Keeps :
      {A : Type 0} (path : String) (f : E.ParsedAgs4 → Result A) → Keeping 2 (on_parsed O path f)
  unfolding on_parsed read_parsed
  on_parsed-Keeps path f = Keeps-with_vfs C E H word limit bounded _ (
      Keeps-bind C E H word limit bounded 2 0 (read_parsed C E H word path)
        (read_parsed_with_encoding-Keeps C E H word limit bounded path C.utf_8)
        (λ p _ _. Keeps-lift C E H word limit bounded (f p)))

  build_output-Keeps :
      (ags : E.AgsGroup) (group : String) (binding : Binding E)
      → Keeping 0 (build_output C E H word T ags group binding)
  unfolding build_output
  build_output-Keeps ags group binding = record {
    run = λ s room young v. IsKept-refl C E H word limit bounded 0 s.cache v;
  }

  output_of-Keeps : (p : E.ParsedAgs4) (group : String) → Keeping 0 (output_of C E H word T p group)
  unfolding output_of
  output_of-Keeps p group =
      after 0 (resolve_group E p group)
        (λ ags. after 0 (binding_for E p group) (λ binding. build_output-Keeps ags group binding))

  serve-Keeps :
      (path : String) (encoding : C.Encoding) (group : String)
      (sliced : Option (E.AgsGroup × Binding E))
      → Keeping 2 (serve C E H word T path encoding group sliced)
  unfolding serve whole_file
  serve-Keeps path encoding group none =
      Keeps-bind C E H word limit bounded 2 0 (read_parsed_with_encoding C E H word path encoding)
        (read_parsed_with_encoding-Keeps C E H word limit bounded path encoding)
        (λ p _ _. output_of-Keeps p group)
  serve-Keeps path encoding group (some (ags, binding)) = record {
    run = λ s room young v.
        let kept = (build_output-Keeps ags group binding).run s room (omega arith) v in
        record { valid = kept.valid; cap = kept.cap; clock = omega (arith, kept.clock) };
  }

  try_slice-Keeps :
      (utf_8 : Bool) (path group : String) → Keeping 0 (try_slice C E H word utf_8 path group)
  try_slice-Keeps true path group =
      Keeps-io C E H word limit bounded (sliced_group E H word path group)
  try_slice-Keeps false path group = record {
    run = λ s room young v. IsKept-refl C E H word limit bounded 0 s.cache v;
  }

  read_ags-Keeps :
      (path group label : Arg) → Keeping 2 (Reader.read_ags C E H word T path group label)
  unfolding Reader.read_ags
  read_ags-Keeps path group label = after 2 (param_str 0 path) (λ p.
      after 2 (param_str 1 group) (λ raw.
        after 2 (resolve_encoding C (named_str label)) (λ encoding.
          Keeps-with_vfs C E H word limit bounded _ (
            Keeps-bind C E H word limit bounded 0 2
              (try_slice C E H word (C.is_utf_8 encoding) p (E.to_uppercase (trim raw)))
              (try_slice-Keeps (C.is_utf_8 encoding) p (E.to_uppercase (trim raw)))
              (λ sliced _ _. serve-Keeps p encoding (E.to_uppercase (trim raw)) sliced)))))

  read_ags_text-Keeps :
      (as_bytes : String → List ℕ) (content group : Arg)
      → Keeping 0 (Reader.read_ags_text C E H word T as_bytes content group)
  unfolding Reader.read_ags_text
  read_ags_text-Keeps as_bytes content group = after 0 (param_str 0 content) (λ text.
      after 0 (param_str 1 group) (λ raw.
        after 0 (parse_text C E H word (as_bytes text))
          (λ p. output_of-Keeps p (E.to_uppercase (trim raw)))))

  produce_groups-Keeps : (path : Arg) → Keeping 2 (produce_groups O path)
  unfolding produce_groups
  produce_groups-Keeps path =
      after 2 (param_str 0 path) (λ p. on_parsed-Keeps p (λ q. Meta.ags_groups E q))

  produce_headings-Keeps : (path : Arg) → Keeping 2 (produce_headings O path)
  unfolding produce_headings
  produce_headings-Keeps path =
      after 2 (param_str 0 path) (λ p. on_parsed-Keeps p (λ q. Meta.ags_headings E R T q))

  produce_load-Keeps : (path : Arg) → Keeping 2 (produce_load O path)
  unfolding produce_load
  produce_load-Keeps path =
      after 2 (param_str 0 path)
        (λ p. on_parsed-Keeps p (λ q. ok (script_columns, load_rows E p q)))

  produce_to_duckdb-Keeps : (path out : Arg) → Keeping 2 (produce_to_duckdb O path out)
  unfolding produce_to_duckdb
  produce_to_duckdb-Keeps path out = after 2 (param_str 0 path) (λ p.
      after 2 (param_str 1 out)
        (λ o. on_parsed-Keeps p (λ q. ok (script_columns, to_duckdb_rows E p o q))))

  -- A step that keeps the cache for fewer ticks keeps it for two.
  widen : {A : Type 0} {m : Io (Process O) A} → Keeping 0 m → Keeping 2 m
  widen k = record {
    run = λ s room young v.
        let kept = k.run s room (omega arith) v in
        record { valid = kept.valid; cap = kept.cap; clock = omega (arith, kept.clock) };
  }

  pub produce-Keeps : (query : Query) → Keeping 2 (produce O query)
  unfolding produce
  produce-Keeps (Query.ags_groups path) = produce_groups-Keeps path
  produce-Keeps (Query.ags_headings path) = produce_headings-Keeps path
  produce-Keeps (Query.load_ags path) = produce_load-Keeps path
  produce-Keeps (Query.to_duckdb path out) = produce_to_duckdb-Keeps path out
  produce-Keeps (Query.read_ags path group encoding) = read_ags-Keeps path group encoding
  produce-Keeps (Query.read_ags_text as_bytes content group) =
      widen (read_ags_text-Keeps as_bytes content group)
  produce-Keeps (Query.ags_dictionary edition) =
      widen (Keeps-lift C E H word limit bounded (DictFns.ags_dictionary R D T (named_str edition)))
  produce-Keeps Query.ags_relationships =
      widen (Keeps-lift C E H word limit bounded (DictFns.ags_relationships R T))
  produce-Keeps Query.ags_rules = widen (Keeps-lift C E H word limit bounded (DictFns.ags_rules J))

  -- Any sequence of queries, of whatever table functions and whether they succeed or not, keeps a
  -- parse cache valid that was so before, with a byte limit on files of at most `limit`, room in a
  -- `usize`, and two ticks for each query before the clock wraps.
  pub run_all-IsValid :
      (queries : List Query) (s : Process O)
      → HasRoom word limit s.cache.cap
      → s.cache.clock + length queries * 2 < u64_mod
      → IsValid word limit s.cache
      → IsValid word limit (run_all O queries s).cache
  unfolding run_all
  run_all-IsValid [] s room young v = v
  run_all-IsValid (query ∷ queries) s room young v =
      let kept = (produce-Keeps query).run s room (omega arith) v in
      run_all-IsValid queries (produce O query s).1 (subst (HasRoom word limit) (sym kept.cap) room)
        (omega (arith, kept.clock)) kept.valid

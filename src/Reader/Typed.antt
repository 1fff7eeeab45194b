-- ===== src/Reader/Typed.antt =====
-- src/read_ags.rs: the tables that the producers of `read_ags` and `read_ags_text` return.
use laterite_duckdb.Base.{
  ℕ, ◌≡◌, sym, ◌∙◌, subst, String, Option, none, some, List, map, All, ok, ok-inj,
}
use laterite_duckdb.Base.Io.{Io, lift, ◌>>=◌, >>=-ok}
use laterite_duckdb.Base.Text.{trim}
use laterite_duckdb.Engine.{Engine, MintsIds}
use laterite_duckdb.Host.{Host}
use laterite_duckdb.Source.{from_bind}
use laterite_duckdb.ReadAgs.{Binding, resolve_group, binding_for}
use laterite_duckdb.ReadAgs.Shape.{build_table-RowFits}
use laterite_duckdb.Reader.{
  with_vfs, io, Encodings, State, build_output, output_of, whole_file, serve, read_ags,
  read_ags_text, read_parsed_with_encoding, resolve_encoding, try_slice, parse_text,
}
use laterite_duckdb.Table.{Columns, Rows, RowFits, param_str, named_str}
use laterite_duckdb.Typing.{Types, IsDistinct}

module _ (C : Encodings) (E : Engine) (H : Host) (word : ℕ) (T : Types) where
  -- Each row of the table has a cell of the right type for each of its columns.
  pub record IsTyped (table : Columns × Rows T.F64) : Type 0 where
    pub fits : All (RowFits (map (λ c. c.1) table.0)) table.1

  -- A table that a producer returns, if it returns one, is typed.
  pub record YieldsTyped (m : Io (State C E H word) (Columns × Rows T.F64)) : Type 0 where
    pub run :
        (s : State C E H word) (table : Columns × Rows T.F64) → (m s).0 ≡ ok table → IsTyped table

  pub YieldsTyped-bind :
      {A : Type 0} (m : Io (State C E H word) A)
      {f : A → Io (State C E H word) (Columns × Rows T.F64)}
      → ((a : A) → YieldsTyped (f a))
      → YieldsTyped (m >>= f)
  YieldsTyped-bind m {f} h = record {
    run = λ s table e. let (a, _, k) = >>=-ok m f s e in (h a).run (m s).1 table k;
  }

  pub YieldsTyped-with_vfs :
      (m : Io (State C E H word) (Columns × Rows T.F64))
      → YieldsTyped m
      → YieldsTyped (with_vfs C E H word m)
  unfolding with_vfs
  YieldsTyped-with_vfs m h =
      YieldsTyped-bind (io C E H word (from_bind H))
        (λ _. record { run = λ s table e. h.run s table e })

  module _ (distinct : IsDistinct T) (mints : MintsIds E) where
    build_output-YieldsTyped :
        (ags : E.AgsGroup) (group : String) (binding : Binding E)
        → YieldsTyped (build_output C E H word T ags group binding)
    unfolding build_output
    build_output-YieldsTyped ags group binding = record {
      run = λ s table e.
          let (columns, rows, made, _, _, fits) =
            build_table-RowFits E T distinct mints ags group binding s.pool in
          subst IsTyped (ok-inj (sym made ∙ e)) (record { fits = fits });
    }

    output_of-YieldsTyped :
        (parsed : E.ParsedAgs4) (group : String) → YieldsTyped (output_of C E H word T parsed group)
    unfolding output_of
    output_of-YieldsTyped parsed group =
        YieldsTyped-bind (lift (resolve_group E parsed group)) (λ ags.
          YieldsTyped-bind (lift (binding_for E parsed group))
            (λ binding. build_output-YieldsTyped ags group binding))

    serve-YieldsTyped :
        (path : String) (encoding : C.Encoding) (group : String)
        (sliced : Option (E.AgsGroup × Binding E))
        → YieldsTyped (serve C E H word T path encoding group sliced)
    unfolding serve whole_file
    serve-YieldsTyped path encoding group (some (ags, binding)) =
        build_output-YieldsTyped ags group binding
    serve-YieldsTyped path encoding group none =
        YieldsTyped-bind (read_parsed_with_encoding C E H word path encoding)
          (λ parsed. output_of-YieldsTyped parsed group)

    -- With a keychain that mints one id a row, or none for a keyless declaration, and type codes
    -- that are distinct: whatever way `read_ags` takes (certified slice, cached parse or fresh
    -- parse), a table that it returns has in every row a cell of the right type, or a NULL, for
    -- every column.
    pub read_ags-IsTyped :
        (path group label : Option (Option String)) (s : State C E H word)
        (table : Columns × Rows T.F64)
        → (read_ags C E H word T path group label s).0 ≡ ok table
        → IsTyped table
    unfolding read_ags
    read_ags-IsTyped path group label =
        (YieldsTyped-bind (lift (param_str 0 path)) (λ p.
          YieldsTyped-bind (lift (param_str 1 group)) (λ raw.
            YieldsTyped-bind (lift (resolve_encoding C (named_str label))) (λ encoding.
              YieldsTyped-with_vfs _ (
                YieldsTyped-bind
                  (try_slice C E H word (C.is_utf_8 encoding) p (E.to_uppercase (trim raw)))
                  (λ sliced.
                    serve-YieldsTyped p encoding (E.to_uppercase (trim raw)) sliced)))))).run

    -- With a keychain that mints one id a row, or none for a keyless declaration, and type codes
    -- that are distinct, whatever the bytes of its text: a table that `read_ags_text` returns has
    -- in every row a cell of the right type, or a NULL, for every column.
    pub read_ags_text-IsTyped :
        (as_bytes : String → List ℕ) (content group : Option (Option String)) (s : State C E H word)
        (table : Columns × Rows T.F64)
        → (read_ags_text C E H word T as_bytes content group s).0 ≡ ok table
        → IsTyped table
    unfolding read_ags_text
    read_ags_text-IsTyped as_bytes content group =
        (YieldsTyped-bind (lift (param_str 0 content)) (λ text.
          YieldsTyped-bind (lift (param_str 1 group)) (λ raw.
            YieldsTyped-bind (lift (parse_text C E H word (as_bytes text)))
              (λ parsed. output_of-YieldsTyped parsed (E.to_uppercase (trim raw)))))).run

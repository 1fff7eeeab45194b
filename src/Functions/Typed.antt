-- ===== src/Functions/Typed.antt =====
-- src/lib.rs: the tables of all producers and the types of their columns.
use laterite_duckdb.Base.{
  ℕ, suc, ◌≡◌, refl, ◌∙◌, sym, subst, String, Option, none, some, List, [], ◌∷◌, All, Result, ok,
  expect, and_then-ok, expect-ok, ok-inj, ◌++◌, ◌<>◌,
}
use laterite_duckdb.Base.Io.{Io, lift}
use laterite_duckdb.DictFns.Typed.{
  Fits, ags_dictionary-Fits, ags_relationships-Fits, ags_rules-Fits,
}
use laterite_duckdb.Engine.{Engine, Registry, MintsIds}
use laterite_duckdb.Functions.{
  Arg, Query, Outside, Process, Made, on_parsed, produce_groups, produce_headings, produce_load,
  produce_to_duckdb, produce,
}
use laterite_duckdb.Meta
use laterite_duckdb.Meta.{groups_columns, group_row, group_rows, headings_columns, all_heading_rows}
use laterite_duckdb.Meta.Headings.{ags_headings-Lists}
use laterite_duckdb.Meta.Listed.{IsPresent, ags_groups-Lists}
use laterite_duckdb.Reader.{read_parsed}
use laterite_duckdb.Reader.Typed.{
  IsTyped, YieldsTyped, YieldsTyped-bind, YieldsTyped-with_vfs, read_ags-IsTyped,
  read_ags_text-IsTyped,
}
use laterite_duckdb.Base.Text.{double_quotes}
use laterite_duckdb.Script.{to_duckdb_stmts, script_columns, load_rows, to_duckdb_rows}
use laterite_duckdb.Script.Numbered.{
  all_stmts, numbered, load_rows-numbered, to_duckdb_rows-numbered,
}
use laterite_duckdb.Table.{Cell, Columns, Rows, param_str, named_str}
use laterite_duckdb.Typing.{Types, IsDistinct}

numbered-Fits :
    (F : Type 0) (n : ℕ) (stmts : List String) → Fits {F = F} script_columns (numbered n stmts)
numbered-Fits F n [] = tt
numbered-Fits F n (s ∷ stmts) = ((tt, (tt, tt)), numbered-Fits F (suc n) stmts)

module _ (E : Engine) where
  module _ {F : Type 0} where
    -- A group that is not there panics.
    group_row-IsPresent :
        (fd : E.FileDict) (code : String) (o : Option E.AgsGroup) {row : List (Cell F)}
        → group_row E fd code o ≡ ok row
        → (g : E.AgsGroup) × (o ≡ some g)
    unfolding group_row
    group_row-IsPresent fd code none h = cc
    group_row-IsPresent fd code (some g) h = (g, refl)

    group_rows-IsPresent :
        (parsed : E.ParsedAgs4) (fd : E.FileDict) (order : List String) {rows : Rows F}
        → group_rows E parsed fd order ≡ ok rows
        → All (IsPresent E parsed) order
    unfolding group_rows
    group_rows-IsPresent parsed fd [] h = tt
    group_rows-IsPresent parsed fd (code ∷ order) h =
        let (row, first, rest) = and_then-ok (group_row E fd code (E.get_group parsed code)) _ h in
        let (_, made, _) = and_then-ok (group_rows E parsed fd order) _ rest in
        (group_row-IsPresent fd code _ first, group_rows-IsPresent parsed fd order made)

    ags_groups-Fits :
        (parsed : E.ParsedAgs4) (table : Columns × Rows F)
        → Meta.ags_groups E parsed ≡ ok table
        → Fits table.0 table.1
    unfolding Meta.ags_groups
    ags_groups-Fits parsed table h =
        let (_, made, _) =
          and_then-ok (group_rows E parsed (E.file_dict_of parsed) (E.order parsed)) _ h in
        let (rows, listed, fits, _) =
          ags_groups-Lists E {F = F} parsed
            (group_rows-IsPresent parsed (E.file_dict_of parsed) (E.order parsed) made) in
        subst (λ t. Fits t.0 t.1) (ok-inj (sym listed ∙ h)) fits

  module _ (R : Registry) (T : Types) where
    all_heading_rows-IsPresent :
        (parsed : E.ParsedAgs4) (fd : E.FileDict) (order : List String) {rows : Rows T.F64}
        → all_heading_rows E R T parsed fd order ≡ ok rows
        → All (IsPresent E parsed) order
    unfolding all_heading_rows
    all_heading_rows-IsPresent parsed fd [] h = tt
    all_heading_rows-IsPresent parsed fd (code ∷ order) h =
        let (g, first, rest) = and_then-ok (expect (E.get_group parsed code)) _ h in
        let (_, made, _) = and_then-ok (all_heading_rows E R T parsed fd order) _ rest in
        (
          (g, expect-ok (E.get_group parsed code) g first),
          all_heading_rows-IsPresent parsed fd order made,
        )

    ags_headings-Fits :
        (parsed : E.ParsedAgs4) (table : Columns × Rows T.F64)
        → Meta.ags_headings E R T parsed ≡ ok table
        → Fits table.0 table.1
    unfolding Meta.ags_headings
    ags_headings-Fits parsed table h =
        let (_, made, _) =
          and_then-ok (all_heading_rows E R T parsed (E.file_dict_of parsed) (E.order parsed)) _
            h in
        let (rows, listed, (fits, _)) =
          ags_headings-Lists E R T parsed
            (all_heading_rows-IsPresent parsed (E.file_dict_of parsed) (E.order parsed) made) in
        subst (λ t. Fits t.0 t.1) (ok-inj (sym listed ∙ h)) fits

module _ (O : Outside) where
  open O use {C, E, H, T, R, D, J, word}

  abbrev Yields : Io (Process O) (Made O) → Type 0
  Yields = YieldsTyped C E H word T

  lift-Yields :
      (r : Result (Made O))
      → ((table : Made O) → r ≡ ok table → Fits table.0 table.1)
      → Yields (lift r)
  lift-Yields r f = record { run = λ s table h. record { fits = f table h } }

  on_parsed-Yields :
      (p : String) (f : E.ParsedAgs4 → Result (Made O))
      → ((parsed : E.ParsedAgs4) (table : Made O) → f parsed ≡ ok table → Fits table.0 table.1)
      → Yields (on_parsed O p f)
  unfolding on_parsed
  on_parsed-Yields p f typed = YieldsTyped-with_vfs C E H word T _ (
      YieldsTyped-bind C E H word T (read_parsed C E H word p)
        (λ parsed. lift-Yields (f parsed) (typed parsed)))

  load_rows-Fits :
      (p : String) (parsed : E.ParsedAgs4) → Fits {F = T.F64} script_columns (load_rows E p parsed)
  load_rows-Fits p parsed = rw (load_rows-numbered E p parsed) (numbered-Fits T.F64 0 _)

  to_duckdb_rows-Fits :
      (p out : String) (parsed : E.ParsedAgs4)
      → Fits {F = T.F64} script_columns (to_duckdb_rows E p out parsed)
  to_duckdb_rows-Fits p out parsed = rw (to_duckdb_rows-numbered E p out parsed) (
      numbered-Fits T.F64 0 (
        (("ATTACH '" <> (double_quotes out <> "' AS _lat_out;"))
          ∷ all_stmts (to_duckdb_stmts E (double_quotes p)) (E.order parsed))
        ++ "DETACH _lat_out;" ∷ []))

  produce_groups-Yields : (path : Arg) → Yields (produce_groups O path)
  unfolding produce_groups
  produce_groups-Yields path =
      YieldsTyped-bind C E H word T (lift (param_str 0 path))
        (λ p. on_parsed-Yields p (λ parsed. Meta.ags_groups E parsed) (ags_groups-Fits E))

  produce_headings-Yields : (path : Arg) → Yields (produce_headings O path)
  unfolding produce_headings
  produce_headings-Yields path =
      YieldsTyped-bind C E H word T (lift (param_str 0 path)) (λ p.
        on_parsed-Yields p (λ parsed. Meta.ags_headings E R T parsed) (ags_headings-Fits E R T))

  produce_load-Yields : (path : Arg) → Yields (produce_load O path)
  unfolding produce_load
  produce_load-Yields path = YieldsTyped-bind C E H word T (lift (param_str 0 path)) (λ p.
      on_parsed-Yields p (λ parsed. ok (script_columns, load_rows E p parsed))
        (λ parsed table h. subst (λ t. Fits t.0 t.1) (ok-inj h) (load_rows-Fits p parsed)))

  produce_to_duckdb-Yields : (path out : Arg) → Yields (produce_to_duckdb O path out)
  unfolding produce_to_duckdb
  produce_to_duckdb-Yields path out = YieldsTyped-bind C E H word T (lift (param_str 0 path)) (λ p.
      YieldsTyped-bind C E H word T (lift (param_str 1 out)) (λ o.
        on_parsed-Yields p (λ parsed. ok (script_columns, to_duckdb_rows E p o parsed))
          (λ parsed table h.
            subst (λ t. Fits t.0 t.1) (ok-inj h) (to_duckdb_rows-Fits p o parsed))))

  module _ (distinct : IsDistinct T) (mints : MintsIds E) where
    -- With a keychain that mints one id a row, or none for a keyless declaration, and type codes
    -- that are distinct: a table that any producer returns has in every row a cell of the right
    -- type, or a NULL, for every column.
    pub produce-IsTyped :
        (query : Query) (s : Process O) (table : Made O)
        → (produce O query s).0 ≡ ok table
        → IsTyped C E H word T table
    unfolding produce
    produce-IsTyped (Query.ags_groups path) = (produce_groups-Yields path).run
    produce-IsTyped (Query.ags_headings path) = (produce_headings-Yields path).run
    produce-IsTyped (Query.load_ags path) = (produce_load-Yields path).run
    produce-IsTyped (Query.to_duckdb path out) = (produce_to_duckdb-Yields path out).run
    produce-IsTyped (Query.read_ags path group encoding) =
        read_ags-IsTyped C E H word T distinct mints path group encoding
    produce-IsTyped (Query.read_ags_text as_bytes content group) =
        read_ags_text-IsTyped C E H word T distinct mints as_bytes content group
    produce-IsTyped (Query.ags_dictionary edition) =
        λ s table h. record { fits = ags_dictionary-Fits R D T (named_str edition) table h }
    produce-IsTyped Query.ags_relationships =
        λ s table h. record { fits = ags_relationships-Fits R D T table h }
    produce-IsTyped Query.ags_rules = λ s table h. record { fits = ags_rules-Fits J T.F64 table h }

-- ===== src/DictFns/Typed.antt =====
-- src/dict_fns.rs: the rows of the dictionary functions and the types of their columns.
use laterite_duckdb.Base.{
  expect, and_then-ok, ok-inj, subst, ℕ, ◌+◌, ap, ◌∙◌, ◌≡◌, String, Bool, Option, none, some, List,
  [], ◌∷◌, map, All, All-append, ok,
}
use laterite_duckdb.DictFns.{
  dictionary_columns, relationships_columns, rules_columns, not_empty, edition_row, edition_group,
  edition_groups, edition_rows, union_row, union_group, union_groups, relationship_rows,
  dictionary_rows, ags_dictionary, parse_version, ags_relationships, ags_rules, bool_cell,
  text_field, rule_row, rule_rows,
}
use laterite_duckdb.Engine.{Registry, Dictionaries, Catalogue}
use laterite_duckdb.Table.{
  str, Conforms, boolean, Columns, Rows, RowFits, text_cell-Conforms, unless_empty-Conforms,
}
use laterite_duckdb.Typing.{Types}
use laterite_duckdb.Base.Sort.{sort}
use laterite_duckdb.Base.Text.{join}
use mathlib.Core.Option

-- Every row fits the columns.
abbrev pub Fits : {F : Type 0} → Columns → Rows F → Type 0
Fits columns = All (RowFits (map (λ c. c.1) columns))

module _ (D : Dictionaries) (T : Types) where
  edition_group-Fits :
      (d : D.Dictionary) (code : String) (parent : Option String) (i : ℕ) (hs : List String)
      → Fits dictionary_columns (edition_group D T d code parent i hs)
  unfolding edition_group edition_row
  edition_group-Fits d code parent i [] = tt
  edition_group-Fits d code parent i (h ∷ hs) = (
    (
      tt,
      (
        text_cell-Conforms T.F64 parent,
        (
          tt,
          (tt, (tt, (tt, (text_cell-Conforms T.F64 _, (text_cell-Conforms T.F64 _, (tt, tt)))))),
        ),
      ),
    ),
    edition_group-Fits d code parent (i + 1) hs,
  )

  pub edition_groups-Fits :
      (d : D.Dictionary) (codes : List String)
      → Fits dictionary_columns (edition_groups D T d codes)
  unfolding edition_groups
  edition_groups-Fits d [] = tt
  edition_groups-Fits d (code ∷ codes) =
      All-append _
        (edition_group D T d code (not_empty (D.group_parent d code)) 0 (D.group_headings d code)) _
        (edition_group-Fits d code _ 0 (D.group_headings d code)) (edition_groups-Fits d codes)

module _ (R : Registry) (T : Types) where
  union_group-Fits :
      (g : R.Group) (i : ℕ) (hs : List R.Heading) → Fits dictionary_columns (union_group R T g i hs)
  unfolding union_group union_row
  union_group-Fits g i [] = tt
  union_group-Fits g i (h ∷ hs) = (
    (
      tt,
      (
        text_cell-Conforms T.F64 (R.parent g),
        (
          tt,
          (tt, (tt, (tt, (text_cell-Conforms T.F64 _, (unless_empty-Conforms T.F64 _, (tt, tt)))))),
        ),
      ),
    ),
    union_group-Fits g (i + 1) hs,
  )

  pub union_groups-Fits : (gs : List R.Group) → Fits dictionary_columns (union_groups R T gs)
  unfolding union_groups
  union_groups-Fits [] = tt
  union_groups-Fits (g ∷ gs) =
      All-append _ (union_group R T g 0 (R.headings g)) _ (union_group-Fits g 0 (R.headings g))
        (union_groups-Fits gs)

module _ (R : Registry) (T : Types) where
  pub relationship_rows-Fits :
      (gs : List R.Group) → Fits relationships_columns (relationship_rows R T gs)
  unfolding relationship_rows
  relationship_rows-Fits [] = tt
  relationship_rows-Fits (g ∷ gs) =
      elim (R.parent g)
        as (λ p. Fits relationships_columns (elim p [
          | none ↦ relationship_rows R T gs
          | some parent ↦
              (str (R.code g) ∷ str parent ∷ str (join (R.shared_keys g) ",") ∷ [])
              ∷ relationship_rows R T gs
        ])) [
          | none ↦ relationship_rows-Fits gs
          | some parent ↦ ((tt, (tt, (tt, tt))), relationship_rows-Fits gs)
        ]

module _ (R : Registry) (D : Dictionaries) (T : Types) where
  pub ags_dictionary-Fits :
      (edition : Option String) (table : Columns × Rows T.F64)
      → ags_dictionary R D T edition ≡ ok table
      → Fits table.0 table.1
  unfolding ags_dictionary dictionary_rows edition_rows
  ags_dictionary-Fits none table h =
      subst (λ t. Fits t.0 t.1) (ok-inj h) (union_groups-Fits R T R.iter)
  ags_dictionary-Fits (some e) table h =
      let (rows, made, whole) = and_then-ok (dictionary_rows R D T (some e)) _ h in
      let (version, _, listed) = and_then-ok (parse_version D T e) _ made in
      subst (λ t. Fits t.0 t.1) (ap (λ r. (dictionary_columns, r)) (ok-inj listed) ∙ ok-inj whole)
        (edition_groups-Fits D T (D.bundled version) (sort (D.group_codes (D.bundled version))))

  pub ags_relationships-Fits :
      (table : Columns × Rows T.F64) → ags_relationships R T ≡ ok table → Fits table.0 table.1
  unfolding ags_relationships
  ags_relationships-Fits table h =
      subst (λ t. Fits t.0 t.1) (ok-inj h) (relationship_rows-Fits R T R.iter)

module _ (J : Catalogue) (F : Type 0) where
  bool_cell-Conforms : (b : Option Bool) → Conforms {F = F} boolean (bool_cell J b)
  bool_cell-Conforms none = tt
  bool_cell-Conforms (some b) = tt

  pub rule_rows-Fits : (rs : List J.Value) → Fits {F = F} rules_columns (rule_rows J rs)
  unfolding rule_rows rule_row text_field
  rule_rows-Fits [] = tt
  rule_rows-Fits (r ∷ rs) = (
    (
      text_cell-Conforms F _,
      (
        text_cell-Conforms F _,
        (
          text_cell-Conforms F _,
          (text_cell-Conforms F _, (bool_cell-Conforms _, (unless_empty-Conforms F _, tt))),
        ),
      ),
    ),
    rule_rows-Fits rs,
  )

  pub ags_rules-Fits : (table : Columns × Rows F) → ags_rules J ≡ ok table → Fits table.0 table.1
  unfolding ags_rules
  ags_rules-Fits table h =
      let (meta, _, made) = and_then-ok (expect J.rule_metadata) _ h in
      subst (λ t. Fits t.0 t.1) (ok-inj made)
        (rule_rows-Fits (Option.get_or (Option.bind (J.field meta "rules") J.as_array) []))

-- ===== src/DictFns.antt =====
-- src/dict_fns.rs: the rows of `ags_dictionary`, `ags_relationships` and `ags_rules`.
pub mod Typed
pub mod Listed
pub mod Rules
pub mod Editions
use laterite_duckdb.Base.{
  ℕ, ◌+◌, ◌<>◌, String, Bool, true, false, Option, none, some, List, [], ◌∷◌, ◌++◌, if◌then◌else◌,
  Result, expect, ok, err, panic, ◌>>=◌,
}
use laterite_duckdb.Base.Int.{as_i64}
use laterite_duckdb.Base.Sort.{sort}
use laterite_duckdb.Base.Text.{is_empty, join}
use laterite_duckdb.Cert.{parse_edition}
use laterite_duckdb.Engine.{Registry, Dictionaries, Catalogue}
use laterite_duckdb.Table.{
  Cell, null, str, int, bool, text_cell, unless_empty, varchar, big_int, boolean, Columns, Rows,
}
use laterite_duckdb.Typing.{Types}
use mathlib.Core.Option

abbrev pub dictionary_columns : Columns
dictionary_columns =
    ("group", varchar)
    ∷ ("parent", varchar)
    ∷ ("heading", varchar)
    ∷ ("status", varchar)
    ∷ ("ags_type", varchar)
    ∷ ("sql_type", varchar)
    ∷ ("unit", varchar)
    ∷ ("description", varchar)
    ∷ ("ordinal", big_int)
    ∷ []

abbrev pub relationships_columns : Columns
relationships_columns = ("child", varchar) ∷ ("parent", varchar) ∷ ("shared_keys", varchar) ∷ []

abbrev pub rules_columns : Columns
rules_columns =
    ("rule", varchar)
    ∷ ("title", varchar)
    ∷ ("checks", varchar)
    ∷ ("severity", varchar)
    ∷ ("fixable", boolean)
    ∷ ("observations", varchar)
    ∷ []

-- `filter(|s| !s.is_empty())`
abbrev pub not_empty : Option String → Option String
not_empty none = none
not_empty (some s) = if is_empty s then none else some s

module _ (D : Dictionaries) (T : Types) where
  -- The row of an edition's heading.
  unfoldable pub edition_row :
      D.Dictionary → String → Option String → ℕ → String → List (Cell T.F64)
  edition_row d code parent i h =
      let entry = D.heading d code h in
      let ags_type = Option.get_or (Option.map D.entry_type entry) "" in
      str code
      ∷ text_cell parent
      ∷ str h
      ∷ str (Option.get_or (Option.map D.entry_status entry) "")
      ∷ str ags_type
      ∷ str (T.sql_type ags_type)
      ∷ text_cell (not_empty (Option.map D.entry_unit entry))
      ∷ text_cell (not_empty (Option.map D.entry_desc entry))
      ∷ int (as_i64 i)
      ∷ []

  unfoldable pub edition_group :
      D.Dictionary → String → Option String → ℕ → List String → Rows T.F64
  unfolding edition_row
  edition_group d code parent i [] = []
  edition_group d code parent i (h ∷ hs) =
      edition_row d code parent i h ∷ edition_group d code parent (i + 1) hs

  -- The loop over the sorted codes.
  unfoldable pub edition_groups : D.Dictionary → List String → Rows T.F64
  unfolding edition_group
  edition_groups d [] = []
  edition_groups d (code ∷ codes) =
      edition_group d code (not_empty (D.group_parent d code)) 0 (D.group_headings d code)
      ++ edition_groups d codes

  unfoldable pub edition_rows : D.DictVersion → Rows T.F64
  unfolding edition_groups sort
  edition_rows version = let d = D.bundled version in edition_groups d (sort (D.group_codes d))

  -- The five versions that `parse_edition` knows.
  abbrev pub parse_version : String → Result D.DictVersion
  parse_version = parse_edition (record {
    v4_0_3 = D.v4_0_3;
    v4_0_4 = D.v4_0_4;
    v4_1 = D.v4_1;
    v4_1_1 = D.v4_1_1;
    v4_2 = D.v4_2;
  })

module _ (R : Registry) (T : Types) where
  -- The row of a registry's heading.
  unfoldable pub union_row : R.Group → ℕ → R.Heading → List (Cell T.F64)
  union_row g i h =
      str (R.code g)
      ∷ text_cell (R.parent g)
      ∷ str (R.name h)
      ∷ str (R.status h)
      ∷ str (R.ags_type h)
      ∷ str (T.sql_type (R.ags_type h))
      ∷ text_cell (not_empty (R.unit h))
      ∷ unless_empty (R.description h)
      ∷ int (as_i64 i)
      ∷ []

  unfoldable pub union_group : R.Group → ℕ → List R.Heading → Rows T.F64
  unfolding union_row
  union_group g i [] = []
  union_group g i (h ∷ hs) = union_row g i h ∷ union_group g (i + 1) hs

  unfoldable pub union_groups : List R.Group → Rows T.F64
  unfolding union_group
  union_groups [] = []
  union_groups (g ∷ gs) = union_group g 0 (R.headings g) ++ union_groups gs

  -- The rows of `ags_relationships`.
  unfoldable pub relationship_rows : List R.Group → Rows T.F64
  unfolding join
  relationship_rows [] = []
  relationship_rows (g ∷ gs) =
      let rest = relationship_rows gs in
      elim (R.parent g) [
        | none ↦ rest
        | some parent ↦ (str (R.code g) ∷ str parent ∷ str (join (R.shared_keys g) ",") ∷ []) ∷ rest
      ]

  unfoldable pub ags_relationships : Result (Columns × Rows T.F64)
  unfolding relationship_rows
  ags_relationships = ok (relationships_columns, relationship_rows R.iter)

module _ (R : Registry) (D : Dictionaries) (T : Types) where
  unfoldable pub dictionary_rows : Option String → Result (Rows T.F64)
  unfolding parse_edition edition_rows union_groups
  dictionary_rows none = ok (union_groups R T R.iter)
  dictionary_rows (some e) = do version ← parse_version D T e; ok (edition_rows D T version)

  -- `ags_dictionary`, given its named parameter as `named_str` reads it.
  unfoldable pub ags_dictionary : Option String → Result (Columns × Rows T.F64)
  unfolding dictionary_rows
  ags_dictionary edition = do rows ← dictionary_rows edition; ok (dictionary_columns, rows)

module _ (J : Catalogue) where
  -- `filter_map(|x| x.get("id").unwrap_or(x).as_str())`
  unfoldable pub observation_ids : List J.Value → List String
  observation_ids [] = []
  observation_ids (x ∷ xs) =
      let rest = observation_ids xs in
      elim (J.as_str (Option.get_or (J.field x "id") x)) [ none ↦ rest | some id ↦ id ∷ rest ]

  unfoldable pub observations : J.Value → String
  unfolding observation_ids join
  observations r =
      Option.get_or
        (Option.map (λ a. join (observation_ids a) ",")
          (Option.bind (J.field r "observations") J.as_array))
        ""

module _ (J : Catalogue) {F : Type 0} where
  -- The closure `s`
  unfoldable pub text_field : J.Value → String → Cell F
  text_field r k = text_cell (not_empty (Option.bind (J.field r k) J.as_str))

  abbrev pub bool_cell : Option Bool → Cell F
  bool_cell none = null
  bool_cell (some b) = bool b

  unfoldable pub rule_row : J.Value → List (Cell F)
  unfolding text_field observations
  rule_row r =
      text_field r "rule"
      ∷ text_field r "title"
      ∷ text_field r "checks"
      ∷ text_field r "severity"
      ∷ bool_cell (Option.bind (J.field r "fixable") J.as_bool)
      ∷ unless_empty (observations J r)
      ∷ []

  unfoldable pub rule_rows : List J.Value → Rows F
  unfolding rule_row
  rule_rows [] = []
  rule_rows (r ∷ rs) = rule_row r ∷ rule_rows rs

  -- `ags_rules`: without an array of rules there are no rows.
  unfoldable pub ags_rules : Result (Columns × Rows F)
  unfolding rule_rows
  ags_rules = do
    meta ← expect J.rule_metadata
    ok (rules_columns, rule_rows (Option.get_or (Option.bind (J.field meta "rules") J.as_array) []))

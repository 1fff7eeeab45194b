-- ===== src/Tests/Dictionaries.antt =====
-- A registry of two groups, a dictionary and a catalogue of one rule, for src/meta.rs and
-- src/dict_fns.rs.
use laterite_duckdb.Base.{
  ℕ, ◌≡◌, refl, String, false, ◌==◌, string_eq, if◌then◌else◌, none, some, List, [], ◌∷◌, map, ok,
  ◌<>◌,
}
use laterite_duckdb.Base.Sort.{IsSorted}
use laterite_duckdb.Base.Text.{is_whitespace, trim, join}
use laterite_duckdb.DictFns.{
  dictionary_columns, relationships_columns, rules_columns, parse_version, edition_rows,
  ags_dictionary, ags_relationships, ags_rules,
}
use laterite_duckdb.DictFns.Listed.{
  place, all_places, of_codes, of_registry, somes, link, ags_dictionary-edition,
  ags_dictionary-union, ags_relationships-Lists,
}
use laterite_duckdb.DictFns.Editions.{
  IsEdition, names_4_1, ags_dictionary-IsEdition, ags_dictionary-table,
}
use laterite_duckdb.DictFns.Typed.{Fits}
use laterite_duckdb.DictFns.Rules.{ags_rules-Lists}
use laterite_duckdb.Engine.{Registry, Dictionaries, Catalogue}
use laterite_duckdb.Meta.{ags_headings, headings_columns}
use laterite_duckdb.Meta.Headings.{ListsHeadings, all_entries, ags_headings-Lists}
use laterite_duckdb.Table.{Columns, Rows, null, str}
use laterite_duckdb.Tests.Files.{engine}
use laterite_duckdb.Tests.Tables.{types, group}
use mathlib.Core.List.{Perm}

abbrev pub registry : Registry
registry = record {
  Group = String;
  Heading = String;
  iter = "PROJ" ∷ "LOCA" ∷ [];
  get = λ code. none;
  code = λ g. g;
  parent = λ g. if g == "LOCA" then some "PROJ" else none;
  headings = λ g. (g <> "_ID") ∷ [];
  name = λ h. h;
  status = λ h. "KEY";
  ags_type = λ h. "ID";
  unit = λ h. none;
  description = λ h. "";
  is_key = λ h. false;
  shared_keys = λ g. "PROJ_ID" ∷ [];
}

abbrev pub dictionaries : Dictionaries
dictionaries = record {
  DictVersion = String;
  v4_0_3 = "4.0.3";
  v4_0_4 = "4.0.4";
  v4_1 = "4.1";
  v4_1_1 = "4.1.1";
  v4_2 = "4.2";
  Dictionary = String;
  Entry = String;
  bundled = λ version. version;
  group_codes = λ d. "PROJ" ∷ "LOCA" ∷ [];
  group_parent = λ d code. some "";
  group_headings = λ d code. (code <> "_ID") ∷ (code <> "_NAME") ∷ [];
  heading = λ d code h. some h;
  entry_type = λ e. "ID";
  entry_status = λ e. "KEY";
  entry_unit = λ e. "m";
  entry_desc = λ e. e;
}

-- The value is a text, which has every field.
abbrev pub catalogue : Catalogue
catalogue = record {
  Value = String;
  rule_metadata = some "rules";
  field = λ v k. some (v <> k);
  as_array = λ v. some (v ∷ []);
  as_str = λ v. some v;
  as_bool = λ v. none;
}

ags_headings-Lists_example :
    (rows : Rows ℕ) × (ags_headings engine registry types group ≡ ok (headings_columns, rows))
    × ListsHeadings engine registry types
        (all_entries engine registry types group ("GEOX" ∷ []))
        rows
ags_headings-Lists_example =
    ags_headings-Lists engine registry types group ((67 ∷ 68 ∷ [], refl), tt)

known : parse_version dictionaries types " 4.1 " ≡ ok "4.1"
unfolding trim laterite_duckdb.Cert.parse_edition
known = refl

ags_dictionary-edition_example :
    (codes : List String) × (rows : Rows ℕ) × (ags_dictionary registry dictionaries types
        (some " 4.1 ")
      ≡ ok (dictionary_columns, rows))
    × IsSorted codes
    × Perm codes ("PROJ" ∷ "LOCA" ∷ [])
    × Fits dictionary_columns rows
    × (map place rows ≡ all_places (of_codes dictionaries types "4.1" codes))
ags_dictionary-edition_example =
    ags_dictionary-edition registry dictionaries types " 4.1 " "4.1" known

ags_dictionary-union_example :
    (rows : Rows ℕ) × (ags_dictionary registry dictionaries types none
      ≡ ok (dictionary_columns, rows))
    × Fits dictionary_columns rows
    × (map place rows ≡ all_places (of_registry registry types ("PROJ" ∷ "LOCA" ∷ [])))
ags_dictionary-union_example = ags_dictionary-union registry dictionaries types

ags_dictionary-IsEdition_example :
    ags_dictionary registry dictionaries types (some ("  " <> ("4.1" <> " ")))
    ≡ ok (dictionary_columns, edition_rows dictionaries types "4.1")
unfolding is_whitespace
ags_dictionary-IsEdition_example =
    ags_dictionary-IsEdition dictionaries types registry "  " "4.1" " " "4.1" (refl, (refl, tt))
      (refl, tt) names_4_1

abbrev listed : Columns × Rows ℕ
listed = (dictionary_columns, edition_rows dictionaries types "4.1")

lists : ags_dictionary registry dictionaries types (some " 4.1 ") ≡ ok listed
unfolding ags_dictionary trim laterite_duckdb.Cert.parse_edition
lists = refl

ags_dictionary-table_example :
    (version : String) × IsEdition dictionaries (trim " 4.1 ") version
    × (listed ≡ (dictionary_columns, edition_rows dictionaries types version))
ags_dictionary-table_example = ags_dictionary-table dictionaries types registry " 4.1 " listed lists

ags_relationships-Lists_example :
    (rows : Rows ℕ) × (ags_relationships registry types ≡ ok (relationships_columns, rows))
    × Fits relationships_columns rows
    × (rows ≡ somes (map (link registry types) ("PROJ" ∷ "LOCA" ∷ [])))
ags_relationships-Lists_example = ags_relationships-Lists registry types

ags_rules-Lists_example :
    (rows : Rows ℕ) × (ags_rules catalogue ≡ ok (rules_columns, rows))
    × Fits rules_columns rows
    × (rows
        ≡ (str "rulesrulesrule"
            ∷ str "rulesrulestitle"
            ∷ str "rulesruleschecks"
            ∷ str "rulesrulesseverity"
            ∷ null
            ∷ str "rulesrulesobservationsid"
            ∷ [])
          ∷ [])
unfolding join
ags_rules-Lists_example = ags_rules-Lists catalogue ℕ "rules" refl

-- ===== src/DictFns/Rules.antt =====
-- src/dict_fns.rs: the rows that `ags_rules` lists.
use laterite_duckdb.Base.{
  ◌≡◌, refl, ap₂, ◌∙◌, String, Bool, Option, none, some, List, [], ◌∷◌, map, ok,
}
use laterite_duckdb.Base.Text.{join}
use laterite_duckdb.DictFns.{
  rules_columns, not_empty, observation_ids, observations, text_field, bool_cell, rule_row,
  rule_rows, ags_rules,
}
use laterite_duckdb.DictFns.Typed.{Fits, rule_rows-Fits}
use laterite_duckdb.Engine.{Catalogue}
use laterite_duckdb.Table.{Cell, null, unless_empty, str, bool, Rows, text_cell}
use mathlib.Core.Option

-- A text that is not empty, or NULL.
abbrev pub nonempty : {F : Type 0} → Option String → Cell F
nonempty none = null
nonempty (some String.[]) = null
nonempty (some (String.◌∷◌ c s)) = str (String.◌∷◌ c s)

abbrev pub mark : {F : Type 0} → Option Bool → Cell F
mark none = null
mark (some b) = bool b

abbrev pub prepend : Option String → List String → List String
prepend none names = names
prepend (some name) names = name ∷ names

nonempty_text : {F : Type 0} (o : Option String) → text_cell (not_empty o) ≡ nonempty {F = F} o
nonempty_text none = refl
nonempty_text (some String.[]) = refl
nonempty_text (some (String.◌∷◌ c s)) = refl

nonempty-some : {F : Type 0} (s : String) → unless_empty s ≡ nonempty {F = F} (some s)
nonempty-some String.[] = refl
nonempty-some (String.◌∷◌ c s) = refl

module _ (J : Catalogue) (F : Type 0) where
  -- A field that is a text, and not an empty one; any other, or none, is NULL.
  abbrev pub text_of : Option J.Value → Cell F
  text_of none = null
  text_of (some v) = nonempty (J.as_str v)

  abbrev pub mark_of : Option J.Value → Cell F
  mark_of none = null
  mark_of (some v) = mark (J.as_bool v)

  -- The text that names an observation: its `id`, or else the value itself.
  abbrev pub name_of : Option J.Value → J.Value → Option String
  name_of none x = J.as_str x
  name_of (some id) x = J.as_str id

  -- The names in a list of observations; one that has none is left out.
  abbrev pub names_of : List J.Value → List String
  names_of [] = []
  names_of (x ∷ xs) = prepend (name_of (J.field x "id") x) (names_of xs)

  abbrev pub names_in : Option (List J.Value) → Cell F
  names_in none = null
  names_in (some xs) = nonempty (some (join (names_of xs) ","))

  abbrev pub names_cell : Option J.Value → Cell F
  names_cell none = null
  names_cell (some v) = names_in (J.as_array v)

  -- The row of a rule.
  abbrev pub of_rule : J.Value → List (Cell F)
  of_rule r =
      text_of (J.field r "rule")
      ∷ text_of (J.field r "title")
      ∷ text_of (J.field r "checks")
      ∷ text_of (J.field r "severity")
      ∷ mark_of (J.field r "fixable")
      ∷ names_cell (J.field r "observations")
      ∷ []

  -- The rules of a catalogue: its array of rules, or none.
  abbrev pub rules_in : Option (List J.Value) → List J.Value
  rules_in none = []
  rules_in (some rs) = rs

  abbrev pub rules_of : Option J.Value → List J.Value
  rules_of none = []
  rules_of (some v) = rules_in (J.as_array v)

  text_of-bind : (o : Option J.Value) → text_cell (not_empty (Option.bind o J.as_str)) ≡ text_of o
  unfolding mathlib.Core.Option.bind
  text_of-bind none = refl
  text_of-bind (some v) = nonempty_text (J.as_str v)

  mark_of_option : (o : Option Bool) → bool_cell J o ≡ mark {F = F} o
  mark_of_option none = refl
  mark_of_option (some b) = refl

  mark_of-bind : (o : Option J.Value) → bool_cell J (Option.bind o J.as_bool) ≡ mark_of o
  unfolding mathlib.Core.Option.bind
  mark_of-bind none = refl
  mark_of-bind (some v) = mark_of_option (J.as_bool v)

  name_of-get_or : (o : Option J.Value) (x : J.Value) → J.as_str (Option.get_or o x) ≡ name_of o x
  name_of-get_or none x = refl
  name_of-get_or (some id) x = refl

  prepend_name :
      (o : Option String) (names : List String)
      → ◌≡◌ {A = List String} (elim o [ none ↦ names | some id ↦ id ∷ names ]) (prepend o names)
  prepend_name none names = refl
  prepend_name (some id) names = refl

  observation_ids-names_of : (xs : List J.Value) → observation_ids J xs ≡ names_of xs
  unfolding observation_ids
  observation_ids-names_of [] = refl
  observation_ids-names_of (x ∷ xs) =
      prepend_name (J.as_str (Option.get_or (J.field x "id") x)) (observation_ids J xs)
      ∙ ap₂ prepend (name_of-get_or (J.field x "id") x) (observation_ids-names_of xs)

  names_in-map :
      (o : Option (List J.Value))
      → unless_empty (Option.get_or (Option.map (λ a. join (observation_ids J a) ",") o) "")
        ≡ names_in o
  names_in-map none = refl
  names_in-map (some xs) = rw (observation_ids-names_of xs) (nonempty-some (join (names_of xs) ","))

  names_cell-bind :
      (o : Option J.Value)
      → unless_empty (
          Option.get_or
            (Option.map (λ a. join (observation_ids J a) ",") (Option.bind o J.as_array))
            "")
        ≡ names_cell o
  unfolding mathlib.Core.Option.bind
  names_cell-bind none = refl
  names_cell-bind (some v) = names_in-map (J.as_array v)

  rule_row-of_rule : (r : J.Value) → rule_row J r ≡ of_rule r
  unfolding rule_row text_field observations
  rule_row-of_rule r = rw (
    text_of-bind (J.field r "rule"),
    text_of-bind (J.field r "title"),
    text_of-bind (J.field r "checks"),
    text_of-bind (J.field r "severity"),
    mark_of-bind (J.field r "fixable"),
    names_cell-bind (J.field r "observations"),
  )

  rule_rows-of_rule : (rs : List J.Value) → rule_rows J rs ≡ map of_rule rs
  unfolding rule_rows
  rule_rows-of_rule [] = refl
  rule_rows-of_rule (r ∷ rs) = rw (rule_row-of_rule r, rule_rows-of_rule rs)

  rules_in-get_or : (o : Option (List J.Value)) → Option.get_or o [] ≡ rules_in o
  rules_in-get_or none = refl
  rules_in-get_or (some rs) = refl

  rules_of-bind : (o : Option J.Value) → Option.get_or (Option.bind o J.as_array) [] ≡ rules_of o
  unfolding mathlib.Core.Option.bind
  rules_of-bind none = refl
  rules_of-bind (some v) = rules_in-get_or (J.as_array v)

  -- `ags_rules` never fails on a catalogue that parses: it has a typed row for each rule of the
  -- array, in order, and no row where there is no array. A rule's row has its texts, each NULL
  -- where it is missing, empty or no text, its mark, and the names of its observations, which are
  -- the texts of their ids or else of the values themselves, joined by commas, or NULL for an
  -- empty text.
  pub ags_rules-Lists :
      (meta : J.Value)
      → J.rule_metadata ≡ some meta
      → (rows : Rows F) × (ags_rules J ≡ ok (rules_columns, rows))
        × Fits rules_columns rows
        × (rows ≡ map of_rule (rules_of (J.field meta "rules")))
  unfolding ags_rules
  ags_rules-Lists meta found =
      let rs = Option.get_or (Option.bind (J.field meta "rules") J.as_array) [] in
      (
        rule_rows J rs,
        rw found,
        rule_rows-Fits J F rs,
        rw (rule_rows-of_rule rs, rules_of-bind (J.field meta "rules")),
      )

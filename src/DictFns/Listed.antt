-- ===== src/DictFns/Listed.antt =====
-- src/dict_fns.rs: what `ags_dictionary` and `ags_relationships` list.
use laterite_duckdb.Base.{
  ℕ, ◌+◌, ◌≡◌, refl, ap₂, ◌∙◌, String, Option, none, some, List, [], ◌∷◌, ◌++◌, map, ok, get_or,
}
use laterite_duckdb.Base.Int.{as_i64}
use laterite_duckdb.Base.Sort.{sort, IsSorted, sort-IsSorted, sort-perm}
use laterite_duckdb.DictFns.{
  dictionary_columns, relationships_columns, not_empty, edition_row, edition_group, edition_groups,
  edition_rows, union_row, union_group, union_groups, parse_version, relationship_rows,
  dictionary_rows, ags_dictionary, ags_relationships,
}
use laterite_duckdb.DictFns.Typed.{
  Fits, edition_groups-Fits, union_groups-Fits, relationship_rows-Fits,
}
use laterite_duckdb.Engine.{Registry, Dictionaries}
use laterite_duckdb.Table.{Cell, null, str, int, Rows}
use laterite_duckdb.Typing.{Types}
use laterite_duckdb.Base.Text.{join}
use mathlib.Core.Option
use mathlib.Core.List.{Perm, map-append}

-- What a row of `ags_dictionary` says of a heading: its group, its name and its position.
abbrev pub Place : Type 0 → Type 0
Place F = Cell F × Cell F × Cell F

abbrev pub place : {F : Type 0} → List (Cell F) → Place F
place row = (get_or row 0 null, get_or row 2 null, get_or row 8 null)

-- The headings of a group, numbered from `i` on.
abbrev pub places : {F : Type 0} → String → ℕ → List String → List (Place F)
places code i [] = []
places code i (h ∷ hs) = (str code, str h, int (as_i64 i)) ∷ places code (i + 1) hs

-- The headings of all groups, each numbered from zero.
abbrev pub all_places : {F : Type 0} → List (String × List String) → List (Place F)
all_places [] = []
all_places ((code, hs) ∷ groups) = places code 0 hs ++ all_places groups

module _ (D : Dictionaries) (T : Types) where
  edition_group-place :
      (d : D.Dictionary) (code : String) (parent : Option String) (i : ℕ) (hs : List String)
      → map place (edition_group D T d code parent i hs) ≡ places code i hs
  unfolding edition_group edition_row
  edition_group-place d code parent i [] = refl
  edition_group-place d code parent i (h ∷ hs) = rw (edition_group-place d code parent (i + 1) hs)

  -- The groups with their headings, in the order of the codes.
  abbrev pub of_codes : D.Dictionary → List String → List (String × List String)
  of_codes d = map (λ code. (code, D.group_headings d code))

  edition_groups-place :
      (d : D.Dictionary) (codes : List String)
      → map place (edition_groups D T d codes) ≡ all_places (of_codes d codes)
  unfolding edition_groups
  edition_groups-place d [] = refl
  edition_groups-place d (code ∷ codes) =
      map-append place
        (edition_group D T d code (not_empty (D.group_parent d code)) 0 (D.group_headings d code))
        (edition_groups D T d codes)
      ∙ ap₂ ◌++◌
          (edition_group-place d code (not_empty (D.group_parent d code)) 0
            (D.group_headings d code))
          (edition_groups-place d codes)

module _ (R : Registry) (T : Types) where
  union_group-place :
      (g : R.Group) (i : ℕ) (hs : List R.Heading)
      → map place (union_group R T g i hs) ≡ places (R.code g) i (map R.name hs)
  unfolding union_group union_row
  union_group-place g i [] = refl
  union_group-place g i (h ∷ hs) = rw (union_group-place g (i + 1) hs)

  -- The groups of the registry with the names of their headings.
  abbrev pub of_registry : List R.Group → List (String × List String)
  of_registry = map (λ g. (R.code g, map R.name (R.headings g)))

  union_groups-place :
      (gs : List R.Group) → map place (union_groups R T gs) ≡ all_places (of_registry gs)
  unfolding union_groups
  union_groups-place [] = refl
  union_groups-place (g ∷ gs) =
      map-append place (union_group R T g 0 (R.headings g)) (union_groups R T gs)
      ∙ ap₂ ◌++◌ (union_group-place g 0 (R.headings g)) (union_groups-place gs)

-- The values that are there.
abbrev pub somes : {A : Type 0} → List (Option A) → List A
somes [] = []
somes (none ∷ os) = somes os
somes (some a ∷ os) = a ∷ somes os

module _ (R : Registry) (T : Types) where
  -- A group with its parent and the keys that they share, joined by commas.
  abbrev pub link : R.Group → Option (List (Cell T.F64))
  link g =
      Option.map (λ p. str (R.code g) ∷ str p ∷ str (join (R.shared_keys g) ",") ∷ []) (R.parent g)

  relationship_rows-link : (gs : List R.Group) → relationship_rows R T gs ≡ somes (map link gs)
  unfolding relationship_rows
  relationship_rows-link [] = refl
  relationship_rows-link (g ∷ gs) =
      elim (R.parent g)
        as (λ o.
          elim o [
            | none ↦ relationship_rows R T gs
            | some parent ↦
                (str (R.code g) ∷ str parent ∷ str (join (R.shared_keys g) ",") ∷ [])
                ∷ relationship_rows R T gs
          ]
          ≡ somes (
              Option.map (λ p. str (R.code g) ∷ str p ∷ str (join (R.shared_keys g) ",") ∷ []) o
              ∷ map link gs)) [
                | none ↦ relationship_rows-link gs
                | some parent ↦ rw (relationship_rows-link gs)
              ]

  -- `ags_relationships` succeeds, with a typed row for exactly the groups of the registry that
  -- have a parent, in its order, each with its code, that parent and the keys that they share,
  -- joined by commas.
  pub ags_relationships-Lists :
      (rows : Rows T.F64) × (ags_relationships R T ≡ ok (relationships_columns, rows))
      × Fits relationships_columns rows
      × (rows ≡ somes (map link R.iter))
  unfolding ags_relationships
  ags_relationships-Lists = (
    relationship_rows R T R.iter,
    refl,
    relationship_rows-Fits R T R.iter,
    relationship_rows-link R.iter,
  )

module _ (R : Registry) (D : Dictionaries) (T : Types) where
  -- For an edition that is known, `ags_dictionary` succeeds, with typed rows that list, under the
  -- group codes of its bundled dictionary in sorted order, every heading of each group with its
  -- position from zero on.
  pub ags_dictionary-edition :
      (e : String) (version : D.DictVersion)
      → parse_version D T e ≡ ok version
      → (codes : List String) × (rows : Rows T.F64) × (ags_dictionary R D T (some e)
          ≡ ok (dictionary_columns, rows))
        × IsSorted codes
        × Perm codes (D.group_codes (D.bundled version))
        × Fits dictionary_columns rows
        × (map place rows ≡ all_places (of_codes D T (D.bundled version) codes))
  unfolding ags_dictionary dictionary_rows edition_rows
  ags_dictionary-edition e version known =
      let d = D.bundled version in
      let codes = sort (D.group_codes d) in
      (
        codes,
        edition_groups D T d codes,
        rw known refl,
        sort-IsSorted (D.group_codes d),
        sort-perm (D.group_codes d),
        edition_groups-Fits D T d codes,
        edition_groups-place D T d codes,
      )

  -- Without an edition `ags_dictionary` succeeds, with typed rows that list every heading of the
  -- registry's groups, in its order, with its position in the group from zero on.
  pub ags_dictionary-union :
      (rows : Rows T.F64) × (ags_dictionary R D T none ≡ ok (dictionary_columns, rows))
      × Fits dictionary_columns rows
      × (map place rows ≡ all_places (of_registry R T R.iter))
  unfolding ags_dictionary dictionary_rows
  ags_dictionary-union =
      (union_groups R T R.iter, refl, union_groups-Fits R T R.iter, union_groups-place R T R.iter)

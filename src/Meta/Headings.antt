-- ===== src/Meta/Headings.antt =====
-- src/meta.rs: the headings that `ags_headings` lists.
use laterite_duckdb.Base.{
  ℕ, ◌+◌, ◌≡◌, refl, ap₂, ◌∙◌, String, Option, none, some, List, [], ◌∷◌, ◌++◌, map, All,
  All-append, ok, get_or, Bool, false, Bool-cases, inl, inr, ◌==◌, string_eq, if◌then◌else◌,
}
use laterite_duckdb.Base.Text.{upper_contains}
use mathlib.Core.Option
use laterite_duckdb.Base.Int.{as_i64}
use laterite_duckdb.Engine.{Engine, Registry}
use laterite_duckdb.Meta.{
  headings_columns, find_heading, or_else, heading_status, heading_row, heading_rows,
  all_heading_rows, ags_headings,
}
use laterite_duckdb.Meta.Listed.{IsPresent}
use laterite_duckdb.Table.{Cell, null, str, int, bool, Rows, RowFits, unless_empty-Conforms}
use laterite_duckdb.Typing.{Types}
use mathlib.Core.List.{map-append}

module _ (E : Engine) (R : Registry) (T : Types) where
  -- What a row says of a heading: its group, its name, its status, its key mark and its position.
  abbrev pub Key : Type 0
  Key = Cell T.F64 × Cell T.F64 × Cell T.F64 × Cell T.F64 × Cell T.F64

  abbrev pub shown : List (Cell T.F64) → Key
  shown row = (
    get_or row 0 null,
    get_or row 1 null,
    get_or row 5 null,
    get_or row 6 null,
    get_or row 7 null,
  )

  -- The status and key mark of a heading: those of the first registered heading with its name, or
  -- else by what the file declares as its status, or else those of an other heading.
  abbrev pub status_among : List R.Heading → Option String → String → String × Bool
  status_among [] none name = ("OTHER", false)
  status_among [] (some status) name = (status, upper_contains status "KEY")
  status_among (h ∷ hs) own name =
      let rest = status_among hs own name in
      if R.name h == name then (R.status h, R.is_key h) else rest

  -- The headings that the registry has for a group.
  abbrev pub registered : Option R.Group → List R.Heading
  registered none = []
  registered (some g) = R.headings g

  status_of_none :
      (own : Option String) (name : String)
      → Option.get_or
          (Option.map (λ status. (status, upper_contains status "KEY")) own)
          ("OTHER", false)
        ≡ status_among [] own name
  status_of_none none name = refl
  status_of_none (some status) name = refl

  status_of_headings :
      (hs : List R.Heading) (own : Option String) (name : String)
      → Option.get_or
          (or_else
            (Option.map (λ h. (R.status h, R.is_key h)) (find_heading E R hs name))
            (Option.map (λ status. (status, upper_contains status "KEY")) own))
          ("OTHER", false)
        ≡ status_among hs own name
  unfolding find_heading
  status_of_headings [] own name = status_of_none own name
  status_of_headings (h ∷ hs) own name = elim (Bool-cases (R.name h == name)) [
    | inl same ↦ rw same refl
    | inr other ↦ rw other (status_of_headings hs own name)
  ]

  heading_status-among :
      (fd : E.FileDict) (desc : Option R.Group) (code name : String)
      → heading_status E R fd desc code name
        ≡ status_among (registered desc) (E.declared_status fd code name) name
  unfolding heading_status mathlib.Core.Option.bind
  heading_status-among fd none code name = status_of_none (E.declared_status fd code name) name
  heading_status-among fd (some g) code name =
      status_of_headings (R.headings g) (E.declared_status fd code name) name

  -- The headings of one group with their status, numbered from `i` on.
  abbrev pub entries : E.FileDict → String → ℕ → List String → List Key
  entries fd code i [] = []
  entries fd code i (h ∷ hs) =
      let s = status_among (registered (R.get code)) (E.declared_status fd code h) h in
      (str code, str h, str s.0, bool s.1, int (as_i64 i)) ∷ entries fd code (i + 1) hs

  abbrev pub headings_of : Option E.AgsGroup → List String
  headings_of none = []
  headings_of (some g) = E.headings g

  abbrev pub all_entries : E.ParsedAgs4 → List String → List Key
  all_entries parsed [] = []
  all_entries parsed (code ∷ order) =
      entries (E.file_dict_of parsed) code 0 (headings_of (E.get_group parsed code))
      ++ all_entries parsed order

  abbrev pub ListsHeadings : List Key → Rows T.F64 → Type 0
  ListsHeadings es rows =
      All (RowFits (map (λ c. c.1) headings_columns)) rows × (map shown rows ≡ es)

  heading_rows-Lists :
      (fd : E.FileDict) (code : String) (g : E.AgsGroup) (i : ℕ) (hs : List String)
      → ListsHeadings (entries fd code i hs) (heading_rows E R T fd code g (R.get code) i hs)
  unfolding heading_rows heading_row
  heading_rows-Lists fd code g i [] = (tt, refl)
  heading_rows-Lists fd code g i (h ∷ hs) =
      let (fits, listed) = heading_rows-Lists fd code g (i + 1) hs in
      (
        ((tt, (tt, (unless_empty-Conforms T.F64 _, (tt, (tt, (tt, (tt, (tt, tt)))))))), fits),
        rw (listed, heading_status-among fd (R.get code) code h),
      )

  all_heading_rows-Lists :
      (parsed : E.ParsedAgs4) (order : List String)
      → All (IsPresent E parsed) order
      → (rows : Rows T.F64) × (all_heading_rows E R T parsed (E.file_dict_of parsed) order
          ≡ ok rows)
        × ListsHeadings (all_entries parsed order) rows
  unfolding all_heading_rows
  all_heading_rows-Lists parsed [] present = ([], refl, (tt, refl))
  all_heading_rows-Lists parsed (code ∷ order) ((g, found), present) =
      let (rows, made, (fits, listed)) = all_heading_rows-Lists parsed order present in
      let fd = E.file_dict_of parsed in
      let (fits', listed') = heading_rows-Lists fd code g 0 (E.headings g) in
      let here = heading_rows E R T fd code g (R.get code) 0 (E.headings g) in
      (
        here ++ rows,
        rw (found, made) refl,
        rw found (
          All-append _ here rows fits' fits,
          map-append shown here rows ∙ ap₂ ◌++◌ listed' listed,
        ),
      )

  -- When every group of the order is in the file, `ags_headings` succeeds, with a typed row for
  -- each heading of each group in file order: its group, its name, its status and key mark, and
  -- its position in the group from zero on, as an `i64`. The status and key mark are the
  -- registry's for the first of the group's headings with that name; or else the status that the
  -- file declares, and whether it has the letters KEY in any case; or else OTHER and no key.
  pub ags_headings-Lists :
      (parsed : E.ParsedAgs4)
      → All (IsPresent E parsed) (E.order parsed)
      → (rows : Rows T.F64) × (ags_headings E R T parsed ≡ ok (headings_columns, rows))
        × ListsHeadings (all_entries parsed (E.order parsed)) rows
  unfolding ags_headings
  ags_headings-Lists parsed present =
      let (rows, made, listed) = all_heading_rows-Lists parsed (E.order parsed) present in
      (rows, rw made refl, listed)

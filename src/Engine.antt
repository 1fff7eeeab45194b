-- ===== src/Engine.antt =====
-- The crates laterite-ags4-core and laterite-ags4-reference: codec, effective dictionary, registry,
-- keychain and certificate index. Their code is not in the repository; what the source calls of
-- them is the parameter `Engine`.
use laterite_duckdb.Base.{ℕ, ◌≡◌, ◌⊎◌, Bool, String, Option, List, [], length, Result}

pub record Engine : Type 1 where
  pub ParsedAgs4 : Type 0
  pub AgsGroup : Type 0
  pub FileDict : Type 0
  pub Sidecar : Type 0
  -- ags4_codec
  pub read_ags4_bytes : List ℕ → Result ParsedAgs4
  pub from_groups : List AgsGroup → ParsedAgs4
  pub order : ParsedAgs4 → List String
  pub get_group : ParsedAgs4 → String → Option AgsGroup
  pub headings : AgsGroup → List String
  pub types : AgsGroup → List String
  pub units : AgsGroup → List String
  pub n_rows : AgsGroup → ℕ
  pub cell : AgsGroup → ℕ → ℕ → Option String
  -- effective_dict: `groups().contains(..)` and `parent`
  pub file_dict_of : ParsedAgs4 → FileDict
  pub declares : FileDict → String → Bool
  pub declared_parent : FileDict → String → Option String
  -- the status of `heading(code, heading)`
  pub declared_status : FileDict → String → String → Option String
  -- registry: whether it knows a group, and the parent that it gives
  pub is_standard : String → Bool
  pub registry_parent : String → Option String
  -- keychain; a row's cells are read through a function of column and row
  pub group_row_ids :
      String → List String → ℕ → (ℕ → ℕ → Option String) → List (String × Option String)
  pub group_row_ids_effective :
      FileDict → String → List String → ℕ → (ℕ → ℕ → Option String) → List (String × Option String)
  pub content_hash : String → List (String × String × String × String) → String
  -- index
  pub from_json : List ℕ → Result Sidecar
  pub spans : Sidecar → String → Option (List (ℕ × ℕ))
  pub defines : Sidecar → Option (List String)
  pub size_matches : Sidecar → ℕ → Bool
  pub parse_group_slice : List ℕ → ℕ × ℕ → String → Result AgsGroup
  -- `str::to_uppercase` and `str::to_lowercase`, which are tables of Unicode
  pub to_uppercase : String → String
  pub to_lowercase : String → String

-- The keychain mints one id a row; for a declaration without KEY headings it answers with no ids.
pub record MintsIds (E : Engine) : Type 0 where
  pub standard :
      (group : String) (headings : List String) (n : ℕ) (cell : ℕ → ℕ → Option String)
      → length (E.group_row_ids group headings n cell) ≡ n
  pub declared :
      (fd : E.FileDict) (group : String) (headings : List String) (n : ℕ)
      (cell : ℕ → ℕ → Option String)
      → (length (E.group_row_ids_effective fd group headings n cell) ≡ n)
        ⊎ (E.group_row_ids_effective fd group headings n cell ≡ [])

-- The registry, in its own order, and what the source reads of a group and of a heading.
pub record Registry : Type 1 where
  pub Group : Type 0
  pub Heading : Type 0
  pub iter : List Group
  pub get : String → Option Group
  pub code : Group → String
  pub parent : Group → Option String
  pub headings : Group → List Heading
  pub name : Heading → String
  pub status : Heading → String
  pub ags_type : Heading → String
  pub unit : Heading → Option String
  pub description : Heading → String
  pub is_key : Heading → Bool
  -- keychain
  pub shared_keys : Group → List String

-- The bundled dictionary of an edition; the parent is that of a group's entry.
pub record Dictionaries : Type 1 where
  pub DictVersion : Type 0
  pub v4_0_3 : DictVersion
  pub v4_0_4 : DictVersion
  pub v4_1 : DictVersion
  pub v4_1_1 : DictVersion
  pub v4_2 : DictVersion
  pub Dictionary : Type 0
  pub Entry : Type 0
  pub bundled : DictVersion → Dictionary
  pub group_codes : Dictionary → List String
  pub group_parent : Dictionary → String → Option String
  pub group_headings : Dictionary → String → List String
  pub heading : Dictionary → String → String → Option Entry
  pub entry_type : Entry → String
  pub entry_status : Entry → String
  pub entry_unit : Entry → String
  pub entry_desc : Entry → String

-- serde_json's `Value`, with the embedded rule catalogue.
pub record Catalogue : Type 1 where
  pub Value : Type 0
  pub rule_metadata : Option Value
  pub field : Value → String → Option Value
  pub as_array : Value → Option (List Value)
  pub as_str : Value → Option String
  pub as_bool : Value → Option Bool

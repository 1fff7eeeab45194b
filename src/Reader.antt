-- ===== src/Reader.antt =====
-- src/source.rs, `read_parsed_with_encoding`, and src/read_ags.rs: the producers of `read_ags` and
-- `read_ags_text`. The state is the parse cache, the pool of interned names and the world.
pub mod Typed
pub mod Sliced
pub mod Valid
pub mod Repeat
use laterite_duckdb.Base.{
  ℕ, ◌<>◌, String, Bool, Option, none, some, List, [], ◌∷◌, if◌then◌else◌, Result, ok, err, panic,
}
use laterite_duckdb.Base.Io.{Io, lift, finally, ◌>>=◌}
use laterite_duckdb.Base.Text.{trim, is_empty}
use laterite_duckdb.Cache.{Cache, Key, get_or_try_insert}
use laterite_duckdb.Cert.{sliced_group}
use laterite_duckdb.Engine.{Engine}
use laterite_duckdb.Host.{Host}
use laterite_duckdb.ReadAgs.{Binding, resolve_group, binding_for, build_table}
use laterite_duckdb.Source.{from_bind, drop_vfs, open_for_read, slurp, quoted}
use laterite_duckdb.Table.{Columns, Rows, param_str, named_str}
use laterite_duckdb.Typing.{Types}

-- The crate `encoding_rs`; a text is its UTF-8 bytes.
pub record Encodings : Type 1 where
  pub Encoding : Type 0
  pub utf_8 : Encoding
  -- `encoding == encoding_rs::UTF_8`
  pub is_utf_8 : Encoding → Bool
  pub name : Encoding → String
  pub for_label : String → Option Encoding
  pub decode : Encoding → List ℕ → List ℕ

-- `label.map(str::trim).filter(|l| !l.is_empty())`
abbrev given_label : Option String → Option String
given_label none = none
given_label (some label) = let l = trim label in if is_empty l then none else some l

module _ (C : Encodings) where
  unfoldable pub resolve_encoding : Option String → Result C.Encoding
  unfolding trim
  resolve_encoding label = elim (given_label label) [
    | none ↦ ok C.utf_8
    | some l ↦ elim (C.for_label l) [
      | some encoding ↦ ok encoding
      | none ↦ err ("read_ags: unknown encoding label " <> quoted l)
    ]
  ]

abbrev map_err : {A : Type 0} → (String → String) → Result A → Result A
map_err f (ok a) = ok a
map_err f (err e) = err (f e)
map_err f panic = panic

module _ (C : Encodings) (E : Engine) (H : Host) (word : ℕ) where
  -- The closure `build`: the whole file is read, decoded and parsed.
  unfoldable pub parse_file : String → C.Encoding → H.Handle → ℕ → Io H.World E.ParsedAgs4
  unfolding slurp
  parse_file path encoding handle size = do
    buf ← slurp H handle path size
    lift (
        map_err
          (λ e.
            "read_ags: "
            <> (quoted path
                <> (" did not parse as AGS4 ("
                    <> (e <> "); the file may be invalid — validate/repair it first"))))
          (E.read_ags4_bytes (if C.is_utf_8 encoding then buf else C.decode encoding buf)))

  pub record State : Type 0 where
    pub cache : Cache E.ParsedAgs4
    pub pool : List String
    pub world : H.World

  -- What acts on the world alone.
  abbrev pub io : {A : Type 0} → Io H.World A → Io State A
  io m s = let (r, w) = m s.world in (r, record s { world = w })

  abbrev pub on_world : (H.World → H.World) → State → State
  on_world f s = record s { world = f s.world }

  -- The scope of a `Vfs` in a producer, to the end of its closure.
  unfoldable pub with_vfs : {A : Type 0} → Io State A → Io State A
  unfolding from_bind drop_vfs
  with_vfs m = do _ ← io (from_bind H); finally (on_world (drop_vfs H)) m

  unfoldable pub cached : Key → Io H.World E.ParsedAgs4 → Io State E.ParsedAgs4
  unfolding get_or_try_insert
  cached key build s =
      let (r, c, w) = get_or_try_insert word key build s.cache s.world in
      (r, record s { cache = c; world = w })

  unfoldable pub read_parsed_with_encoding : String → C.Encoding → Io State E.ParsedAgs4
  unfolding open_for_read parse_file cached
  read_parsed_with_encoding path encoding = do
    (handle, size) ← io (open_for_read H path)
    finally (on_world (H.destroy_handle handle)) (
        cached (record { path = path; size = size; encoding = C.name encoding })
          (parse_file path encoding handle size))

  unfoldable pub read_parsed : String → Io State E.ParsedAgs4
  unfolding read_parsed_with_encoding
  read_parsed path = read_parsed_with_encoding path C.utf_8

  -- The certificate path of a default-encoded read.
  abbrev pub try_slice : Bool → String → String → Io State (Option (E.AgsGroup × Binding E))
  try_slice utf_8 path group s =
      if utf_8 then io (sliced_group E H word path group) s else (ok none, s)

  abbrev pub parse_text : List ℕ → Result E.ParsedAgs4
  parse_text bytes =
      map_err (λ e. "read_ags_text: input did not parse as AGS4 (" <> (e <> ")"))
        (E.read_ags4_bytes bytes)

  module _ (T : Types) where
    abbrev pub Output : Type 0
    Output = Columns × Rows T.F64

    -- `build_table` on the process's pool of names.
    unfoldable pub build_output : E.AgsGroup → String → Binding E → Io State Output
    unfolding build_table
    build_output ags group binding s =
        let (r, pool) = build_table E T ags group binding s.pool in (r, record s { pool = pool })

    -- The three calls that both producers end with.
    unfoldable pub output_of : E.ParsedAgs4 → String → Io State Output
    unfolding resolve_group binding_for build_output
    output_of parsed group = do
      ags ← lift (resolve_group E parsed group)
      binding ← lift (binding_for E parsed group)
      build_output ags group binding

    unfoldable pub whole_file : String → C.Encoding → String → Io State Output
    unfolding read_parsed_with_encoding output_of
    whole_file path encoding group = do
      parsed ← read_parsed_with_encoding path encoding
      output_of parsed group

    unfoldable pub serve :
        String → C.Encoding → String → Option (E.AgsGroup × Binding E) → Io State Output
    unfolding build_output whole_file
    serve path encoding group (some (ags, binding)) = build_output ags group binding
    serve path encoding group none = whole_file path encoding group

    -- The producer of `read_ags`, given the two parameters and `encoding`.
    unfoldable pub read_ags :
        Option (Option String) → Option (Option String) → Option (Option String) → Io State Output
    unfolding param_str named_str trim resolve_encoding with_vfs sliced_group serve
    read_ags path_param group_param label = do
      path ← lift (param_str 0 path_param)
      raw ← lift (param_str 1 group_param)
      encoding ← lift (resolve_encoding C (named_str label))
      with_vfs (do
        sliced ← try_slice (C.is_utf_8 encoding) path (E.to_uppercase (trim raw))
        serve path encoding (E.to_uppercase (trim raw)) sliced)

    -- The producer of `read_ags_text`; `as_bytes` gives the UTF-8 bytes of a text.
    unfoldable pub read_ags_text :
        (String → List ℕ) → Option (Option String) → Option (Option String) → Io State Output
    unfolding param_str trim output_of
    read_ags_text as_bytes content_param group_param = do
      content ← lift (param_str 0 content_param)
      raw ← lift (param_str 1 group_param)
      parsed ← lift (parse_text (as_bytes content))
      output_of parsed (E.to_uppercase (trim raw))

-- ===== src/Cert.antt =====
-- src/cert.rs: the sliced read that an `.ags.idx` certificate allows.
pub mod Span
pub mod Agree
pub mod Denied
pub mod Serves
use laterite_duckdb.Base.{
  ℕ, zero, suc, ◌+◌, ◌-◌, ◌%◌, ◌<>◌, String, Bool, true, false, not, ◌||◌, ◌&&◌, Option, none, some,
  List, [], ◌∷◌, ◌++◌, length, take, ltb, ◌==◌, string_eq, if◌then◌else◌, Result, ok, err, panic,
}
use laterite_duckdb.Base.Io.{Io}
use laterite_duckdb.Base.Attempt.{Attempt, give, give_up, of_option, ok_of, forget_error, ◌>>=◌}
use laterite_duckdb.Base.Text.{trim}
use laterite_duckdb.Engine.{Engine}
use laterite_duckdb.Host.{Host}
use laterite_duckdb.ReadAgs.{Binding, keyed, declared}
use laterite_duckdb.Source.{open_for_read, closing, read, seek, read_bytes}

unfoldable pub idx_path_for : String → String
idx_path_for path = path <> ".idx"

-- `parse_edition`, over the five bundled versions.
unfoldable pub parse_edition :
    {DictVersion : Type 0}
    → record {
      v4_0_3 : DictVersion;
      v4_0_4 : DictVersion;
      v4_1 : DictVersion;
      v4_1_1 : DictVersion;
      v4_2 : DictVersion;
    }
    → String
    → Result DictVersion
unfolding trim
parse_edition bundled s =
    let other = trim s in
    if other == "4.0.3"
    then ok bundled.v4_0_3
    else if other == "4.0.4"
    then ok bundled.v4_0_4
    else if other == "4.1"
    then ok bundled.v4_1
    else if other == "4.1.1"
    then ok bundled.v4_1_1
    else if other == "4.2"
    then ok bundled.v4_2
    else err ("unknown edition '" <> (other <> "'; expected one of 4.0.3, 4.0.4, 4.1, 4.1.1, 4.2"))

abbrev pub any_eq : String → List String → Bool
any_eq group [] = false
any_eq group (g ∷ gs) = g == group || any_eq group gs

-- The test on `defines`: measured, and without the group.
unfoldable pub denies : Option (List String) → String → Bool
denies none group = false
denies (some groups) group = not (any_eq group groups)

unfoldable pub only_span : Option (List (ℕ × ℕ)) → Option (ℕ × ℕ)
only_span (some (only ∷ [])) = some only
only_span _ = none

module _ (E : Engine) where
  open E use {
    ParsedAgs4, AgsGroup, FileDict, Sidecar, file_dict_of, from_groups, declares, is_standard,
    from_json, spans, defines, size_matches, parse_group_slice,
  }

  unfoldable pub sliceable_span : Sidecar → String → Option (ℕ × ℕ)
  unfolding only_span
  sliceable_span sidecar group = only_span (spans sidecar group)

  abbrev pub has_spans : Option (List (ℕ × ℕ)) → Bool
  has_spans none = false
  has_spans (some s) = true

  module _ {W : Type 0} where
    -- The `FileDict` of a fetched `DICT` section, if it declares the group.
    unfoldable pub declaring : String → AgsGroup → Attempt W FileDict
    declaring group dict =
        let fd = file_dict_of (from_groups (dict ∷ [])) in
        if declares fd group then give fd else give_up

    -- `fetch` acts on a world, so that whether it ran can be read off.
    unfoldable pub file_dict_declaring :
        Sidecar → String → (ℕ × ℕ → Attempt W AgsGroup) → Attempt W FileDict
    unfolding denies sliceable_span declaring
    file_dict_declaring sidecar group fetch =
        if denies (defines sidecar) group
        then give_up
        else if not (has_spans (spans sidecar "DICT"))
        then give_up
        else do
          span ← of_option (sliceable_span sidecar "DICT")
          dict ← fetch span
          declaring group dict

  module _ (H : Host) (word : ℕ) where
    open H use {World, Handle}

    unfoldable pub load_sidecar : String → Attempt World Sidecar
    unfolding read_bytes idx_path_for
    load_sidecar path = do
      json ← ok_of (read_bytes H (idx_path_for path))
      ok_of (λ w. (from_json json, w))

    -- The `while got < len` loop, with fuel for its rounds; `got` holds the bytes of the buffer that
    -- are filled. The buffer keeps its length, whatever number of bytes a read reports.
    unfoldable pub fill : ℕ → Handle → ℕ → List ℕ → Attempt World (List ℕ)
    unfolding read
    fill zero handle len got w = (if ltb (length got) len then panic else ok (some got), w)
    fill (suc fuel) handle len got w =
        let (r, w') = read H handle (len - length got) w in
        let rest : Result (Option (List ℕ)) × World = elim r [
          | ok [] ↦ (ok none, w')
          | ok more ↦ fill fuel handle len (got ++ take (len - length got) more) w'
          | err e ↦ (ok none, w')
          | panic ↦ (panic, w')
        ] in
        if ltb (length got) len then rest else (ok (some got), w)

    -- Each round adds a byte, so the length is fuel enough.
    unfoldable pub read_group_span : Handle → ℕ → ℕ × ℕ → String → Attempt World AgsGroup
    unfolding fill seek
    read_group_span handle size span group =
        let (start, end) = span in
        if ltb end start || ltb size end then give_up else do
          _ ← ok_of (seek H handle start)
          buf ← fill ((end - start) % word) handle ((end - start) % word) []
          ok_of (λ w. (parse_group_slice buf (0, length buf) group, w))

    unfoldable pub admit : Sidecar → Handle → ℕ → String → Attempt World (Binding E)
    unfolding file_dict_declaring read_group_span
    admit sidecar handle size group = if is_standard group then give keyed else do
      fd ← file_dict_declaring sidecar group (λ span. read_group_span handle size span "DICT")
      give (declared fd)

    -- `sliced_group` once the source is open.
    unfoldable pub slice_open : Sidecar → Handle → ℕ → String → Attempt World (AgsGroup × Binding E)
    unfolding admit read_group_span sliceable_span
    slice_open sidecar handle size group = if not (size_matches sidecar size) then give_up else do
      binding ← admit sidecar handle size group
      span ← of_option (sliceable_span sidecar group)
      ags ← read_group_span handle size span group
      give (ags, binding)

    unfoldable pub sliced_group : String → String → Attempt World (AgsGroup × Binding E)
    unfolding load_sidecar open_for_read slice_open closing
    sliced_group path group = do
      sidecar ← load_sidecar path
      (handle, size) ← ok_of (open_for_read H path)
      closing H handle (slice_open sidecar handle size group)

-- ===== src/Source.antt =====
-- src/source.rs: opening and slurping a file through the host's file system. What is dropped at the
-- end of a scope is destroyed there, by `finally`, whatever the outcome.
pub mod Slurp
pub mod Opened
use laterite_duckdb.Base.{
  ℕ, zero, suc, ◌+◌, ◌*◌, ◌^◌, ◌<>◌, String, Bool, true, false, Option, none, some, List, [], ◌++◌,
  ltb, leb, length, if◌then◌else◌, Result, ok, err, panic, ok_or,
}
use laterite_duckdb.Base.Int.{ℤ, pos, negsuc, as_i64, show_i64}
use laterite_duckdb.Base.Io.{Io, pure, lift, continue, finally, ◌>>=◌}
use laterite_duckdb.Base.Text.{trim, has_nul, is_empty, parse_uint, show}
use laterite_duckdb.Host.{Host}
use mathlib.Core.Option

-- 4 GiB.
abbrev pub default_max_file_bytes : ℕ
default_max_file_bytes = 4 * 1024 * 1024 * 1024

-- 1 MiB.
abbrev pub read_chunk_bytes : ℕ
read_chunk_bytes = 1024 * 1024

abbrev pub quoted : String → String
quoted path = "'" <> (path <> "'")

module _ (H : Host) where
  open H use {
    World, Handle, env_var, client_context, file_system, open_file, file_size, file_read, file_seek,
    create_options, destroy_options, destroy_handle, destroy_file_system, destroy_context,
  }

  unfoldable pub max_file_bytes : ℕ
  unfolding trim parse_uint
  max_file_bytes =
      Option.get_or
        (Option.bind (env_var "LATERITE_AGS_MAX_FILE_BYTES") (λ v. parse_uint (2 ^ 64) (trim v)))
        default_max_file_bytes

  unfoldable pub checked_file_system : Io World (Unit {0})
  checked_file_system w =
      let (found, w') = file_system w in
      if found
      then (ok tt, w')
      else (err "read_ags: DuckDB did not provide a filesystem", destroy_context w')

  -- `Vfs::from_bind`
  unfoldable pub from_bind : Io World (Unit {0})
  unfolding checked_file_system
  from_bind w =
      let (found, w') = client_context w in
      let rest = checked_file_system w' in
      if found
      then rest
      else (err "read_ags: DuckDB did not provide a client context (requires DuckDB 1.5+)", w')

  -- `Drop for Vfs`, of a file system and a context that are not null
  unfoldable pub drop_vfs : World → World
  drop_vfs w = destroy_context (destroy_file_system w)

  -- `Drop for FileHandle`, of a handle that is not null, at the end of its scope
  unfoldable pub closing : {A : Type 0} → Handle → Io World A → Io World A
  closing handle m = finally (destroy_handle handle) m

  -- The tests on the reported size.
  unfoldable pub check_size : String → Handle → ℤ → Result (Handle × ℕ)
  unfolding max_file_bytes show show_i64
  check_size path handle (negsuc n) = err (
      "read_ags: cannot determine the size of "
      <> (quoted path <> (" (filesystem returned " <> (show_i64 (negsuc n) <> ")"))))
  check_size path handle (pos size) =
      if ltb max_file_bytes size
      then err (
          "read_ags: "
          <> (quoted path
              <> (" reports "
                  <> (show size
                      <> (" bytes, over the "
                          <> (show max_file_bytes
                              <> "-byte limit (raise LATERITE_AGS_MAX_FILE_BYTES if this is a genuine file)"))))))
      else ok (handle, size)

  -- A handle that is not returned is dropped.
  unfoldable pub unless_ok : Handle → Result (Handle × ℕ) → Io World (Handle × ℕ)
  unless_ok handle (ok opened) w = (ok opened, w)
  unless_ok handle (err e) w = (err e, destroy_handle handle w)
  unless_ok handle panic w = (panic, destroy_handle handle w)

  unfoldable pub sized : String → Option Handle → Io World (Handle × ℕ)
  unfolding check_size unless_ok
  sized path none w = (err ("read_ags: cannot open " <> quoted path), w)
  sized path (some handle) w =
      let (size, w') = file_size handle w in unless_ok handle (check_size path handle size) w'

  unfoldable pub open_for_read : String → Io World (Handle × ℕ)
  unfolding has_nul sized
  open_for_read path w =
      if has_nul path
      then (err ("read_ags: path " <> (quoted path <> " contains an interior NUL byte")), w)
      else let (handle, w') = open_file path (create_options w) in
        sized path handle (destroy_options w')

  -- `FileHandle::read` into a buffer of `n` bytes
  unfoldable pub read : Handle → ℕ → Io World (List ℕ)
  read handle n w =
      let (bytes, w') = file_read handle n w in (ok_or bytes "read_ags: read error", w')

  -- `FileHandle::seek`
  unfoldable pub seek : Handle → ℕ → Io World (Unit {0})
  unfolding show
  seek handle position w =
      let (done, w') = file_seek handle (as_i64 position) w in
      (if done then ok tt else err ("read_ags: seek to " <> (show position <> " failed")), w')

  abbrev pub over_limit : String → String
  over_limit path =
      "read_ags: "
      <> (quoted path
          <> (" exceeds the "
              <> (show max_file_bytes
                  <> "-byte limit while reading (raise LATERITE_AGS_MAX_FILE_BYTES if this is a genuine file)")))

  -- The loop of `slurp`, with fuel for its rounds; `panic` stands for the slice `&chunk[..got]` out
  -- of range, and for fuel that ran out.
  unfoldable pub slurp_loop : ℕ → Handle → String → List ℕ → Io World (List ℕ)
  unfolding read max_file_bytes show
  slurp_loop zero handle path buf w = (panic, w)
  slurp_loop (suc fuel) handle path buf w =
      let (r, w') = read handle read_chunk_bytes w in
      elim r [
        | err e ↦ (err e, w')
        | panic ↦ (panic, w')
        | ok [] ↦ (ok buf, w')
        | ok got ↦
            let rest = slurp_loop fuel handle path (buf ++ got) w' in
            if ltb max_file_bytes (length buf + length got)
            then (err (over_limit path), w')
            else if leb (length got) read_chunk_bytes
            then rest
            else (panic, w')
      ]

  unfoldable pub check_length : String → ℕ → List ℕ → Result (List ℕ)
  unfolding show
  check_length path size buf =
      if ltb (length buf) size
      then err (
          "read_ags: short read on "
          <> (quoted path
              <> (" (got "
                  <> (show (length buf)
                      <> (" of "
                          <> (show size
                              <> " bytes); the file may have changed underfoot — retry"))))))
      else ok buf

  -- Each round but the last adds a byte, and past the limit the loop stops.
  unfoldable pub slurp : Handle → String → ℕ → Io World (List ℕ)
  unfolding slurp_loop check_length
  slurp handle path size = do
    buf ← slurp_loop (max_file_bytes + 2) handle path []
    lift (check_length path size buf)

  -- The sidecar reader, past the cache.
  unfoldable pub read_bytes : String → Io World (List ℕ)
  unfolding open_for_read slurp closing
  read_bytes path = do (handle, size) ← open_for_read path; closing handle (slurp handle path size)

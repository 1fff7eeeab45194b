-- ===== src/Host.antt =====
-- The host of the extension: DuckDB's virtual file system behind libduckdb-sys, and the process
-- environment. Their code is not in the repository, so they are parameters of src/source.rs.
use laterite_duckdb.Base.{
  ℕ, ◌+◌, ◌≤◌, ◌<◌, ◌≡◌, String, Bool, true, Option, some, List, length, take, drop,
}
use laterite_duckdb.Base.Int.{ℤ, pos}

pub record Host : Type 1 where
  -- Everything outside the process, file positions included.
  pub World : Type 0
  pub Handle : Type 0
  -- `std::env::var(..).ok()`
  pub env_var : String → Option String
  -- `duckdb_table_function_get_client_context` and `duckdb_client_context_get_file_system`, each
  -- with whether its pointer is not null.
  pub client_context : World → Bool × World
  pub file_system : World → Bool × World
  -- `duckdb_create_file_open_options`, with the flag for reading set, and their destruction
  pub create_options : World → World
  pub destroy_options : World → World
  -- `duckdb_file_system_open` with those options: no handle on a failure or a null one.
  pub open_file : String → World → Option Handle × World
  -- `duckdb_file_handle_size`
  pub file_size : Handle → World → ℤ × World
  -- `duckdb_file_handle_read` into a buffer of that length: the bytes it put there, or a negative
  -- count.
  pub file_read : Handle → ℕ → World → Option (List ℕ) × World
  -- `duckdb_file_handle_seek`, with whether it succeeded.
  pub file_seek : Handle → ℤ → World → Bool × World
  -- `duckdb_destroy_file_handle`, `duckdb_destroy_file_system` and `duckdb_destroy_client_context`
  pub destroy_handle : Handle → World → World
  pub destroy_file_system : World → World
  pub destroy_context : World → World

-- A read fills no more than the buffer.
pub record ReadsFit (H : Host) : Type 0 where
  pub within :
      (h : H.Handle) (n : ℕ) (w : H.World) (bytes : List ℕ)
      → (H.file_read h n w).0 ≡ some bytes
      → length bytes ≤ n

-- A handle on a regular file: `at p` holds of the worlds in which the handle's position is `p`. A
-- read may return fewer bytes than the buffer holds, and none only at the end of the file.
pub record IsFile (H : Host) (handle : H.Handle) (content : List ℕ) : Type 1 where
  pub at : ℕ → H.World → Type 0
  pub read_at :
      (n p : ℕ) (w : H.World)
      → 0 < n
      → p ≤ length content
      → at p w
      → (k : ℕ) × (k ≤ n)
        × (p + k ≤ length content)
        × ((H.file_read handle n w).0 ≡ some (take k (drop p content)))
        × at (p + k) (H.file_read handle n w).1
        × (k ≡ 0 → p ≡ length content)
  pub seek_at :
      (p q : ℕ) (w : H.World)
      → q ≤ length content
      → at p w
      → ((H.file_seek handle (pos q) w).0 ≡ true) × at q (H.file_seek handle (pos q) w).1

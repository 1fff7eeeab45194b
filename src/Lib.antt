-- ===== src/Lib.antt =====
-- The DuckDB extension laterite_ags4: table functions that read AGS4 geotechnical data files.
--
-- Loading the extension registers nine table functions (src/lib.rs). A query calls one; its producer
-- runs when the query is bound and returns columns and rows, which a scan then streams. The readers
-- open a file through DuckDB's file system (src/source.rs), parse it once for each path, size and
-- encoding (src/cache.rs), or, beside a certificate `<path>.ags.idx`, read the bytes of the wanted
-- group alone (src/cert.rs). A group becomes a table of typed cells (src/typing.rs,
-- src/read_ags.rs), behind a shared harness (src/ffi_table.rs). `load_ags` and `to_duckdb` return
-- SQL statements instead, `ags_groups` and `ags_headings` list what a file holds (src/meta.rs), and
-- three functions list the embedded dictionaries (src/dict_fns.rs).
--
-- The parts:
--   Base      shared names, lists over native numbers, results, text, sorting, 64-bit integers, hash
--             maps, and the two monads: Io (a `Result` over a world) and Attempt (a chain of `?` on
--             `Option`)
--   Cache     src/cache.rs. `probe` and `publish` are the two critical sections of
--             `get_or_try_insert`; Cache/Threads interleaves them, Cache/Order compares maps that
--             iterate in different orders, and Cache/Lru is the list that the cache stands for
--   Host      DuckDB's file system and the environment, as parameters
--   Lifecycle a host that keeps the account of what is held of DuckDB's: contexts, file systems, open
--             options and handles
--   Source    src/source.rs up to the bytes of a file: `from_bind`, `open_for_read`, `FileHandle`,
--             `slurp`, and what is destroyed on drop
--   Table     src/ffi_table.rs: cells, columns, parameters, `bind`, `init`, `func` and `write_cell`.
--             Table/Vectors has the last two on the memory of DuckDB's vectors, Table/Binding has `bind`
--             and Table/Values the reading of parameters, both as C calls
--   Register  `register_table` of src/ffi_table.rs, the `register` functions of the modules and
--             src/lib.rs, as logs of C calls; Register/Session reads a log
--   Typing    src/typing.rs, over the crate laterite-ags4-types as the parameter `Types`
--   Engine    the crates laterite-ags4-core and laterite-ags4-reference, as parameters
--   ReadAgs   src/read_ags.rs: `intern`, `binding_for`, `resolve_group`, `build_table`
--   Cert      src/cert.rs: the admission of a group and the ranged read
--   Script    src/load.rs and src/to_duckdb.rs: the numbered statements
--   Reader    `read_parsed_with_encoding` and `resolve_encoding` of src/source.rs, and the producers
--             of `read_ags` and `read_ags_text`
--   Meta      src/meta.rs: the rows of `ags_groups` and `ags_headings`
--   DictFns   src/dict_fns.rs: the rows of `ags_dictionary`, `ags_relationships` and `ags_rules`
--   Functions the nine producers together, and a query: produced, bound, scanned, and read by DuckDB
--   Tests     concrete inputs, and each theorem below applied to one
--
-- State is passed explicitly: the cache, the pool of interned names and the outside world, in which
-- a file handle keeps its position; for the registration, the log of the C calls. A panic is a value
-- of its own, told apart from an error. Machine words wrap: `word` is the modulus of `usize`, 2 ^ 64
-- natively and 2 ^ 32 on wasm32.
--
-- Loops run on fuel. `evict_to_cap` has the number of entries, since each round removes one.
-- `slurp` has two rounds more than the byte limit, and the ranged read has the length of its span,
-- since a round that goes on reads at least a byte. That the fuel suffices is among the results.
--
-- A value that goes out of scope is dropped by `finally`, whatever the outcome of its scope.
--
-- Not modelled: raw pointers, and the boxes handed to DuckDB over them, which it drops; the mutex
-- itself, whose critical sections are single steps, and which a panic does not keep from running
-- further ones; what DuckDB does with the statements of `load_ags` and `to_duckdb`; and
-- src/wasm_lib.rs, which re-exports the crate for another linker.
pub mod Base
pub mod Cache
pub mod Host
pub mod Lifecycle
pub mod Source
pub mod Table
pub mod Typing
pub mod Engine
pub mod ReadAgs
pub mod Cert
pub mod Script
pub mod Reader
pub mod Meta
pub mod DictFns
pub mod Register
pub mod Functions
pub mod Tests

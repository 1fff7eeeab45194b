-- ===== src/Tests/Queries.antt =====
-- Queries against the file of five bytes, for the producers, the scan and the cache together.
use laterite_duckdb.Base.{
  ℕ, ◌^◌, ◌≤◌, ◌≡◌, ◌||◌, refl, arith, String, none, some, List, [], ◌∷◌, ok, length, map, ◌<◌, ◌*◌,
  ◌⊎◌,
}
use laterite_duckdb.Cache.Invariant.{HasRoom, IsValid, new_cache-IsValid}
use laterite_duckdb.Cert.{load_sidecar, sliced_group}
use laterite_duckdb.Functions.{Query, Outside, Process, produce, run, run_all}
use laterite_duckdb.Functions.Delivers.{Shows, run-Shows}
use laterite_duckdb.Functions.Typed.{produce-IsTyped}
use laterite_duckdb.Functions.Bounded.{run_all-length}
use laterite_duckdb.Functions.Valid.{run_all-IsValid}
use laterite_duckdb.Lifecycle.{idle}
use laterite_duckdb.Lifecycle.Queries.{run_all-idle}
use laterite_duckdb.Lifecycle.Reads.{traced_outside}
use laterite_duckdb.Cache.{new_cache}
use laterite_duckdb.ReadAgs.{is_interned, keyed, build_table}
use laterite_duckdb.ReadAgs.Pool.{IsPool, build_table-IsPool}
use laterite_duckdb.Reader.{io, read_parsed_with_encoding, serve, whole_file}
use laterite_duckdb.Reader.Repeat.{second_read_is_hit}
use laterite_duckdb.Reader.Sliced.{serve-sliced}
use laterite_duckdb.Reader.Typed.{IsTyped}
use laterite_duckdb.Source.{max_file_bytes, open_for_read}
use laterite_duckdb.Table.{Bound}
use laterite_duckdb.Base.Text.{has_nul}
use laterite_duckdb.Table.Scan.{cell_at}
use laterite_duckdb.Table.Vectors.{Vector, DataChunk, as_i64, scan}
use laterite_duckdb.Table.Vectors.Read.{read_stream}
use laterite_duckdb.Table.Vectors.Scanned.{IsReset}
use laterite_duckdb.Functions.Read.{kept, produce-read}
use laterite_duckdb.Base.Int.{pos}
use laterite_duckdb.Tests.Dictionaries.{registry, dictionaries, catalogue}
use laterite_duckdb.Tests.Files.{host, engine, content, file, at_start, certified, served}
use laterite_duckdb.Tests.Tables.{types, distinct, mints, group, encodings, state, table}

abbrev outside : Outside
outside = record {
  C = encodings;
  E = engine;
  H = host;
  T = types;
  R = registry;
  D = dictionaries;
  J = catalogue;
  word = 2 ^ 64;
}

abbrev query : Query
query = Query.read_ags (some (some "a.ags")) (some (some " GEOX ")) none

runs : (produce outside query state).0 ≡ ok table
unfolding produce mathlib.Core.Option.bind native.Mathlib.Decide.ℕ_discrete
runs = refl

produce-IsTyped_example : IsTyped encodings engine host (2 ^ 64) types table
produce-IsTyped_example = produce-IsTyped outside distinct mints query state table runs

-- Data of an earlier chunk, behind a mask that was reset.
abbrev used : Vector ℕ
used = record { at = λ row. as_i64 (pos 7); validity = none }

run-Shows_example :
    (bound : Bound ℕ) × (filled : List (DataChunk ℕ)) × (run outside 2048
        (λ i c. used)
        2
        query
        state
      ≡ (ok (bound, filled), (produce outside query state).1))
    × Shows outside 2048 table bound filled
unfolding has_nul
run-Shows_example =
    run-Shows outside distinct mints 2048 2 (λ i c. used) query state table.0 table.1 runs
      (refl, (refl, (refl, (refl, (refl, tt))))) (λ i c row. refl) (omega arith) (omega arith)

abbrev output : DataChunk ℕ
output = record { vectors = used ∷ used ∷ used ∷ used ∷ used ∷ []; size = 2 }

reset : IsReset 2 (kept outside table.0 table.1) output
reset = (refl, (λ row. refl, (λ row. refl, (λ row. refl, (λ row. refl, (λ row. refl, tt))))))

produce-read_example :
    (filled : List (DataChunk ℕ)) × (scan 2 (kept outside table.0 table.1) (output ∷ output ∷ []) 0
      ≡ ok filled)
    × ((c : ℕ)
        → c < length table.0
        → read_stream 2 (kept outside table.0 table.1) c filled
          ≡ map some (map (cell_at c) table.1))
produce-read_example =
    produce-read outside distinct mints 2 query state table.0 table.1 (output ∷ output ∷ []) runs
      (omega arith) (reset, (reset, tt)) (omega arith)

limit_64 : max_file_bytes host ≤ 2 ^ 32
unfolding max_file_bytes mathlib.Core.Option.bind
limit_64 = omega arith

room : HasRoom (2 ^ 64) (2 ^ 32) 10000
room = record { floor = omega arith; two = omega arith; over = omega arith }

fresh : IsValid (2 ^ 64) (2 ^ 32) state.cache
fresh = new_cache-IsValid (2 ^ 64) (2 ^ 32) 10000 (omega arith)

abbrev queries : List Query
queries = query ∷ Query.load_ags (some (some "a.ags")) ∷ Query.ags_rules ∷ []

run_all-IsValid_example : IsValid (2 ^ 64) (2 ^ 32) (run_all outside queries state).cache
run_all-IsValid_example =
    run_all-IsValid outside (2 ^ 32) limit_64 queries state room (omega arith) fresh

run_all-length_example :
    (length (run_all outside queries state).cache.map * 4096 ≤ 10000)
    ⊎ (length (run_all outside queries state).cache.map ≤ 1)
run_all-length_example =
    run_all-length outside (2 ^ 32) limit_64 queries state 10000 refl room (omega arith)

abbrev traced_process : Process (traced_outside outside)
traced_process = record { cache = new_cache 10000; pool = []; world = (idle, 0) }

run_all-idle_example : (run_all (traced_outside outside) queries traced_process).world.0 ≡ idle
run_all-idle_example = run_all-idle outside queries traced_process refl

opens : (w : ℕ) → (open_for_read host "a.ags" w).0 ≡ ok (tt, 5)
unfolding open_for_read max_file_bytes mathlib.Core.Option.bind
opens w = refl

reads : (read_parsed_with_encoding encodings engine host (2 ^ 64) "a.ags" tt state).0 ≡ ok content
unfolding read_parsed_with_encoding mathlib.Core.Option.bind
reads = refl

abbrev after_read : Process outside
after_read = (read_parsed_with_encoding encodings engine host (2 ^ 64) "a.ags" tt state).1

second_read_is_hit_example :
    ((read_parsed_with_encoding encodings engine host (2 ^ 64) "a.ags" tt after_read).0
      ≡ ok content)
    × ((read_parsed_with_encoding encodings engine host (2 ^ 64) "a.ags" tt after_read).1.world
        ≡ host.destroy_handle tt (open_for_read host "a.ags" after_read.world).1)
second_read_is_hit_example =
    second_read_is_hit encodings engine host (2 ^ 64) "a.ags" tt (2 ^ 32) state after_read tt tt 5
      content limit_64 (λ e. omega (arith, e)) room (omega arith) fresh (opens 0) reads refl
      (opens after_read.world)

loads : (load_sidecar engine host (2 ^ 64) "a.ags" 0).0 ≡ ok (some tt)
unfolding load_sidecar mathlib.Core.Option.bind
loads = refl

slices : (sliced_group engine host (2 ^ 64) "a.ags" "GEOX" 0).0 ≡ ok (some served)
unfolding sliced_group mathlib.Core.Option.bind
slices = refl

abbrev after_slice : Process outside
after_slice = record state {
  world = (sliced_group engine host (2 ^ 64) "a.ags" "GEOX" state.world).1;
}

slices_here :
    io encodings engine host (2 ^ 64) (sliced_group engine host (2 ^ 64) "a.ags" "GEOX") state
    ≡ (ok (some served), after_slice)
slices_here = rw slices

serve-sliced_example :
    ((serve encodings engine host (2 ^ 64) types "a.ags" tt "GEOX" (some served) after_slice).0
      ≡ (whole_file encodings engine host (2 ^ 64) types "a.ags" tt "GEOX" state).0)
    × ((serve encodings engine host
          (2 ^ 64)
          types
          "a.ags"
          tt
          "GEOX"
          (some served)
          after_slice).1.pool
        ≡ (whole_file encodings engine host (2 ^ 64) types "a.ags" tt "GEOX" state).1.pool)
serve-sliced_example =
    serve-sliced encodings engine host (2 ^ 64) types file (omega arith) (omega arith) tt content
      certified "a.ags" "GEOX" tt served state after_slice loads
      (opens (load_sidecar engine host (2 ^ 64) "a.ags" 0).1)
      (at_start (load_sidecar engine host (2 ^ 64) "a.ags" 0).1) slices_here reads

build_table-IsPool_example :
    IsPool (build_table engine types group "GEOX" keyed ("GEOX_TOP" ∷ [])).1
    × ((n : String)
        → is_interned n (build_table engine types group "GEOX" keyed ("GEOX_TOP" ∷ [])).1
          ≡ (is_interned n ("GEOX_REF" ∷ "GEOX_TOP" ∷ []) || is_interned n ("GEOX_TOP" ∷ [])))
unfolding is_interned
build_table-IsPool_example =
    build_table-IsPool engine types group "GEOX" keyed ("GEOX_TOP" ∷ []) (refl, tt)

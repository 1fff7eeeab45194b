-- ===== src/Tests/Recency.antt =====
-- Calls for three files of which the cache has room for one, for src/cache.rs.
use laterite_duckdb.Base.{ℕ, ◌+◌, ◌≡◌, refl, arith, List, [], ◌∷◌, ok, err}
use laterite_duckdb.Cache.{Key, new_cache, get_or_try_insert}
use laterite_duckdb.Cache.Lru.Runs.{Call, run_calls, lru_calls, FollowAll, run_calls-lru}
use laterite_duckdb.Tests.Caching.{word, limit, cap, site_a, site_b, room}

-- The world counts the builds.
abbrev builds : Key → Call ℕ ℕ
builds key = (key, λ n. (ok n, n + 1))

abbrev fails : Key → Call ℕ ℕ
fails key = (key, λ n. (err "no", n + 1))

abbrev calls : List (Call ℕ ℕ)
calls = builds site_a ∷ builds site_a ∷ fails site_b ∷ builds site_b ∷ builds site_a ∷ []

-- The second call is a hit, and the last one builds again what made way for `site_b`.
builds_again :
    (run_calls word calls (new_cache cap) 0).0 ≡ ok 0 ∷ ok 0 ∷ err "no" ∷ ok 2 ∷ ok 3 ∷ []
unfolding get_or_try_insert
builds_again = refl

run_calls-lru_example :
    FollowAll (run_calls word calls (new_cache cap) 0) (lru_calls word cap calls [] 0)
run_calls-lru_example =
    run_calls-lru word limit cap room calls 0 (omega arith)
      (omega arith, (omega arith, (omega arith, (omega arith, (omega arith, tt)))))

-- ===== src/Functions/Bounded.antt =====
-- src/cache.rs behind src/lib.rs: how many parses a process keeps, whatever it is asked for.
use laterite_duckdb.Base.{
  ℕ, ◌+◌, ◌*◌, ◌≤◌, ◌<◌, ◌≡◌, refl, ◌∙◌, ap, subst, sym, arith, ◌⊎◌, List, [], ◌∷◌, length,
}
use laterite_duckdb.Cache.{new_cache, u64_mod}
use laterite_duckdb.Cache.Memo.{IsValid-length}
use laterite_duckdb.Cache.Invariant.{IsValid, HasRoom, new_cache-IsValid}
use laterite_duckdb.Functions.{Query, Outside, Process, produce, run_all}
use laterite_duckdb.Functions.Valid.{produce-Keeps, run_all-IsValid}
use laterite_duckdb.Source.{max_file_bytes}

module _ (O : Outside) (limit : ℕ) (bounded : max_file_bytes O.H ≤ limit) where
  open O use {C, E, H, T, R, D, J, word}

  run_all-cap :
      (queries : List Query) (s : Process O)
      → HasRoom word limit s.cache.cap
      → s.cache.clock + length queries * 2 < u64_mod
      → IsValid word limit s.cache
      → (run_all O queries s).cache.cap ≡ s.cache.cap
  unfolding run_all
  run_all-cap [] s room young v = refl
  run_all-cap (query ∷ queries) s room young v =
      let kept = (produce-Keeps O limit bounded query).run s room (omega arith) v in
      run_all-cap queries (produce O query s).1 (subst (HasRoom word limit) (sym kept.cap) room)
        (omega (arith, kept.clock)) kept.valid
      ∙ kept.cap

  -- After any sequence of queries on a process with a new cache, whether they succeed or not, with
  -- a byte limit on files of at most `limit`, room in a `usize`, and two ticks for each query
  -- before the clock wraps: the cache has no more parses than its cap has pieces of 4096 bytes, or
  -- has one; so files that are as good as empty do not fill the memory.
  pub run_all-length :
      (queries : List Query) (s : Process O) (cap : ℕ)
      → s.cache ≡ new_cache cap
      → HasRoom word limit cap
      → length queries * 2 < u64_mod
      → (length (run_all O queries s).cache.map * 4096 ≤ cap)
        ⊎ (length (run_all O queries s).cache.map ≤ 1)
  run_all-length queries s cap empty room young =
      let caps : s.cache.cap ≡ cap = ap (λ c. c.cap) empty in
      let clock : s.cache.clock ≡ 0 = ap (λ c. c.clock) empty in
      let room' = subst (HasRoom word limit) (sym caps) room in
      let young' : s.cache.clock + length queries * 2 < u64_mod = omega (arith, clock) in
      let v =
        subst (IsValid word limit) (sym empty)
          (new_cache-IsValid word limit cap (omega (arith, room.two))) in
      let same = run_all-cap queries s room' young' v ∙ caps in
      omega (
        arith,
        same,
        IsValid-length word limit (run_all O queries s).cache
            (run_all-IsValid O limit bounded queries s room' young' v),
      )

-- ===== src/Cache/Lru/Runs.antt =====
-- Calls of `get_or_try_insert` in src/cache.rs, one after another.
use laterite_duckdb.Base.{
  ℕ, ◌+◌, ◌*◌, ◌≤◌, ◌<◌, ◌≡◌, refl, sym, ap₂, ◌∙◌, subst, arith, List, [], ◌∷◌, length, All, Result,
}
use laterite_duckdb.Cache.{Key, Cache, new_cache, get_or_try_insert, u64_mod}
use laterite_duckdb.Cache.Invariant.{IsValid, HasRoom, new_cache-IsValid}
use laterite_duckdb.Cache.Lru.{Slot, lru_call}
use laterite_duckdb.Cache.Lru.Calls.{Refines, Follows, call-Follows}
use laterite_duckdb.Cache.Valid.{get_or_try_insert-IsKept}

-- A key with its builder.
abbrev pub Call : Type 0 → Type 0 → Type 0
Call A W = Key × (W → Result A × W)

abbrev pub Fit : ℕ → {A W : Type 0} → List (Call A W) → Type 0
Fit limit calls = All (λ call. call.0.size ≤ limit) calls

-- The same results in order, the same world, and the list that the cache stands for at the end.
pub record FollowAll {A W : Type 0} (x : List (Result A) × Cache A × W)
    (y : List (Result A) × List (Slot A) × W) : Type 0 where
  pub results : x.0 ≡ y.0
  pub refines : Refines x.1 y.1
  pub world : x.2 ≡ y.2

module _ {A W : Type 0} (word : ℕ) where
  abbrev pub run_calls : List (Call A W) → Cache A → W → List (Result A) × Cache A × W
  run_calls [] c w = ([], c, w)
  run_calls ((key, build) ∷ calls) c w =
      let (r, c', w') = get_or_try_insert word key build c w in
      let (rs, d, v) = run_calls calls c' w' in (r ∷ rs, d, v)

  abbrev pub lru_calls :
      ℕ → List (Call A W) → List (Slot A) → W → List (Result A) × List (Slot A) × W
  lru_calls bytes [] slots w = ([], slots, w)
  lru_calls bytes ((key, build) ∷ calls) slots w =
      let (r, slots', w') = lru_call word bytes key build slots w in
      let (rs, ends, v) = lru_calls bytes calls slots' w' in (r ∷ rs, ends, v)

  module _ (limit cap : ℕ) (room : HasRoom word limit cap) where
    calls-FollowAll :
        (calls : List (Call A W)) (slots : List (Slot A)) (w : W) (c : Cache A)
        → c.cap ≡ cap
        → c.clock + length calls * 2 < u64_mod
        → Fit limit calls
        → IsValid word limit c
        → Refines c slots
        → FollowAll (run_calls calls c w) (lru_calls cap calls slots w)
    calls-FollowAll [] slots w c e young fit v r = record {
      results = refl;
      refines = r;
      world = refl;
    }
    calls-FollowAll ((key, build) ∷ calls) slots w c e young (fits, fit) v r =
        let room' = subst (HasRoom word limit) (sym e) room in
        let kept = get_or_try_insert-IsKept word limit key fits build c w room' (omega arith) v in
        let f : Follows (get_or_try_insert word key build c w)
            (lru_call word cap key build slots w) =
          subst
            (λ n.
              Follows (get_or_try_insert word key build c w) (lru_call word n key build slots w))
            e (call-Follows word limit key build fits slots w c room' (omega arith) v r) in
        let rest =
          calls-FollowAll calls (lru_call word cap key build slots w).1
            (get_or_try_insert word key build c w).2 (get_or_try_insert word key build c w).1
            (kept.cap ∙ e) (omega (arith, kept.clock)) fit kept.valid f.refines in
        let onward =
          subst
            (λ v.
              FollowAll
                (run_calls calls (get_or_try_insert word key build c w).1
                  (get_or_try_insert word key build c w).2)
                (lru_calls cap calls (lru_call word cap key build slots w).1 v))
            f.world rest in
        record {
          results = ap₂ ◌∷◌ f.result onward.results;
          refines = onward.refines;
          world = onward.world;
        }

    -- From an empty cache with room in a `usize`, any sequence of fewer than 2 ^ 63 calls for
    -- files of at most `limit` gives the results and the effects on the world, call by call and in
    -- order, of a list of values and costs in the order of their last use, on which a hit moves
    -- its entry to the front, and a build puts its result there and keeps the longest piece from
    -- the front whose costs fit the cap, or the first entry alone; the entries of the cache at the
    -- end are those of the list.
    pub run_calls-lru :
        (calls : List (Call A W)) (w : W)
        → length calls * 2 < u64_mod
        → Fit limit calls
        → FollowAll (run_calls calls (new_cache cap) w) (lru_calls cap calls [] w)
    run_calls-lru calls w young fit =
        calls-FollowAll calls [] w (new_cache cap) refl (omega arith) fit
          (new_cache-IsValid word limit cap (omega (arith, room.two)))
          (record {
            recent = [];
            orders = record { agree = λ k. refl; distinct = tt; descends = tt };
            same = refl;
          })

-- ===== src/Cache/Order/Calls.antt =====
-- src/cache.rs: a call of `get_or_try_insert` on maps that iterate in different orders.
use laterite_duckdb.Base.{
  ℕ, ◌+◌, ◌<◌, ◌≡◌, refl, sym, arith, Option, none, some, Result, ok, err, panic, ◌==◌, nat_eq,
  Bool-cases, inl, inr,
}
use laterite_duckdb.Base.HashMap
use laterite_duckdb.Base.HashMap.{NodupKeys}
use laterite_duckdb.Cache.{
  Key, key_eq, Entry, Cache, Probe, disabled, hit, miss, next_tick, u64_mod, touch, probe, finish,
  get_or_try_insert,
}
use laterite_duckdb.Cache.Order.{IsSame}
use native.Mathlib.Nat.{mod-eq_of_lt}
use laterite_duckdb.Cache.Order.Sections.{publish-IsSame, probe-IsSame}

module _ {A : Type 0} where
  -- The outcomes of two calls: the same result, the same effect on the world, and caches that
  -- differ in order alone.
  pub record IsSameOutcome {W : Type 0} (x y : Result A × Cache A × W) : Type 0 where
    pub result : x.0 ≡ y.0
    pub caches : IsSame x.1 y.1
    pub world : x.2 ≡ y.2

  touch-clock :
      (key : Key) (o : Option (Entry A)) (c : Cache A) → (touch key o c).1.clock ≡ next_tick c
  unfolding touch
  touch-clock key none c = refl
  touch-clock key (some e) c = refl

  probe_clock-le :
      (key : Key) (c : Cache A) → c.clock + 2 < u64_mod → (probe key c).1.clock + 1 < u64_mod
  unfolding probe
  probe_clock-le key c young =
      let tick : next_tick c ≡ c.clock + 1 = mod-eq_of_lt (omega arith) in
      elim (Bool-cases (c.cap == 0)) [
        | inl off ↦ rw off (omega arith)
        | inr on ↦ rw on (omega (arith, touch-clock key (HashMap.get key c.map) c, tick))
      ]

  module _ {W : Type 0} (word : ℕ) (key : Key) where
    finish-IsSameOutcome :
        (built : Result A × W) {c d : Cache A}
        → c.clock + 1 < u64_mod
        → IsSame c d
        → IsSameOutcome (finish word key built c) (finish word key built d)
    unfolding finish
    finish-IsSameOutcome (ok parsed, w) young s = record {
      result = refl;
      caches = publish-IsSame young s word key parsed;
      world = refl;
    }
    finish-IsSameOutcome (err e, w) young s = record { result = refl; caches = s; world = refl }
    finish-IsSameOutcome (panic, w) young s = record { result = refl; caches = s; world = refl }

    -- What the call does with the finding of its first critical section.
    answer : (W → Result A × W) → W → Probe A → Cache A → Result A × Cache A × W
    answer build w disabled c = let (r, w') = build w in (r, c, w')
    answer build w (hit parsed) c = (ok parsed, c, w)
    answer build w miss c = finish word key (build w) c

    get_or_try_insert_lem :
        (build : W → Result A × W) (w : W) (c : Cache A) (found : Probe A)
        → (probe key c).0 ≡ found
        → get_or_try_insert word key build c w ≡ answer build w found (probe key c).1
    unfolding get_or_try_insert answer
    get_or_try_insert_lem build w c disabled h = rw (h, get_or_try_insert)
    get_or_try_insert_lem build w c (hit parsed) h = rw (h, get_or_try_insert)
    get_or_try_insert_lem build w c miss h = rw (h, get_or_try_insert)

    answer-IsSameOutcome :
        (build : W → Result A × W) (w : W) (found : Probe A) {c d : Cache A}
        → c.clock + 1 < u64_mod
        → IsSame c d
        → IsSameOutcome (answer build w found c) (answer build w found d)
    unfolding answer
    answer-IsSameOutcome build w disabled young s = record {
      result = refl;
      caches = s;
      world = refl;
    }
    answer-IsSameOutcome build w (hit parsed) young s = record {
      result = refl;
      caches = s;
      world = refl;
    }
    answer-IsSameOutcome build w miss young s = finish-IsSameOutcome (build w) young s

    -- On caches with distinct keys that differ in the iteration order of their maps alone, whose
    -- stamps are distinct and in the past, and before the clock's last two values: a call has the
    -- same result and the same effect on the world, and leaves caches that again differ in order
    -- alone.
    pub get_or_try_insert-IsSameOutcome :
        (build : W → Result A × W) (w : W) (c d : Cache A)
        → c.clock + 2 < u64_mod
        → IsSame c d
        → IsSameOutcome
            (get_or_try_insert word key build c w)
            (get_or_try_insert word key build d w)
    get_or_try_insert-IsSameOutcome build w c d young s =
        let (same, caches) = probe-IsSame (omega arith) s key in
        rw
          (
            get_or_try_insert_lem build w c (probe key c).0 refl,
            get_or_try_insert_lem build w d (probe key c).0 (sym same),
          )
          (answer-IsSameOutcome build w (probe key c).0 (probe_clock-le key c young) caches)

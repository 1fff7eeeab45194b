-- ===== src/Cache/Lookup.antt =====
-- The first critical section in src/cache.rs keeps the cache's invariant.
use laterite_duckdb.Base.{
  ℕ, ◌+◌, ◌<◌, ◌≡◌, refl, ◌==◌, nat_eq, Option, none, some, arith, inl, inr, All, Bool-cases, sym,
  subst,
}
use laterite_duckdb.Base.HashMap
use laterite_duckdb.Base.HashMap.{NodupKeys}
use laterite_duckdb.Cache.{Key, key_eq, Entry, Cache, u64_mod, next_tick, probe, touch}
use laterite_duckdb.Cache.Entries.{costs-replace, All-insert, All-get}
use laterite_duckdb.Cache.Invariant.{IsValid, EntryFits, tick_step, later_EntryFits}

module _ (word limit : ℕ) {A : Type 0} where
  touch-IsValid :
      (key : Key) (o : Option (Entry A)) (c : Cache A)
      → HashMap.get key c.map ≡ o
      → c.clock + 1 < u64_mod
      → IsValid word limit c
      → IsValid word limit (touch key o c).1
  unfolding touch
  touch-IsValid key none c found young v = record {
    counted = record {
      distinct = v.counted.distinct;
      counted = v.counted.counted;
      small = v.counted.small;
    };
    entries =
        subst (λ t. All (EntryFits limit t) c.map) (sym (tick_step word limit c young))
          (later_EntryFits word limit {A = A} c.clock c.map v.entries);
    done = v.done;
  }
  touch-IsValid key (some e) c found young v = record {
    counted = record {
      distinct = HashMap.insert-NodupKeys key _ c.map v.counted.distinct;
      counted = rw found (
          omega (
            arith,
            costs-replace key e (record e { tick = next_tick c }) c.map found,
            v.counted.counted,
          ));
      small = v.counted.small;
    };
    entries =
        let fit = All-get (EntryFits limit c.clock) key e c.map v.entries found in
        All-insert (EntryFits limit (next_tick c)) key _ c.map (omega (arith), fit.1)
          (subst (λ t. All (EntryFits limit t) c.map) (sym (tick_step word limit c young))
            (later_EntryFits word limit {A = A} c.clock c.map v.entries));
    done = rw (found, HashMap.length-replace) v.done;
  }

  -- The first critical section keeps the invariant of a valid cache before the clock wraps,
  -- whether it hits, misses or finds the cache disabled.
  pub probe-IsValid :
      (key : Key) (c : Cache A)
      → c.clock + 1 < u64_mod
      → IsValid word limit c
      → IsValid word limit (probe key c).1
  unfolding probe
  probe-IsValid key c young v = elim (Bool-cases (c.cap == 0)) [
    | inl off ↦ rw off v
    | inr on ↦ rw on (touch-IsValid key (HashMap.get key c.map) c refl young v)
  ]

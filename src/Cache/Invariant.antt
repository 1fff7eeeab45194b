-- ===== src/Cache/Invariant.antt =====
-- The invariant of the cache in src/cache.rs, and that both critical sections keep it.
use laterite_duckdb.Base.{
  ℕ, ◌+◌, ◌-◌, ◌≤◌, ◌<◌, ◌≡◌, refl, ◌∙◌, nat_eq, Option, none, some, List, [], ◌∷◌, arith, ◌⊎◌, inr,
  length, All, All-map, sym, subst,
}
use native.Mathlib.Nat.{mod-eq_of_lt}
use laterite_duckdb.Base.HashMap
use laterite_duckdb.Base.HashMap.{NodupKeys}
use laterite_duckdb.Cache.{
  Key, key_eq, Entry, Cache, min_entry_cost, u64_mod, entry_cost, reconcile, next_tick, store,
  publish, evict_to_cap, new_cache,
}
use laterite_duckdb.Cache.Entries.{
  costs, old_cost, costs-insert, old_cost-le, All-remove, All-insert,
}
use laterite_duckdb.Cache.Evict.{
  IsCounted, IsDone, sub_usize-eq, evict_loop_induction, evict_to_cap-IsDone,
}

-- No entry costs more than `limit`, and a `usize` has room for one more.
pub record HasRoom (word limit cap : ℕ) : Type 0 where
  pub floor : min_entry_cost ≤ limit
  pub two : limit + limit < word
  pub over : cap + limit < word

-- An entry's stamp is in the past, and its cost lies between the floor and the limit.
abbrev pub EntryFits : ℕ → ℕ → {A : Type 0} → Key × Entry A → Type 0
EntryFits limit clock y = (y.1.tick ≤ clock) × ((min_entry_cost ≤ y.1.cost) × (y.1.cost ≤ limit))

pub record IsValid (word limit : ℕ) {A : Type 0} (c : Cache A) : Type 0 where
  pub counted : IsCounted word c
  pub entries : All (EntryFits limit c.clock) c.map
  pub done : IsDone c

entry_cost_bounds :
    (word limit bytes size : ℕ)
    → HasRoom word limit bytes
    → size ≤ limit
    → (min_entry_cost ≤ entry_cost word size) × (entry_cost word size ≤ limit)
entry_cost_bounds word limit bytes size room fits =
    let exact = mod-eq_of_lt {n = size} {m = word} (omega arith) in (omega arith, omega arith)

module _ (word limit : ℕ) {A : Type 0} where
  pub new_cache-IsValid : (cap : ℕ) → 0 < word → IsValid word limit (new_cache {A = A} cap)
  new_cache-IsValid cap h = record {
    counted = record { distinct = tt; counted = refl; small = h };
    entries = tt;
    done = inr (omega arith);
  }

  -- The total passes the cap only by a single entry.
  total_bound : (c : Cache A) → IsValid word limit c → (c.total ≤ c.cap) ⊎ (c.total ≤ limit)
  total_bound c v = bound_of c.map v.counted.counted v.entries v.done
    where
      bound_of :
          (m : List (Key × Entry A))
          → c.total ≡ costs m
          → All (EntryFits limit c.clock) m
          → (c.total ≤ c.cap) ⊎ (length m ≤ 1)
          → (c.total ≤ c.cap) ⊎ (c.total ≤ limit)
      bound_of [] e b d = omega arith
      bound_of (y ∷ []) e b d = omega arith
      bound_of (y ∷ z ∷ m) e b d = omega arith

  reconcile-eq :
      (o : Option (Entry A)) (total : ℕ)
      → old_cost o ≤ total
      → total < word
      → reconcile word o total ≡ total - old_cost o
  reconcile-eq none total h k = omega arith
  reconcile-eq (some e) total h k = sub_usize-eq word total e.cost h k

  store-total :
      (key : Key) (parsed : A) (c : Cache A)
      → HasRoom word limit c.cap
      → key.size ≤ limit
      → IsValid word limit c
      → ((store word key parsed c).total ≡ costs (store word key parsed c).map)
        × ((store word key parsed c).total < word)
  unfolding store
  store-total key parsed c room fits v =
      let f : Entry A = record {
        parsed = parsed;
        cost = entry_cost word key.size;
        tick = next_tick c;
      } in
      let old = (HashMap.insert key f c.map).1 in
      let paid = costs-insert key f c.map in
      let before = old_cost-le key f c.map in
      let left =
        reconcile-eq old c.total (omega (arith, before, v.counted.counted)) v.counted.small in
      let cost = entry_cost_bounds word limit c.cap key.size room fits in
      let total = total_bound c v in
      let fit : reconcile word old c.total + entry_cost word key.size < word =
        omega (arith, left, cost.1, total) in
      let exact = mod-eq_of_lt fit in
      (omega (arith, exact, left, paid, before, v.counted.counted), omega (arith, exact, fit))

  pub store-IsCounted :
      (key : Key) (parsed : A) (c : Cache A)
      → HasRoom word limit c.cap
      → key.size ≤ limit
      → IsValid word limit c
      → IsCounted word (store word key parsed c)
  unfolding store
  store-IsCounted key parsed c room fits v = record {
    distinct = HashMap.insert-NodupKeys key _ c.map v.counted.distinct;
    counted = (store-total key parsed c room fits v).0;
    small = (store-total key parsed c room fits v).1;
  }

  pub tick_step : (c : Cache A) → c.clock + 1 < u64_mod → next_tick c ≡ c.clock + 1
  tick_step c h = mod-eq_of_lt h

  pub later_EntryFits :
      (clock : ℕ) (m : List (Key × Entry A))
      → All (EntryFits limit clock) m
      → All (EntryFits limit (clock + 1)) m
  later_EntryFits clock m =
      All-map (EntryFits limit clock) (EntryFits limit (clock + 1)) m (λ y h. omega arith)

  -- What the eviction keeps besides the count.
  pub record IsEvicted (c d : Cache A) : Type 0 where
    pub clock : d.clock ≡ c.clock
    pub cap : d.cap ≡ c.cap
    pub entries : All (EntryFits limit c.clock) d.map

  evict-IsEvicted :
      (c : Cache A)
      → IsCounted word c
      → All (EntryFits limit c.clock) c.map
      → IsEvicted c (evict_to_cap word c)
  unfolding evict_to_cap
  evict-IsEvicted c h a =
      evict_loop_induction word (IsEvicted c)
        (λ k e d found old more p. record {
          clock = p.clock;
          cap = p.cap;
          entries = All-remove (EntryFits limit c.clock) k d.map p.entries;
        })
        (length c.map) c h (record { clock = refl; cap = refl; entries = a })

  module _ (key : Key) (parsed : A) (c : Cache A) (room : HasRoom word limit c.cap)
      (fits : key.size ≤ limit) (young : c.clock + 1 < u64_mod) (v : IsValid word limit c) where
    store-EntryFits : All (EntryFits limit (c.clock + 1)) (store word key parsed c).map
    unfolding store
    store-EntryFits =
        let cost = entry_cost_bounds word limit c.cap key.size room fits in
        All-insert (EntryFits limit (c.clock + 1)) key _ c.map
          (omega (arith, tick_step c young), cost) (later_EntryFits c.clock c.map v.entries)

    published : IsEvicted (store word key parsed c) (publish word key parsed c)
    unfolding publish
    published =
        evict-IsEvicted (store word key parsed c) (store-IsCounted key parsed c room fits v) (
          subst (λ t. All (EntryFits limit t) (store word key parsed c).map)
            (sym (tick_step c young)) store-EntryFits)

    pub publish-clock : (publish word key parsed c).clock ≡ c.clock + 1
    publish-clock = unfold store in published.clock ∙ tick_step c young

    pub publish-cap : (publish word key parsed c).cap ≡ c.cap
    publish-cap = unfold store in published.cap

    -- The second critical section keeps the invariant of a valid cache, for a file within the
    -- limit, with room in a `usize` and before the clock wraps: distinct keys, an exact byte
    -- total, entry costs from the floor to the limit, stamps in the past, and the cap kept or one
    -- entry left.
    pub publish-IsValid : IsValid word limit (publish word key parsed c)
    unfolding publish
    publish-IsValid =
        let evicted =
          evict_to_cap-IsDone word (store word key parsed c)
            (store-IsCounted key parsed c room fits v) in
        record {
          counted = evicted.0;
          entries =
              subst (λ t. All (EntryFits limit t) (publish word key parsed c).map)
                (sym published.clock) published.entries;
          done = evicted.1;
        }

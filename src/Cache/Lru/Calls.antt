-- ===== src/Cache/Lru/Calls.antt =====
-- Calls of `get_or_try_insert` in src/cache.rs answer as the recency list does.
use laterite_duckdb.Base.{
  ℕ, ◌+◌, ◌≤◌, ◌<◌, ◌≡◌, refl, sym, ap, ◌∙◌, subst, arith, Option, none, some, List, ◌∷◌, true,
  false, ◌==◌, nat_eq, All, All-map, Bool-cases, inl, inr, Result, ok, err, panic,
}
use laterite_duckdb.Base.HashMap
use laterite_duckdb.Cache.{
  Key, key_eq, Entry, Cache, Probe, disabled, hit, miss, probe, touch, next_tick, store, publish,
  finish, entry_cost, get_or_try_insert, u64_mod,
}
use laterite_duckdb.Cache.Memo.{call_hit, call_miss, call_disabled}
use laterite_duckdb.Cache.Invariant.{IsValid, HasRoom, EntryFits, tick_step, store-IsCounted}
use laterite_duckdb.Cache.Lookup.{probe-IsValid}
use laterite_duckdb.Cache.Lru.{
  keep, Slot, slot_cost, lru_finish, lru_found, lru_call, Orders, insert-Orders,
}
use laterite_duckdb.Cache.Lru.Kept.{entry_cost_of, evict_to_cap-keep}
use laterite_duckdb.Cache.Lru.Slots.{forget, slot_of, get-forget, remove-forget, keep-forget}

module _ {A : Type 0} where
  -- The cache stands for the list.
  pub record Refines (c : Cache A) (slots : List (Slot A)) : Type 0 where
    pub recent : List (Key × Entry A)
    pub orders : Orders c.map recent
    pub same : forget recent ≡ slots

  -- A call and its description: the same result, the same effect, and the list that the cache
  -- stands for afterwards.
  pub record Follows {W : Type 0} (x : Result A × Cache A × W) (y : Result A × List (Slot A) × W)
      : Type 0 where
    pub result : x.0 ≡ y.0
    pub refines : Refines x.1 y.1
    pub world : x.2 ≡ y.2

  module _ (word limit : ℕ) (key : Key) (c : Cache A) (young : c.clock + 1 < u64_mod)
      (v : IsValid word limit c) where
    all_older : All (λ y. y.1.tick < next_tick c) c.map
    all_older =
        All-map (EntryFits limit c.clock) (λ y. y.1.tick < next_tick c) c.map
          (λ y h. omega (arith, tick_step word limit c young)) v.entries

    -- An entry that is stamped with the next tick moves to the front.
    stamped :
        (slots : List (Slot A)) (f : Entry A)
        → f.tick ≡ next_tick c
        → (r : Refines c slots)
        → Orders (HashMap.insert key f c.map).0 ((key, f) ∷ HashMap.remove key r.recent)
    stamped slots f newest r =
        insert-Orders key f c.map r.recent r.orders
          (subst (λ t. All (λ y. y.1.tick < t) c.map) (sym newest) all_older)

    in_front :
        (slots : List (Slot A)) (f : Entry A) (r : Refines c slots)
        → forget ((key, f) ∷ HashMap.remove key r.recent)
          ≡ (key, (f.parsed, f.cost)) ∷ HashMap.remove key slots
    in_front slots f r =
        ap (◌∷◌ (key, (f.parsed, f.cost)))
          (sym (remove-forget key r.recent) ∙ ap (HashMap.remove key) r.same)

    found-Follows :
        {W : Type 0} (slots : List (Slot A)) (w : W) (e : Entry A)
        → Refines c slots
        → Follows
            (ok e.parsed, (touch key (some e) c).1, w)
            (ok e.parsed, (key, (e.parsed, e.cost)) ∷ HashMap.remove key slots, w)
    unfolding touch
    found-Follows slots w e r = record {
      result = refl;
      refines = record {
        recent = (key, record e { tick = next_tick c }) ∷ HashMap.remove key r.recent;
        orders = stamped slots (record e { tick = next_tick c }) refl r;
        same = in_front slots (record e { tick = next_tick c }) r;
      };
      world = refl;
    }

    publish-Refines :
        (slots : List (Slot A)) (a : A)
        → HasRoom word limit c.cap
        → key.size ≤ limit
        → Refines c slots
        → Refines
            (publish word key a c)
            (keep slot_cost c.cap ((key, (a, entry_cost word key.size)) ∷ HashMap.remove key slots))
    unfolding publish
    publish-Refines slots a room fits r =
        let f : Entry A = record {
          parsed = a;
          cost = entry_cost word key.size;
          tick = next_tick c;
        } in
        let recent = (key, f) ∷ HashMap.remove key r.recent in
        record {
          recent = keep entry_cost_of c.cap recent;
          orders =
              let stored : Orders (store word key a c).map recent =
                unfold store in stamped slots f refl r in
              unfold store in
              evict_to_cap-keep word recent (store word key a c)
                (store-IsCounted word limit key a c room fits v) stored;
          same = sym (keep-forget c.cap recent) ∙ ap (keep slot_cost c.cap) (in_front slots f r);
        }

    finish-Follows :
        {W : Type 0} (slots : List (Slot A)) (built : Result A × W)
        → HasRoom word limit c.cap
        → key.size ≤ limit
        → Refines c slots
        → Follows (finish word key built c) (lru_finish word c.cap key built slots)
    unfolding finish
    finish-Follows slots (ok a, w) room fits r = record {
      result = refl;
      refines = publish-Refines slots a room fits r;
      world = refl;
    }
    finish-Follows slots (err e, w) room fits r = record {
      result = refl;
      refines = r;
      world = refl;
    }
    finish-Follows slots (panic, w) room fits r = record {
      result = refl;
      refines = r;
      world = refl;
    }

  probe_off : (key : Key) (c : Cache A) → (c.cap == 0) ≡ true → probe key c ≡ (disabled, c)
  unfolding probe
  probe_off key c off = rw off refl

  probe-touch :
      (key : Key) (c : Cache A) (o : Option (Entry A))
      → (c.cap == 0) ≡ false
      → HashMap.get key c.map ≡ o
      → probe key c ≡ touch key o c
  unfolding probe
  probe-touch key c o on found = rw (on, found) refl

  touch-none :
      (key : Key) (c : Cache A) → touch key none c ≡ (miss, record c { clock = next_tick c })
  unfolding touch
  touch-none key c = refl

  touch-some : (key : Key) (e : Entry A) (c : Cache A) → (touch key (some e) c).0 ≡ hit e.parsed
  unfolding touch
  touch-some key e c = refl

  module _ {W : Type 0} (word limit : ℕ) (key : Key) (build : W → Result A × W)
      (fits : key.size ≤ limit) where
    answered :
        (slots : List (Slot A)) (w : W) (c : Cache A) (o : Option (Entry A))
        → (c.cap == 0) ≡ false
        → HashMap.get key c.map ≡ o
        → HasRoom word limit c.cap
        → c.clock + 2 < u64_mod
        → IsValid word limit c
        → Refines c slots
        → Follows
            (get_or_try_insert word key build c w)
            (lru_found word c.cap key build (slot_of o) slots w)
    answered slots w c (some e) on found room young v r =
        let p = probe-touch key c (some e) on found in
        let called = call_hit word key build c w e.parsed (ap (λ q. q.0) p ∙ touch-some key e c) in
        rw (called, p) (found-Follows word limit key c (omega arith) v slots w e r)
    answered slots w c none on absent room young v r =
        let p = probe-touch key c none on absent ∙ touch-none key c in
        let called = call_miss word key build c w (ap (λ q. q.0) p) in
        let valid =
          subst (λ (q : Probe A × Cache A). IsValid word limit q.1) p
            (probe-IsValid word limit key c (omega arith) v) in
        rw (called, p)
          (finish-Follows word limit key (record c { clock = next_tick c })
            (omega (arith, tick_step word limit c (omega arith))) valid slots (build w) room fits
            (record { recent = r.recent; orders = r.orders; same = r.same }))

    -- A call does to the list what `lru_call` says.
    pub call-Follows :
        (slots : List (Slot A)) (w : W) (c : Cache A)
        → HasRoom word limit c.cap
        → c.clock + 2 < u64_mod
        → IsValid word limit c
        → Refines c slots
        → Follows (get_or_try_insert word key build c w) (lru_call word c.cap key build slots w)
    call-Follows slots w c room young v r = elim (Bool-cases (c.cap == 0)) [
      | inl off ↦
          let p = probe_off key c off in
          let called = call_disabled word key build c w (ap (λ q. q.0) p) in
          rw (called, off, p) (record { result = refl; refines = r; world = refl })
      | inr on ↦
          let same : HashMap.get key slots ≡ slot_of (HashMap.get key c.map) =
            ap (HashMap.get key) (sym r.same)
            ∙ get-forget key r.recent
            ∙ ap slot_of (sym (r.orders.agree key)) in
          rw (on, same) (answered slots w c (HashMap.get key c.map) on refl room young v r)
    ]

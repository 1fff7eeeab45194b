-- ===== src/Cache/Order/Sections.antt =====
-- src/cache.rs: the critical sections on maps that iterate in different orders.
use laterite_duckdb.Base.{
  ℕ, ◌+◌, ◌%◌, ◌⊎◌, ◌≤◌, ◌<◌, ◌≡◌, refl, sym, ap, ◌∙◌, subst, arith, true, false, Option, none,
  some, List, ◌==◌, nat_eq, Bool-cases, inl, inr, if◌then◌else◌,
}
use laterite_duckdb.Base.HashMap
use laterite_duckdb.Base.HashMap.{NodupKeys}
use laterite_duckdb.Cache.{
  Key, key_eq, key_beq_iff, Entry, Cache, next_tick, u64_mod, touch, probe, store, entry_cost,
  reconcile, add_usize, publish,
}
use laterite_duckdb.Cache.Order.{IsSame, evict_to_cap-IsSame}
use native.Mathlib.Nat.{mod-eq_of_lt}

module _ {A : Type 0} where
  -- Where an entry of a map comes from after an insertion.
  inserted :
      (key j : Key) (f e : Entry A) (m : List (Key × Entry A))
      → HashMap.get j (HashMap.insert key f m).0 ≡ some e
      → ((key ≡ j) × (f ≡ e)) ⊎ (HashMap.get j m ≡ some e)
  inserted key j f e m h = elim (Bool-cases (key == j)) [
    | inl same ↦ inl ((key_beq_iff key j).0 same, ground (arith, HashMap.get-insert key j f m))
    | inr other ↦ inr (ground (arith, HashMap.get-insert key j f m))
  ]

  -- Both caches get the same entry, stamped with the next tick.
  put : Key → Entry A → ℕ → Cache A → Cache A
  put key f total c = record c {
    map = (HashMap.insert key (record f { tick = next_tick c }) c.map).0;
    total = total;
    clock = next_tick c;
  }

  module _ {c d : Cache A} (young : c.clock + 1 < u64_mod) (s : IsSame c d) where
    later : next_tick c ≡ c.clock + 1
    later = mod-eq_of_lt young

    same_tick : next_tick c ≡ next_tick d
    same_tick = ap (λ t. (t + 1) % u64_mod) s.clock

    put-IsSame :
        (key : Key) (f : Entry A) (total : ℕ) → IsSame (put key f total c) (put key f total d)
    unfolding put
    put-IsSame key f total =
        let g : Entry A = record f { tick = next_tick c } in
        let old = λ (j : Key) (e : Entry A) (h : HashMap.get j c.map ≡ some e). s.past j e h in
        rw (← same_tick) (record {
          agree = λ j.
              HashMap.get-insert key j g c.map
              ∙ ap (λ o. if key == j then some g else o) (s.agree j)
              ∙ sym (HashMap.get-insert key j g d.map);
          total = refl;
          cap = s.cap;
          clock = refl;
          distinct = HashMap.insert-NodupKeys key g c.map s.distinct;
          distinct' = HashMap.insert-NodupKeys key g d.map s.distinct';
          past = λ j e h. elim (inserted key j g e c.map h) [
            | inl (_, same) ↦ subst (λ (x : Entry A). x.tick ≤ next_tick c) same (omega arith)
            | inr before ↦ omega (arith, s.past j e before, later)
          ];
          apart = λ i j e f hi hj same.
              apart_after key g i j e f later same (inserted key i g e c.map hi)
                (inserted key j g f c.map hj);
        })
      where
        apart_after :
            (key : Key) (g : Entry A) (i j : Key) (e f : Entry A)
            → g.tick ≡ c.clock + 1
            → e.tick ≡ f.tick
            → ((key ≡ i) × (g ≡ e)) ⊎ (HashMap.get i c.map ≡ some e)
            → ((key ≡ j) × (g ≡ f)) ⊎ (HashMap.get j c.map ≡ some f)
            → i ≡ j
        apart_after key g i j e f newest same (inl (a, _)) (inl (b, _)) = sym a ∙ b
        apart_after key g i j e f newest same (inl (_, a)) (inr b) =
            absurd (omega (arith, newest, s.past j f b, ap (λ (x : Entry A). x.tick) a, same))
        apart_after key g i j e f newest same (inr a) (inl (_, b)) =
            absurd (omega (arith, newest, s.past i e a, ap (λ (x : Entry A). x.tick) b, same))
        apart_after key g i j e f newest same (inr a) (inr b) = s.apart i j e f a b same

    waited : Cache A → Cache A
    waited c = record c { clock = next_tick c }

    waited-IsSame : IsSame (waited c) (waited d)
    unfolding waited
    waited-IsSame = record {
      agree = s.agree;
      total = s.total;
      cap = s.cap;
      clock = same_tick;
      distinct = s.distinct;
      distinct' = s.distinct';
      past = λ j e h. omega (arith, s.past j e h, later);
      apart = s.apart;
    }

    touch-IsSame :
        (key : Key) (o : Option (Entry A))
        → ((touch key o c).0 ≡ (touch key o d).0) × IsSame (touch key o c).1 (touch key o d).1
    unfolding touch put waited
    touch-IsSame key none = (refl, waited-IsSame)
    touch-IsSame key (some e) = (
      refl,
      subst (λ t. IsSame (put key e c.total c) (put key e t d)) s.total (put-IsSame key e c.total),
    )

    store-IsSame :
        (word : ℕ) (key : Key) (parsed : A)
        → IsSame (store word key parsed c) (store word key parsed d)
    unfolding store put
    store-IsSame word key parsed =
        let cost = entry_cost word key.size in
        let charged =
          λ (total : ℕ) (o : Option (Entry A)). add_usize word (reconcile word o total) cost in
        let f : Entry A = record { parsed = parsed; cost = cost; tick = 0 } in
        subst (λ t. IsSame (put key f (charged c.total (HashMap.get key c.map)) c) (put key f t d))
          (ap (λ t. charged t (HashMap.get key c.map)) s.total ∙ ap (charged d.total) (s.agree key))
          (put-IsSame key f (charged c.total (HashMap.get key c.map)))

    pub publish-IsSame :
        (word : ℕ) (key : Key) (parsed : A)
        → IsSame (publish word key parsed c) (publish word key parsed d)
    unfolding publish
    publish-IsSame word key parsed =
        evict_to_cap-IsSame word (store word key parsed c) (store word key parsed d)
          (store-IsSame word key parsed)

    pub probe-IsSame :
        (key : Key) → ((probe key c).0 ≡ (probe key d).0) × IsSame (probe key c).1 (probe key d).1
    unfolding probe
    probe-IsSame key = elim (Bool-cases (c.cap == 0)) [
      | inl off ↦ let off' : (d.cap == 0) ≡ true = rw (← s.cap) off in rw (off, off') (refl, s)
      | inr on ↦
          let on' : (d.cap == 0) ≡ false = rw (← s.cap) on in
          rw (on, on', ← s.agree key) (touch-IsSame key (HashMap.get key c.map))
    ]

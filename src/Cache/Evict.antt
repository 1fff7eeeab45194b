-- ===== src/Cache/Evict.antt =====
-- The loop of `evict_to_cap` in src/cache.rs: its fuel suffices, the byte total stays exact, and
-- what goes is older than what stays.
use laterite_duckdb.Base.{
  ℕ, zero, suc, ◌-◌, ◌≤◌, ◌<◌, ◌≡◌, some, arith, ◌⊎◌, inl, inr, length, All, All-map,
  some-injective, ◌∙◌, Bool-cases, ltb, ◌&&◌, sym, subst,
}
use laterite_duckdb.Base.HashMap
use laterite_duckdb.Base.HashMap.{NodupKeys}
use laterite_duckdb.Cache.{
  Key, key_eq, Entry, Cache, drop_victim, evict_loop, evict_to_cap, sub_usize,
}
use laterite_duckdb.Cache.Entries.{
  costs, costs-remove, All-get_self, All-remove, All-of_remove, oldest-get, oldest-le, oldest-some,
}

-- The byte total is the sum of the entries' costs, and a `usize` holds it.
pub record IsCounted (word : ℕ) {A : Type 0} (c : Cache A) : Type 0 where
  pub distinct : NodupKeys c.map
  pub counted : c.total ≡ costs c.map
  pub small : c.total < word

-- The loop's test is false.
abbrev pub IsDone : {A : Type 0} → Cache A → Type 0
IsDone c = (c.total ≤ c.cap) ⊎ (length c.map ≤ 1)

pub sub_usize-eq : (word a b : ℕ) → b ≤ a → a < word → sub_usize word a b ≡ a - b
sub_usize-eq word a b h k = grind arith

module _ (word : ℕ) {A : Type 0} where
  drop_victim-eq :
      (k : Key) (e : Entry A) (c : Cache A)
      → IsCounted word c
      → HashMap.get k c.map ≡ some e
      → drop_victim word k c ≡ record c { map = HashMap.remove k c.map; total = c.total - e.cost }
  unfolding drop_victim
  drop_victim-eq k e c h g =
      let paid = costs-remove k e c.map h.distinct g in
      rw (g, drop_victim, sub_usize-eq word c.total e.cost (omega (arith, h.counted)) h.small)

  drop_victim-IsCounted :
      (k : Key) (e : Entry A) (c : Cache A)
      → IsCounted word c
      → HashMap.get k c.map ≡ some e
      → IsCounted word (drop_victim word k c)
  drop_victim-IsCounted k e c h g = rw (drop_victim-eq k e c h g) (record {
    distinct = HashMap.remove-NodupKeys k c.map h.distinct;
    counted = omega (arith, costs-remove k e c.map h.distinct g, h.counted);
    small = omega (arith, h.small);
  })

  -- How one round of the loop goes.
  data Round (fuel : ℕ) (c : Cache A) : Type 0 where
    stop : IsDone c → evict_loop word (suc fuel) c ≡ c → Round fuel c
    evict :
        (k : Key) (e : Entry A)
        → HashMap.get k c.map ≡ some e
        → All (λ y. e.tick ≤ y.1.tick) c.map
        → evict_loop word (suc fuel) c ≡ evict_loop word fuel (drop_victim word k c)
        → 1 < length c.map
        → c.cap < c.total
        → Round fuel c

  round : (fuel : ℕ) (c : Cache A) → NodupKeys c.map → Round fuel c
  unfolding evict_loop
  round fuel c d = elim (Bool-cases (ltb c.cap c.total && ltb 1 (length c.map))) [
    | inl more ↦
        let (x, found) = oldest-some c.map (ground arith) in
        evict x.0 x.1 (oldest-get x c.map d found) (oldest-le x c.map found) (rw (more, found))
          (ground arith) (ground arith)
    | inr done ↦ stop (ground arith) (rw done)
  ]

  -- With as many rounds as entries the loop ends by its own test, and the total stays exact.
  evict_loop-IsDone :
      (fuel : ℕ) (c : Cache A)
      → IsCounted word c
      → length c.map ≤ fuel
      → IsCounted word (evict_loop word fuel c) × IsDone (evict_loop word fuel c)
  evict_loop-IsDone zero c h b = unfold evict_loop in (h, inr (omega arith))
  evict_loop-IsDone (suc fuel) c h b = elim (round fuel c h.distinct) [
    | stop done same ↦ rw same (h, done)
    | evict k e found old next more over ↦
        let shorter = HashMap.length-remove k e c.map h.distinct found in
        rw next (
          evict_loop-IsDone fuel (drop_victim word k c) (drop_victim-IsCounted k e c h found)
            (rw (drop_victim-eq k e c h found) (omega arith)))
  ]

  -- What every round of the loop keeps, the loop keeps.
  pub evict_loop_rounds {ℓ} :
      (P : Cache A → Type ℓ)
      → ((k : Key) (e : Entry A) (c : Cache A)
          → IsCounted word c
          → c.cap < c.total
          → HashMap.get k c.map ≡ some e
          → All (λ y. e.tick ≤ y.1.tick) c.map
          → 1 < length c.map
          → P c
          → P (record c { map = HashMap.remove k c.map; total = c.total - e.cost }))
      → (fuel : ℕ) (c : Cache A) → IsCounted word c
      → P c
      → P (evict_loop word fuel c)
  evict_loop_rounds P keep zero c h p = unfold evict_loop in p
  evict_loop_rounds P keep (suc fuel) c h p = elim (round fuel c h.distinct) [
    | stop done same ↦ rw same p
    | evict k e found old next more over ↦ rw next (
        evict_loop_rounds P keep fuel (drop_victim word k c) (drop_victim-IsCounted k e c h found)
          (rw (drop_victim-eq k e c h found) (keep k e c h over found old more p)))
  ]

  -- What every removal of an oldest entry keeps, the loop keeps.
  pub evict_loop_induction {ℓ} :
      (P : Cache A → Type ℓ)
      → ((k : Key) (e : Entry A) (c : Cache A)
          → HashMap.get k c.map ≡ some e
          → All (λ y. e.tick ≤ y.1.tick) c.map
          → 1 < length c.map
          → P c
          → P (record c { map = HashMap.remove k c.map; total = c.total - e.cost }))
      → (fuel : ℕ) (c : Cache A) → IsCounted word c
      → P c
      → P (evict_loop word fuel c)
  evict_loop_induction P keep = evict_loop_rounds P (λ k e c h over. keep k e c)

  -- An entry stays with its value, or is no newer than any that stays.
  abbrev pub KeptOrOlder : Cache A → Key × Entry A → Type 0
  KeptOrOlder c x = (HashMap.get x.0 c.map ≡ some x.1) ⊎ All (λ y. x.1.tick ≤ y.1.tick) c.map

  kept-All : (c : Cache A) → IsCounted word c → All (KeptOrOlder c) c.map
  kept-All c h =
      All-map (λ x. HashMap.get x.0 c.map ≡ some x.1) (KeptOrOlder c) c.map (λ x. inl)
        (All-get_self c.map h.distinct)

  evict_loop-KeptOrOlder :
      (fuel : ℕ) (c : Cache A) → IsCounted word c → All (KeptOrOlder (evict_loop word fuel c)) c.map
  evict_loop-KeptOrOlder zero c h = unfold evict_loop in kept-All c h
  evict_loop-KeptOrOlder (suc fuel) c h = elim (round fuel c h.distinct) [
    | stop done same ↦ rw same (kept-All c h)
    | evict k e found old next more over ↦
        let P = KeptOrOlder (evict_loop word fuel (drop_victim word k c)) in
        let counted = drop_victim-IsCounted k e c h found in
        let victim : P (k, e) = inr (
          evict_loop_induction (λ (d : Cache A). All (λ y. e.tick ≤ y.1.tick) d.map)
            (λ j f d g a b. All-remove (λ y. e.tick ≤ y.1.tick) j d.map) fuel (drop_victim word k c)
            counted
            (rw (drop_victim-eq k e c h found)
              (All-remove (λ y. e.tick ≤ y.1.tick) k c.map old))) in
        let others : All P (HashMap.remove k c.map) =
          subst (λ d. All P d.map) (drop_victim-eq k e c h found)
            (evict_loop-KeptOrOlder fuel (drop_victim word k c) counted) in
        rw next (
          All-of_remove P k c.map
            (λ f g. subst (λ d. P (k, d)) (some-injective _ _ (sym found ∙ g)) victim) h.distinct
            others)
  ]

  -- From a cache whose byte total is exact, the eviction ends with its own test (within the cap,
  -- or one entry left), whatever the entries; the total stays exact.
  pub evict_to_cap-IsDone :
      (c : Cache A)
      → IsCounted word c
      → IsCounted word (evict_to_cap word c) × IsDone (evict_to_cap word c)
  unfolding evict_to_cap
  evict_to_cap-IsDone c h = evict_loop-IsDone (length c.map) c h (omega arith)

  -- What `evict_to_cap` removes is never newer than what it leaves.
  pub evict_to_cap-KeptOrOlder :
      (c : Cache A) → IsCounted word c → All (KeptOrOlder (evict_to_cap word c)) c.map
  unfolding evict_to_cap
  evict_to_cap-KeptOrOlder c h = evict_loop-KeptOrOlder (length c.map) c h

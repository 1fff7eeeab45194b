-- ===== src/Cache/Recency.antt =====
-- The entry stored last survives the eviction, in src/cache.rs.
use laterite_duckdb.Base.{
  ℕ, ◌-◌, ◌≤◌, ◌<◌, ◌≡◌, ◌∙◌, some, List, [], ◌∷◌, arith, ◌⊎◌, inl, inr, length, All, Bool-cases,
  ◌==◌, sym, subst, some-injective, eq_self,
}
use laterite_duckdb.Base.HashMap
use laterite_duckdb.Base.HashMap.{NodupKeys}
use laterite_duckdb.Cache.{Key, key_eq, key_beq_iff, Entry, Cache, evict_to_cap}
use laterite_duckdb.Cache.Entries.{All-remove}
use laterite_duckdb.Cache.Evict.{IsCounted, evict_loop_induction}

module _ {A : Type 0} (key : Key) (f : Entry A) where
  -- Every entry but the one under `key` is older than `f`.
  abbrev pub IsOther : Key × Entry A → Type 0
  IsOther y = (y.0 ≡ key) ⊎ (y.1.tick < f.tick)

  -- `f` is stored under `key`, and is the newest.
  pub record IsNewest (c : Cache A) : Type 0 where
    pub distinct : NodupKeys c.map
    pub stored : HashMap.get key c.map ≡ some f
    pub others : All IsOther c.map

  is_key : (y : Key × Entry A) → IsOther y → f.tick ≤ y.1.tick → y.0 ≡ key
  is_key y (inl same) h = same
  is_key y (inr earlier) h = absurd (omega arith)

  only_key :
      (m : List (Key × Entry A))
      → NodupKeys m
      → All IsOther m
      → All (λ y. f.tick ≤ y.1.tick) m
      → length m ≤ 1
  only_key [] d o h = omega arith
  only_key (y ∷ []) d o h = omega arith
  only_key (y ∷ z ∷ m) d o h =
      let same : z.0 ≡ y.0 = is_key z o.1.0 h.1.0 ∙ sym (is_key y o.0 h.0) in
      let found : HashMap.get y.0 (z ∷ m) ≡ some z.1 =
        subst (λ j. HashMap.get j (z ∷ m) ≡ some z.1) same
          (unfold HashMap.get in rw (eq_self z.0)) in
      absurd (cc (found, d.0))

  IsNewest-step :
      (k : Key) (e : Entry A) (c : Cache A)
      → HashMap.get k c.map ≡ some e
      → All (λ y. e.tick ≤ y.1.tick) c.map
      → 1 < length c.map
      → IsNewest c
      → IsNewest (record c { map = HashMap.remove k c.map; total = c.total - e.cost })
  IsNewest-step k e c found old more n = elim (Bool-cases (k == key)) [
    | inl same ↦
        let at_key = subst (λ j. HashMap.get j c.map ≡ some e) ((key_beq_iff k key).0 same) found in
        let same_entry : e ≡ f = some-injective _ _ (sym at_key ∙ n.stored) in
        let alone =
          only_key c.map n.distinct n.others
            (subst (λ (g : Entry A). All (λ y. g.tick ≤ y.1.tick) c.map) same_entry old) in
        absurd (omega arith)
    | inr other ↦ record {
      distinct = HashMap.remove-NodupKeys k c.map n.distinct;
      stored = rw (HashMap.get-remove, other) n.stored;
      others = All-remove IsOther k c.map n.others;
    }
  ]

  -- From a cache whose byte total is exact, the newest entry is never the victim of an eviction.
  pub evict_to_cap-IsNewest :
      (word : ℕ) (c : Cache A) → IsCounted word c → IsNewest c → IsNewest (evict_to_cap word c)
  unfolding evict_to_cap
  evict_to_cap-IsNewest word c h n =
      evict_loop_induction word IsNewest IsNewest-step (length c.map) c h n

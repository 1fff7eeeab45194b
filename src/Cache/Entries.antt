-- ===== src/Cache/Entries.antt =====
-- Facts on the entry list of the cache in src/cache.rs: the sum of the costs, predicates on all
-- entries, and the oldest entry.
use laterite_duckdb.Base.{
  ℕ, ◌+◌, ◌≤◌, ◌<◌, ◌≡◌, refl, Option, none, some, List, [], ◌∷◌, arith, ◌==◌, ltb, true, false,
  length, All, All-map, if◌then◌else◌, inl, inr, eq_self, Bool-cases, sym, subst, some-injective,
}
use laterite_duckdb.Base.HashMap
use laterite_duckdb.Base.HashMap.{NodupKeys}
use laterite_duckdb.Cache.{Key, key_eq, key_beq_iff, Entry, older, oldest, oldest_from}

module _ {A : Type 0} where
  abbrev pub costs : List (Key × Entry A) → ℕ
  costs [] = 0
  costs (e ∷ m) = e.1.cost + costs m

  pub costs-remove :
      (k : Key) (e : Entry A) (m : List (Key × Entry A))
      → NodupKeys m
      → HashMap.get k m ≡ some e
      → costs (HashMap.remove k m) + e.cost ≡ costs m
  unfolding HashMap.get HashMap.remove
  costs-remove k e [] d h = cc
  costs-remove k e ((j, f) ∷ m) (fresh, d) h =
      ground (arith, costs-remove k e m d, HashMap.remove_absent k m, key_beq_iff j k)

  pub costs-replace :
      (k : Key) (e f : Entry A) (m : List (Key × Entry A))
      → HashMap.get k m ≡ some e
      → costs (HashMap.replace k f m) + e.cost ≡ costs m + f.cost
  unfolding HashMap.get HashMap.replace
  costs-replace k e f [] h = cc
  costs-replace k e f ((j, g) ∷ m) h = ground (arith, costs-replace k e f m)

  abbrev pub old_cost : Option (Entry A) → ℕ
  old_cost none = 0
  old_cost (some e) = e.cost

  pub costs-insert :
      (k : Key) (f : Entry A) (m : List (Key × Entry A))
      → costs (HashMap.insert k f m).0 + old_cost (HashMap.insert k f m).1 ≡ costs m + f.cost
  unfolding HashMap.insert
  costs-insert k f m =
      elim (HashMap.get k m)
          as (λ o.
            HashMap.get k m ≡ o
            → costs (HashMap.insert_at o k f m) + old_cost o ≡ costs m + f.cost) [
              | none ↦ λ h. omega arith
              | some e ↦ λ h. costs-replace k e f m h
            ]
        refl

module _ {ℓ} {A : Type 0} (P : Key × Entry A → Type ℓ) where
  pub All-remove : (k : Key) (m : List (Key × Entry A)) → All P m → All P (HashMap.remove k m)
  unfolding HashMap.remove
  All-remove k [] h = tt
  All-remove k ((j, f) ∷ m) h = ground (arith, All-remove k m h.1)

  All-replace :
      (k : Key) (f : Entry A) (m : List (Key × Entry A))
      → P (k, f)
      → All P m
      → All P (HashMap.replace k f m)
  unfolding HashMap.replace
  All-replace k f [] p h = tt
  All-replace k f ((j, g) ∷ m) p h = ground (arith, All-replace k f m p h.1)

  pub All-insert :
      (k : Key) (f : Entry A) (m : List (Key × Entry A))
      → P (k, f)
      → All P m
      → All P (HashMap.insert k f m).0
  unfolding HashMap.insert
  All-insert k f m p h = ground (arith, All-replace k f m p h)

  pub All-get :
      (k : Key) (e : Entry A) (m : List (Key × Entry A))
      → All P m
      → HashMap.get k m ≡ some e
      → P (k, e)
  unfolding HashMap.get
  All-get k e [] h g = cc
  All-get k e ((j, f) ∷ m) h g = ground (arith, All-get k e m h.1, key_beq_iff j k)

  -- What holds of an entry and of all that stay when it goes holds of all.
  pub All-of_remove :
      (k : Key) (m : List (Key × Entry A))
      → ((e : Entry A) → HashMap.get k m ≡ some e → P (k, e))
      → NodupKeys m
      → All P (HashMap.remove k m)
      → All P m
  unfolding HashMap.get HashMap.remove
  All-of_remove k [] p d h = tt
  All-of_remove k ((j, f) ∷ m) p (fresh, d) h = elim (Bool-cases (j == k)) [
    | inl same ↦ (
      subst (λ i. P (i, f)) (sym ((key_beq_iff j k).0 same)) (p f (rw same)),
      subst (All P) (ground (arith, HashMap.remove_absent k m, key_beq_iff j k)) h,
    )
    | inr other ↦
        let h' : All P ((j, f) ∷ HashMap.remove k m) =
          subst (All P) {y = (j, f) ∷ HashMap.remove k m} (rw other) h in
        (h'.0, All-of_remove k m (λ e g. p e (rw other g)) d h'.1)
  ]

module _ {A : Type 0} where
  older-le :
      (b x : Key × Entry A) → ((older b x).1.tick ≤ b.1.tick) × ((older b x).1.tick ≤ x.1.tick)
  unfolding older
  older-le b x = ground arith

  oldest_from-le :
      (b : Key × Entry A) (m : List (Key × Entry A))
      → All (λ y. (oldest_from b m).1.tick ≤ y.1.tick) (b ∷ m)
  unfolding oldest_from
  oldest_from-le b [] = (omega arith, tt)
  oldest_from-le b (x ∷ m) =
      let ih = oldest_from-le (older b x) m in
      let le = older-le b x in (omega arith, (omega arith, ih.1))

  oldest_from-get :
      (b : Key × Entry A) (m : List (Key × Entry A))
      → NodupKeys (b ∷ m)
      → HashMap.get (oldest_from b m).0 (b ∷ m) ≡ some (oldest_from b m).1
  unfolding oldest_from older
  oldest_from-get b [] d = unfold HashMap.get in rw (eq_self b.0)
  oldest_from-get b (x ∷ m) (fresh, d) =
      elim (ltb x.1.tick b.1.tick)
        as (λ t.
          let o = oldest_from (if t then x else b) m in HashMap.get o.0 (b ∷ x ∷ m) ≡ some o.1) [
            | true ↦ HashMap.get-cons b.0 _ _ b.1 (x ∷ m) fresh (oldest_from-get x m d)
            | false ↦
                HashMap.get_under b.0 x.0 _ _ b.1 x.1 m fresh d.0
                  (oldest_from-get b m (HashMap.get-eq-none_of_cons b.0 x.0 x.1 m fresh, d.1))
          ]

  -- The entry that `min_by_key` picks is in the map, under its key.
  pub oldest-get :
      (x : Key × Entry A) (m : List (Key × Entry A))
      → NodupKeys m
      → oldest m ≡ some x
      → HashMap.get x.0 m ≡ some x.1
  unfolding oldest
  oldest-get x [] d h = cc
  oldest-get x (y ∷ m) d h =
      subst (λ z. HashMap.get z.0 (y ∷ m) ≡ some z.1) (some-injective _ _ h) (oldest_from-get y m d)

  -- No entry is older than the one that it picks.
  pub oldest-le :
      (x : Key × Entry A) (m : List (Key × Entry A))
      → oldest m ≡ some x
      → All (λ y. x.1.tick ≤ y.1.tick) m
  unfolding oldest
  oldest-le x [] h = tt
  oldest-le x (y ∷ m) h =
      subst (λ z. All (λ w. z.1.tick ≤ w.1.tick) (y ∷ m)) (some-injective _ _ h)
        (oldest_from-le y m)

  -- The map has an oldest entry unless it is empty.
  pub oldest-some :
      (m : List (Key × Entry A)) → 0 < length m → (x : Key × Entry A) × (oldest m ≡ some x)
  unfolding oldest
  oldest-some [] h = absurd (omega arith)
  oldest-some (y ∷ m) h = (oldest_from y m, refl)

  -- Each entry of a map without duplicate keys is found under its key.
  pub All-get_self :
      (m : List (Key × Entry A)) → NodupKeys m → All (λ x. HashMap.get x.0 m ≡ some x.1) m
  All-get_self [] d = tt
  All-get_self ((j, f) ∷ m) (fresh, d) = (
    unfold HashMap.get in rw (eq_self j),
    All-map (λ x. HashMap.get x.0 m ≡ some x.1) (λ x. HashMap.get x.0 ((j, f) ∷ m) ≡ some x.1) m
        (λ x found. HashMap.get-cons j x.0 x.1 f m fresh found) (All-get_self m d),
  )

  -- What an insertion replaces was counted before.
  pub old_cost-le :
      (k : Key) (f : Entry A) (m : List (Key × Entry A))
      → old_cost (HashMap.insert k f m).1 ≤ costs m
  unfolding HashMap.insert
  old_cost-le k f [] = omega arith
  old_cost-le k f ((j, g) ∷ m) = ground (arith, old_cost-le k f m)

-- ===== src/Cache/Lru/Kept.antt =====
-- The eviction of src/cache.rs leaves the longest piece of the recency list that fits the cap.
use laterite_duckdb.Base.{
  ℕ, ◌+◌, ◌-◌, ◌≤◌, ◌<◌, ◌≡◌, refl, sym, ap, ◌∙◌, subst, arith, some, List, [], ◌∷◌, leb, length,
  ◌==◌, ◌⊎◌, All, if◌then◌else◌, Bool-cases, inl, inr,
}
use laterite_duckdb.Base.HashMap
use laterite_duckdb.Base.HashMap.{NodupKeys}
use laterite_duckdb.Cache.{Key, key_eq, Entry, Cache, evict_to_cap}
use laterite_duckdb.Cache.Entries.{costs, costs-remove}
use laterite_duckdb.Cache.Evict.{IsCounted, evict_loop_rounds, evict_to_cap-IsDone}
use laterite_duckdb.Cache.Lru.{within, keep, Descends, Orders, All-Orders, remove-Orders}

module _ {A : Type 0} where
  abbrev pub entry_cost_of : Key × Entry A → ℕ
  entry_cost_of x = x.1.cost

  -- Everything stays that fits.
  within_all :
      (cap used : ℕ) (m : List (Key × Entry A))
      → used + costs m ≤ cap
      → within entry_cost_of cap used m ≡ m
  within_all cap used [] h = refl
  within_all cap used (x ∷ m) h = ground (arith, within_all cap (used + x.1.cost) m (omega arith))

  keep_all :
      (cap : ℕ) (m : List (Key × Entry A))
      → (costs m ≤ cap) ⊎ (length m ≤ 1)
      → keep entry_cost_of cap m ≡ m
  keep_all cap [] h = refl
  keep_all cap (x ∷ []) h = refl
  keep_all cap (x ∷ y ∷ m) h = ap (◌∷◌ x) (within_all cap x.1.cost (y ∷ m) (omega arith))

  -- None that is no older than the oldest lies behind it.
  nothing_behind :
      (x : Key × Entry A) (m : List (Key × Entry A))
      → All (λ y. y.1.tick < x.1.tick) m
      → All (λ y. x.1.tick ≤ y.1.tick) m
      → m ≡ []
  nothing_behind x [] h k = refl
  nothing_behind x (y ∷ m) h k = absurd (omega arith)

  -- Past the cap the oldest one is not within it.
  within-remove :
      (cap used : ℕ) (k : Key) (e : Entry A) (m : List (Key × Entry A))
      → Descends m
      → HashMap.get k m ≡ some e
      → All (λ y. e.tick ≤ y.1.tick) m
      → cap < used + costs m
      → within entry_cost_of cap used (HashMap.remove k m) ≡ within entry_cost_of cap used m
  unfolding HashMap.get HashMap.remove
  within-remove cap used k e [] d found old over = cc
  within-remove cap used k e ((j, f) ∷ m) d found old over = elim (Bool-cases (j == k)) [
    | inl same ↦
        let e' : f ≡ e = ground arith in
        let last : m ≡ [] =
          nothing_behind (j, f) m d.0
            (subst (λ (g : Entry A). All (λ y. g.tick ≤ y.1.tick) m) (sym e') old.1) in
        let past : cap < used + f.cost = omega (arith, ap costs last) in
        rw (same, last) (ground arith)
    | inr other ↦
        let ih = within-remove cap (used + f.cost) k e m d.1 (ground arith) old.1 (omega arith) in
        rw other (ap (λ l. if leb (used + f.cost) cap then (j, f) ∷ l else []) ih)
  ]

  keep-remove :
      (cap : ℕ) (k : Key) (e : Entry A) (m : List (Key × Entry A))
      → Descends m
      → HashMap.get k m ≡ some e
      → All (λ y. e.tick ≤ y.1.tick) m
      → 1 < length m
      → cap < costs m
      → keep entry_cost_of cap (HashMap.remove k m) ≡ keep entry_cost_of cap m
  unfolding HashMap.get HashMap.remove
  keep-remove cap k e [] d found old more over = cc
  keep-remove cap k e (x ∷ []) d found old more over = absurd (omega arith)
  keep-remove cap k e ((j, f) ∷ y ∷ m) d found old more over = elim (Bool-cases (j == k)) [
    | inl same ↦
        let e' : f ≡ e = ground arith in
        let below = ap (λ (g : Entry A). g.tick) e' in absurd (omega (arith, below, d.0.0, old.1.0))
    | inr other ↦ rw other (
        ap (◌∷◌ (j, f))
          (within-remove cap f.cost k e (y ∷ m) d.1 (ground arith) old.1 (omega arith)))
  ]

  -- Two maps with the same lookups cost the same.
  costs_of_get :
      (m n : List (Key × Entry A))
      → NodupKeys m
      → NodupKeys n
      → ((k : Key) → HashMap.get k m ≡ HashMap.get k n)
      → costs m ≡ costs n
  unfolding HashMap.get
  costs_of_get [] n d d' same = let h = HashMap.empty_of_get n (λ k. sym (same k)) in rw h refl
  costs_of_get ((k, v) ∷ m) n (fresh, d) d' same =
      let (found, others) = HashMap.split_of_get k v m n fresh same in
      let rest = costs_of_get m (HashMap.remove k n) d (HashMap.remove-NodupKeys k n d') others in
      omega (arith, rest, costs-remove k v n d' found)

  -- The map stands for a list whose piece that fits the cap is `kept`, and the cap stays.
  record Leads (cap : ℕ) (kept : List (Key × Entry A)) (c : Cache A) : Type 0 where
    recent : List (Key × Entry A)
    orders : Orders c.map recent
    same : keep entry_cost_of cap recent ≡ kept
    cap_same : c.cap ≡ cap

  Leads-round :
      (word cap : ℕ) (kept : List (Key × Entry A)) (k : Key) (e : Entry A) (c : Cache A)
      → IsCounted word c
      → c.cap < c.total
      → HashMap.get k c.map ≡ some e
      → All (λ y. e.tick ≤ y.1.tick) c.map
      → 1 < length c.map
      → Leads cap kept c
      → Leads cap kept (record c { map = HashMap.remove k c.map; total = c.total - e.cost })
  Leads-round word cap kept k e c h over found old more l = record {
    recent = HashMap.remove k l.recent;
    orders = remove-Orders k c.map l.recent l.orders;
    same =
        let long =
          HashMap.length_of_get c.map l.recent h.distinct l.orders.distinct l.orders.agree in
        let full = costs_of_get c.map l.recent h.distinct l.orders.distinct l.orders.agree in
        keep-remove cap k e l.recent l.orders.descends (sym (l.orders.agree k) ∙ found)
          (All-Orders (λ y. e.tick ≤ y.1.tick) c.map l.recent l.orders old) (omega (arith, long))
          (omega (arith, full, h.counted, l.cap_same))
        ∙ l.same;
    cap_same = l.cap_same;
  }

  -- What an eviction leaves is the piece of the recency list that fits the cap.
  pub evict_to_cap-keep :
      (word : ℕ) (recent : List (Key × Entry A)) (c : Cache A)
      → IsCounted word c
      → Orders c.map recent
      → Orders (evict_to_cap word c).map (keep entry_cost_of c.cap recent)
  evict_to_cap-keep word recent c h o =
      let kept = keep entry_cost_of c.cap recent in
      let l : Leads c.cap kept (evict_to_cap word c) =
        unfold evict_to_cap in
        evict_loop_rounds word (Leads c.cap kept) (Leads-round word c.cap kept) (length c.map) c h
          (record { recent = recent; orders = o; same = refl; cap_same = refl }) in
      let (counted, done) = evict_to_cap-IsDone word c h in
      let m = (evict_to_cap word c).map in
      let long =
        HashMap.length_of_get m l.recent counted.distinct l.orders.distinct l.orders.agree in
      let full = costs_of_get m l.recent counted.distinct l.orders.distinct l.orders.agree in
      let all =
        keep_all c.cap l.recent (omega (arith, done, long, full, counted.counted, l.cap_same)) in
      subst (Orders m) (sym all ∙ l.same) l.orders

-- ===== src/Cache/Memo.antt =====
-- `get_or_try_insert` of src/cache.rs as a client sees it: one call, and the next.
use laterite_duckdb.Base.{
  ℕ, ◌+◌, ◌*◌, ◌≤◌, ◌<◌, ◌≡◌, ◌≢◌, refl, ◌∙◌, Option, none, some, List, [], ◌∷◌, arith, ◌⊎◌, inl,
  inr, length, All, All-map, Bool, Bool-cases, ◌==◌, nat_eq, sym, subst, ap, eq_self, Result, ok,
  err, panic, String, if◌then◌else◌,
}
use laterite_duckdb.Base.HashMap
use laterite_duckdb.Cache.{
  Key, key_eq, Entry, Cache, Probe, disabled, hit, miss, probe, touch, store, publish, finish,
  get_or_try_insert, entry_cost, next_tick, u64_mod,
}
use laterite_duckdb.Cache.Entries.{costs, All-insert}
use laterite_duckdb.Cache.Invariant.{
  IsValid, HasRoom, EntryFits, store-IsCounted, tick_step, publish-cap,
}
use laterite_duckdb.Cache.Lookup.{probe-IsValid}
use laterite_duckdb.Cache.Recency.{IsNewest, IsOther, evict_to_cap-IsNewest}

-- A lookup under `key` finds `parsed`.
abbrev pub Holds : {A : Type 0} → Key → A → Cache A → Type 0
Holds {A} key parsed c = (e : Entry A) × (HashMap.get key c.map ≡ some e) × (e.parsed ≡ parsed)

module _ {A : Type 0} where
  probe_hit :
      (key : Key) (parsed : A) (c : Cache A)
      → c.cap ≢ 0
      → Holds key parsed c
      → (probe key c).0 ≡ hit parsed
  unfolding probe
  probe_hit key parsed c on (e, found, same) = elim (Bool-cases (c.cap == 0)) [
    | inl off ↦ absurd (on (ground arith))
    | inr live ↦ rw (live, found) (ap hit same)
  ]

  touch-Holds :
      (key : Key) (parsed : A) (o : Option (Entry A)) (c : Cache A)
      → (touch key o c).0 ≡ hit parsed
      → Holds key parsed (touch key o c).1
  unfolding touch
  touch-Holds key parsed none c h = cc
  touch-Holds key parsed (some e) c h = (
    record e { tick = next_tick c },
    HashMap.get-insert key key (record e { tick = next_tick c }) c.map ∙ rw (eq_self key),
    ground arith,
  )

  probe-Holds :
      (key : Key) (parsed : A) (c : Cache A)
      → (probe key c).0 ≡ hit parsed
      → Holds key parsed (probe key c).1
  unfolding probe
  probe-Holds key parsed c h = elim (Bool-cases (c.cap == 0)) [
    | inl off ↦ absurd (
        cc (
          subst
            (λ (b : Bool).
              (if b then (disabled, c) else touch key (HashMap.get key c.map) c).0 ≡ hit parsed)
            off h))
    | inr live ↦ rw live (touch-Holds key parsed (HashMap.get key c.map) c (rw live at h))
  ]

  module _ (word limit : ℕ) where
    publish-Holds :
        (key : Key) (parsed : A) (c : Cache A)
        → HasRoom word limit c.cap
        → key.size ≤ limit
        → c.clock + 1 < u64_mod
        → IsValid word limit c
        → Holds key parsed (publish word key parsed c)
    unfolding publish
    publish-Holds key parsed c room fits young v =
        let f : Entry A = record {
          parsed = parsed;
          cost = entry_cost word key.size;
          tick = next_tick c;
        } in
        let newest : IsNewest key f (store word key parsed c) = record {
          distinct = HashMap.insert-NodupKeys key f c.map v.counted.distinct;
          stored = HashMap.get-insert key key f c.map ∙ rw (eq_self key);
          others = All-insert (IsOther key f) key f c.map (inl refl) (
              All-map (EntryFits limit c.clock) (IsOther key f) c.map
                (λ y h. inr (omega (arith, tick_step word limit c young))) v.entries);
        } in
        let kept =
          evict_to_cap-IsNewest key f word (store word key parsed c)
            (store-IsCounted word limit key parsed c room fits v) newest in
        (f, kept.stored, refl)

module _ {A W : Type 0} (word : ℕ) (key : Key) (build : W → Result A × W) (c : Cache A)
    (w : W) where
  pub call_hit :
      (parsed : A)
      → (probe key c).0 ≡ hit parsed
      → get_or_try_insert word key build c w ≡ (ok parsed, (probe key c).1, w)
  unfolding get_or_try_insert
  call_hit parsed h = rw (h, get_or_try_insert)

  pub call_miss :
      (probe key c).0 ≡ miss
      → get_or_try_insert word key build c w ≡ finish word key (build w) (probe key c).1
  unfolding get_or_try_insert
  call_miss h = rw (h, get_or_try_insert)

  pub call_disabled :
      (probe key c).0 ≡ disabled
      → get_or_try_insert word key build c w ≡ ((build w).0, (probe key c).1, (build w).1)
  unfolding get_or_try_insert
  call_disabled h = rw (h, get_or_try_insert)

module _ {A : Type 0} where
  Probe-cases : (p : Probe A) → (p ≡ disabled) ⊎ ((parsed : A) × (p ≡ hit parsed)) ⊎ (p ≡ miss)
  Probe-cases disabled = inl refl
  Probe-cases (hit parsed) = inr (inl (parsed, refl))
  Probe-cases miss = inr (inr refl)

  pub probe-cap : (key : Key) (c : Cache A) → (probe key c).1.cap ≡ c.cap
  unfolding probe
  probe-cap key c = ground arith

  pub probe-clock :
      (key : Key) (c : Cache A) → c.clock + 1 < u64_mod → (probe key c).1.clock ≤ c.clock + 1
  unfolding probe
  probe-clock key c h = ground (arith, tick_step 0 0 c h)

  probe-enabled : (key : Key) (c : Cache A) → c.cap ≢ 0 → (probe key c).0 ≢ disabled
  unfolding probe
  probe-enabled key c on h = ground arith

  -- A call's outcome, in an enabled cache, leaves the result in the map.
  module _ {W : Type 0} (word limit : ℕ) (key : Key) (c : Cache A) (on : c.cap ≢ 0)
      (room : HasRoom word limit c.cap) (fits : key.size ≤ limit) (young : c.clock + 2 < u64_mod)
      (v : IsValid word limit c) where
    finish-Holds :
        (r : Result A × W) (parsed : A) {d : Cache A} {w' : W}
        → finish word key r (probe key c).1 ≡ (ok parsed, d, w')
        → Holds key parsed d × (d.cap ≡ c.cap)
    unfolding finish
    finish-Holds (ok a, w) parsed {d} h =
        let c₁ = (probe key c).1 in
        let room₁ : HasRoom word limit c₁.cap =
          subst (HasRoom word limit) (sym (probe-cap key c)) room in
        let young₁ : c₁.clock + 1 < u64_mod = omega (arith, probe-clock key c (omega arith)) in
        let v₁ = probe-IsValid word limit key c (omega arith) v in
        let same : a ≡ parsed = cc (ap (λ (t : Result A × Cache A × W). t.0) h) in
        let stored : publish word key a c₁ ≡ d = ap (λ (t : Result A × Cache A × W). t.1) h in
        subst (λ d. Holds key parsed d × (d.cap ≡ c.cap)) stored
          (
            subst (λ b. Holds key b (publish word key a c₁)) same
                (publish-Holds word limit key a c₁ room₁ fits young₁ v₁),
            publish-cap word limit key a c₁ room₁ fits young₁ v₁ ∙ probe-cap key c,
          )
    finish-Holds (err e, w) parsed {d} h = cc
    finish-Holds (panic, w) parsed {d} h = cc

    call-Holds :
        (build : W → Result A × W) (w : W) (parsed : A) {d : Cache A} {w' : W}
        → get_or_try_insert word key build c w ≡ (ok parsed, d, w')
        → Holds key parsed d × (d.cap ≡ c.cap)
    call-Holds build w parsed {d} h = elim (Probe-cases (probe key c).0) [
      | inl off ↦ absurd (probe-enabled key c on off)
      | inr (inl (a, found)) ↦
          let e = sym (call_hit word key build c w a found) ∙ h in
          let same : a ≡ parsed = cc (ap (λ (t : Result A × Cache A × W). t.0) e) in
          subst (λ d. Holds key parsed d × (d.cap ≡ c.cap))
            (ap (λ (t : Result A × Cache A × W). t.1) e)
            (probe-Holds key parsed c (found ∙ ap hit same), probe-cap key c)
      | inr (inr missed) ↦
          finish-Holds (build w) parsed (sym (call_miss word key build c w missed) ∙ h)
    ]

    -- In an enabled and valid cache, for a file within the limit and before the clock's last two
    -- values: a call right after a successful one with the same key returns the same value, and
    -- the second builder does not run: the outside world is as it was.
    pub second_call_is_hit :
        (build build' : W → Result A × W) (w w₂ : W) {parsed : A} {d : Cache A} {w' : W}
        → get_or_try_insert word key build c w ≡ (ok parsed, d, w')
        → get_or_try_insert word key build' d w₂ ≡ (ok parsed, (probe key d).1, w₂)
    second_call_is_hit build build' w w₂ {parsed} {d} h =
        let (held, same) = call-Holds build w parsed h in
        call_hit word key build' d w₂ parsed (probe_hit key parsed d (λ e. on (sym same ∙ e)) held)

  -- A call that returns an error leaves every entry and the byte total as they were, and the next
  -- call with that key runs its own builder.
  pub error_is_not_cached :
      {W : Type 0} (word : ℕ) (key : Key) (build build' : W → Result A × W) (c : Cache A) (w w₂ : W)
      {e : String} {d : Cache A} {w' : W}
      → get_or_try_insert word key build c w ≡ (err e, d, w')
      → (d.map ≡ c.map)
        × (d.total ≡ c.total)
        × ((get_or_try_insert word key build' d w₂).2 ≡ (build' w₂).1)
  unfolding get_or_try_insert finish
  error_is_not_cached word key build build' c w w₂ {e} {d} {w'} h = ground arith

  length-le-costs :
      (limit clock : ℕ) (m : List (Key × Entry A))
      → All (EntryFits limit clock) m
      → length m * 4096 ≤ costs m
  length-le-costs limit clock [] h = omega arith
  length-le-costs limit clock (y ∷ m) h = omega (arith, length-le-costs limit clock m h.1)

  pub IsValid-length :
      (word limit : ℕ) (c : Cache A)
      → IsValid word limit c
      → (length c.map * 4096 ≤ c.cap) ⊎ (length c.map ≤ 1)
  IsValid-length word limit c v = omega (arith, length-le-costs limit c.clock c.map v.entries)

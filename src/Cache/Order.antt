-- ===== src/Cache/Order.antt =====
-- src/cache.rs: caches whose maps hold the same entries and iterate in different orders, which the
-- order of a `HashMap`, being unspecified, allows.
pub mod Sections
pub mod Calls
use laterite_duckdb.Base.{
  ℕ, zero, suc, ◌+◌, ◌%◌, ◌⊎◌, ◌≤◌, ◌<◌, ◌≡◌, refl, sym, ap, ◌∙◌, subst, arith, Bool, true, false,
  Option, none, some, some-injective, List, [], ◌∷◌, length, Result, ok, err, panic, ◌==◌, nat_eq,
  ltb, ◌&&◌, Bool-cases, inl, inr, if◌then◌else◌,
}
use laterite_duckdb.Base.HashMap
use laterite_duckdb.Base.HashMap.{NodupKeys}
use laterite_duckdb.Cache.{
  Key, key_eq, key_beq_iff, Entry, Cache, Probe, disabled, hit, miss, oldest, drop_victim,
  sub_usize, next_tick, u64_mod, evict_loop, evict_to_cap, touch, probe, store, entry_cost,
  reconcile, add_usize, publish, finish, get_or_try_insert,
}
use laterite_duckdb.Cache.Entries.{All-get, oldest-get, oldest-le, oldest-some}
use native.Mathlib.Nat.{mod-eq_of_lt}

module _ {A : Type 0} where
  -- `drop_victim` without its test.
  without : ℕ → Key → Entry A → Cache A → Cache A
  without word k e c = record c {
    map = HashMap.remove k c.map;
    total = sub_usize word c.total e.cost;
  }

  drop_victim-none :
      (word : ℕ) (k : Key) (c : Cache A) → HashMap.get k c.map ≡ none → drop_victim word k c ≡ c
  unfolding drop_victim
  drop_victim-none word k c h = rw (h, drop_victim)

  drop_victim-some :
      (word : ℕ) (k : Key) (e : Entry A) (c : Cache A)
      → HashMap.get k c.map ≡ some e
      → drop_victim word k c ≡ without word k e c
  unfolding drop_victim without
  drop_victim-some word k e c h = rw (h, drop_victim)

  -- Two caches that differ at most in the order in which their maps iterate. The stamps are in the
  -- past, and no two entries have the same one.
  pub record IsSame (c d : Cache A) : Type 0 where
    pub agree : (k : Key) → HashMap.get k c.map ≡ HashMap.get k d.map
    pub total : c.total ≡ d.total
    pub cap : c.cap ≡ d.cap
    pub clock : c.clock ≡ d.clock
    pub distinct : NodupKeys c.map
    pub distinct' : NodupKeys d.map
    pub past : (k : Key) (e : Entry A) → HashMap.get k c.map ≡ some e → e.tick ≤ c.clock
    pub apart :
        (k j : Key) (e f : Entry A)
        → HashMap.get k c.map ≡ some e
        → HashMap.get j c.map ≡ some f
        → e.tick ≡ f.tick
        → k ≡ j

  module _ {c d : Cache A} (s : IsSame c d) where
    same_length : length c.map ≡ length d.map
    same_length = HashMap.length_of_get c.map d.map s.distinct s.distinct' s.agree

    -- Both maps have the same oldest entry.
    same_oldest : (x y : Key × Entry A) → oldest c.map ≡ some x → oldest d.map ≡ some y → x.0 ≡ y.0
    same_oldest x y hx hy =
        let in_c = oldest-get x c.map s.distinct hx in
        let in_d = oldest-get y d.map s.distinct' hy in
        let x_le =
          All-get (λ z. x.1.tick ≤ z.1.tick) y.0 y.1 c.map (oldest-le x c.map hx)
            (s.agree y.0 ∙ in_d) in
        let y_le =
          All-get (λ z. y.1.tick ≤ z.1.tick) x.0 x.1 d.map (oldest-le y d.map hy)
            (sym (s.agree x.0) ∙ in_c) in
        s.apart x.0 y.0 x.1 y.1 in_c (s.agree y.0 ∙ in_d) (omega arith)

    without-IsSame :
        (word : ℕ) (k : Key) (e : Entry A) → IsSame (without word k e c) (without word k e d)
    unfolding without
    without-IsSame word k e = record {
      agree = λ j.
          HashMap.get-remove k j c.map
          ∙ ap (λ o. if k == j then none else o) (s.agree j)
          ∙ sym (HashMap.get-remove k j d.map);
      total = rw s.total;
      cap = s.cap;
      clock = s.clock;
      distinct = HashMap.remove-NodupKeys k c.map s.distinct;
      distinct' = HashMap.remove-NodupKeys k d.map s.distinct';
      past = λ j f g. s.past j f (HashMap.get-of_remove k j c.map g);
      apart = λ i j f g hf hg same.
          s.apart i j f g (HashMap.get-of_remove k i c.map hf) (HashMap.get-of_remove k j c.map hg)
            same;
    }

    drop_victim-IsSame : (word : ℕ) (k : Key) → IsSame (drop_victim word k c) (drop_victim word k d)
    drop_victim-IsSame word k =
        elim (HashMap.get k c.map)
            as (λ o.
              HashMap.get k c.map ≡ o → IsSame (drop_victim word k c) (drop_victim word k d)) [
                | none ↦ λ h.
                    rw
                      (drop_victim-none word k c h, drop_victim-none word k d (sym (s.agree k) ∙ h))
                      s
                | some e ↦ λ h.
                    rw
                      (
                        drop_victim-some word k e c h,
                        drop_victim-some word k e d (sym (s.agree k) ∙ h),
                      )
                      (without-IsSame word k e)
              ]
          refl

  evict_loop-IsSame :
      (word fuel : ℕ) (c d : Cache A)
      → IsSame c d
      → IsSame (evict_loop word fuel c) (evict_loop word fuel d)
  unfolding evict_loop
  evict_loop-IsSame word zero c d s = s
  evict_loop-IsSame word (suc fuel) c d s =
      let long = same_length s in
      elim (Bool-cases (ltb c.cap c.total && ltb 1 (length c.map))) [
        | inl more ↦
            let more' : (ltb d.cap d.total && ltb 1 (length d.map)) ≡ true =
              rw (← s.cap, ← s.total, ← long) more in
            let (x, hx) = oldest-some c.map (ground arith) in
            let (y, hy) = oldest-some d.map (ground arith) in
            let rec =
              evict_loop-IsSame word fuel (drop_victim word x.0 c) (drop_victim word x.0 d)
                (drop_victim-IsSame s word x.0) in
            rw (more, more', hx, hy, ← same_oldest s x y hx hy) rec
        | inr done ↦
            let done' : (ltb d.cap d.total && ltb 1 (length d.map)) ≡ false =
              rw (← s.cap, ← s.total, ← long) done in
            rw (done, done') s
      ]

  pub evict_to_cap-IsSame :
      (word : ℕ) (c d : Cache A) → IsSame c d → IsSame (evict_to_cap word c) (evict_to_cap word d)
  unfolding evict_to_cap
  evict_to_cap-IsSame word c d s =
      rw (← same_length s) (evict_loop-IsSame word (length c.map) c d s)

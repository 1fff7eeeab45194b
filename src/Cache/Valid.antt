-- ===== src/Cache/Valid.antt =====
-- src/cache.rs: a whole call keeps the cache valid, whatever its builder returns.
use laterite_duckdb.Base.{
  ℕ, ◌+◌, ◌≤◌, ◌<◌, ◌≡◌, refl, sym, ◌∙◌, subst, arith, Result, ok, err, panic,
}
use laterite_duckdb.Cache.{
  Cache, Key, Probe, disabled, hit, miss, u64_mod, probe, finish, get_or_try_insert,
}
use laterite_duckdb.Cache.Invariant.{HasRoom, IsValid, publish-IsValid, publish-clock, publish-cap}
use laterite_duckdb.Cache.Lookup.{probe-IsValid}
use laterite_duckdb.Cache.Memo.{probe-cap, probe-clock}

module _ {A : Type 0} (word limit : ℕ) where
  -- The invariant is kept, the cap stays, and the clock moves at most `n` on.
  pub record IsKept (n : ℕ) (c d : Cache A) : Type 0 where
    pub valid : IsValid word limit d
    pub cap : d.cap ≡ c.cap
    pub clock : d.clock ≤ c.clock + n

  module _ {W : Type 0} (key : Key) (fits : key.size ≤ limit) where
    finish-IsKept :
        (built : Result A × W) (c : Cache A)
        → HasRoom word limit c.cap
        → c.clock + 1 < u64_mod
        → IsValid word limit c
        → IsKept 1 c (finish word key built c).1
    unfolding finish
    finish-IsKept (ok a, w) c room young v = record {
      valid = publish-IsValid word limit key a c room fits young v;
      cap = publish-cap word limit key a c room fits young v;
      clock = omega (arith, publish-clock word limit key a c room fits young v);
    }
    finish-IsKept (err e, w) c room young v = record { valid = v; cap = refl; clock = omega arith }
    finish-IsKept (panic, w) c room young v = record { valid = v; cap = refl; clock = omega arith }

    answered :
        (build : W → Result A × W) (w : W) (c : Cache A) (found : Probe A)
        → (probe key c).0 ≡ found
        → HasRoom word limit (probe key c).1.cap
        → (probe key c).1.clock + 1 < u64_mod
        → IsValid word limit (probe key c).1
        → IsKept 1 (probe key c).1 (get_or_try_insert word key build c w).1
    unfolding get_or_try_insert
    answered build w c disabled h room young v =
        rw (h, get_or_try_insert) (record { valid = v; cap = refl; clock = omega arith })
    answered build w c (hit a) h room young v =
        rw (h, get_or_try_insert) (record { valid = v; cap = refl; clock = omega arith })
    answered build w c miss h room young v =
        rw (h, get_or_try_insert) (finish-IsKept (build w) (probe key c).1 room young v)

    pub get_or_try_insert-IsKept :
        (build : W → Result A × W) (c : Cache A) (w : W)
        → HasRoom word limit c.cap
        → c.clock + 2 < u64_mod
        → IsValid word limit c
        → IsKept 2 c (get_or_try_insert word key build c w).1
    get_or_try_insert-IsKept build c w room young v =
        let tick = probe-clock key c (omega arith) in
        let kept =
          answered build w c (probe key c).0 refl
            (subst (HasRoom word limit) (sym (probe-cap key c)) room) (omega (arith, tick))
            (probe-IsValid word limit key c (omega arith) v) in
        record {
          valid = kept.valid;
          cap = kept.cap ∙ probe-cap key c;
          clock = omega (arith, kept.clock, tick);
        }

-- ===== src/Cache/Threads/Safety.antt =====
-- What every interleaving of the critical sections in src/cache.rs keeps.
use laterite_duckdb.Base.{
  ℕ, suc, ◌+◌, ◌≤◌, ◌<◌, ◌≡◌, ◌∙◌, refl, arith, All, nat_eq, Result, ok, err, panic, length, subst,
  sym,
}
use laterite_duckdb.Cache.{
  Key, key_eq, Cache, Probe, disabled, hit, miss, probe, publish, store, u64_mod,
}
use laterite_duckdb.Cache.Entries.{All-insert, All-remove}
use laterite_duckdb.Cache.Evict.{evict_loop_induction}
use laterite_duckdb.Cache.Invariant.{
  IsValid, HasRoom, publish-IsValid, publish-cap, publish-clock, store-IsCounted, new_cache-IsValid,
}
use laterite_duckdb.Cache.Lookup.{probe-IsValid}
use laterite_duckdb.Cache.Memo.{probe-cap, probe-clock}
use laterite_duckdb.Cache.Threads.{
  idle, building, System, enter, after_probe, publish_built, return_built, set_job, Reach, start,
  call, built, built_only,
}
use laterite_duckdb.Cache.Threads.Answers.{IsAnswer, probe-IsAnswer, probe_hit-answer}

module _ {A : Type 0} (answer : Key → Result A) where
  module _ (word limit bytes : ℕ) (room : HasRoom word limit bytes) where
    publish-IsAnswer :
        (key : Key) (a : A) (c : Cache A)
        → c.cap ≡ bytes
        → key.size ≤ limit
        → c.clock + 1 < u64_mod
        → IsValid word limit c
        → answer key ≡ ok a
        → All (IsAnswer answer) c.map
        → All (IsAnswer answer) (publish word key a c).map
    unfolding publish
    publish-IsAnswer key a c same fits young v right h =
        let stored = store word key a c in
        evict_loop_induction word (λ (d : Cache A). All (IsAnswer answer) d.map)
          (λ k e d found old more kept. All-remove (IsAnswer answer) k d.map kept)
          (length stored.map) stored
          (store-IsCounted word limit key a c (subst (HasRoom word limit) (sym same) room) fits v)
          (All-insert (IsAnswer answer) key _ c.map right h)

    -- The state that every interleaving keeps.
    pub record IsSafe (n : ℕ) (s : System A) : Type 0 where
      pub valid : IsValid word limit s.cache
      pub cap : s.cache.cap ≡ bytes
      pub clock : s.cache.clock ≤ n
      pub entries : All (IsAnswer answer) s.cache.map
      pub log : All (λ r. r.1 ≡ answer r.0) s.log
      pub sizes : (i : ℕ) (key : Key) → s.jobs i ≡ building key → key.size ≤ limit

    -- The cache after a first critical section.
    record IsProbed (n : ℕ) (c : Cache A) : Type 0 where
      valid : IsValid word limit c
      cap : c.cap ≡ bytes
      clock : c.clock ≤ n
      entries : All (IsAnswer answer) c.map

    probed :
        (n : ℕ) (key : Key) (s : System A)
        → suc n < u64_mod
        → IsSafe n s
        → IsProbed (suc n) (probe key s.cache).1
    probed n key s few h = record {
      valid = probe-IsValid word limit key s.cache (omega (arith, h.clock)) h.valid;
      cap = probe-cap key s.cache ∙ h.cap;
      clock = omega (arith, probe-clock key s.cache (omega (arith, h.clock)), h.clock);
      entries = probe-IsAnswer answer key s.cache h.entries;
    }

    after_probe-IsSafe :
        (n i : ℕ) (key : Key) (p : Probe A) (c : Cache A) (s : System A)
        → key.size ≤ limit
        → IsProbed (suc n) c
        → ((a : A) → p ≡ hit a → answer key ≡ ok a)
        → IsSafe n s
        → IsSafe (suc n) (after_probe i key p c s)
    unfolding after_probe
    after_probe-IsSafe n i key disabled c s fits q right h = record {
      valid = q.valid;
      cap = q.cap;
      clock = q.clock;
      entries = q.entries;
      log = h.log;
      sizes = λ j k busy. ground (arith, h.sizes j k);
    }
    after_probe-IsSafe n i key (hit a) c s fits q right h = record {
      valid = q.valid;
      cap = q.cap;
      clock = q.clock;
      entries = q.entries;
      log = (sym (right a refl), h.log);
      sizes = h.sizes;
    }
    after_probe-IsSafe n i key miss c s fits q right h = record {
      valid = q.valid;
      cap = q.cap;
      clock = q.clock;
      entries = q.entries;
      log = h.log;
      sizes = λ j k busy. ground (arith, h.sizes j k);
    }

    returned-sizes :
        (n i : ℕ) (s : System A)
        → IsSafe n s
        → (j : ℕ) (k : Key) → set_job s.jobs i idle j ≡ building k
        → k.size ≤ limit
    returned-sizes n i s h j k busy = ground (arith, h.sizes j k)

    publish_built-IsSafe :
        (n i : ℕ) (key : Key) (r : Result A) (s : System A)
        → suc n < u64_mod
        → key.size ≤ limit
        → answer key ≡ r
        → IsSafe n s
        → IsSafe (suc n) (publish_built word i key r s)
    unfolding publish_built
    publish_built-IsSafe n i key (ok a) s few fits right h =
        let room' = subst (HasRoom word limit) (sym h.cap) room in
        let young : s.cache.clock + 1 < u64_mod = omega (arith, h.clock) in
        record {
          valid = publish-IsValid word limit key a s.cache room' fits young h.valid;
          cap = publish-cap word limit key a s.cache room' fits young h.valid ∙ h.cap;
          clock =
              omega
                (arith, publish-clock word limit key a s.cache room' fits young h.valid, h.clock);
          entries = publish-IsAnswer key a s.cache h.cap fits young h.valid right h.entries;
          log = (sym right, h.log);
          sizes = returned-sizes n i s h;
        }
    publish_built-IsSafe n i key (err e) s few fits right h = record {
      valid = h.valid;
      cap = h.cap;
      clock = omega (arith, h.clock);
      entries = h.entries;
      log = (sym right, h.log);
      sizes = returned-sizes n i s h;
    }
    publish_built-IsSafe n i key panic s few fits right h = record {
      valid = h.valid;
      cap = h.cap;
      clock = omega (arith, h.clock);
      entries = h.entries;
      log = (sym right, h.log);
      sizes = returned-sizes n i s h;
    }

    enter-IsSafe :
        (n i : ℕ) (key : Key) (s : System A)
        → suc n < u64_mod
        → key.size ≤ limit
        → IsSafe n s
        → IsSafe (suc n) (enter i key s)
    unfolding enter
    enter-IsSafe n i key s few fits h =
        after_probe-IsSafe n i key (probe key s.cache).0 (probe key s.cache).1 s fits
          (probed n key s few h) (λ a p. probe_hit-answer answer key s.cache a h.entries p) h

    return_built-IsSafe :
        (n i : ℕ) (key : Key) (s : System A)
        → IsSafe n s
        → IsSafe (suc n) (return_built word i key (answer key) s)
    unfolding return_built
    return_built-IsSafe n i key s h = record {
      valid = h.valid;
      cap = h.cap;
      clock = omega (arith, h.clock);
      entries = h.entries;
      log = (refl, h.log);
      sizes = returned-sizes n i s h;
    }

    -- Whatever the interleaving of fewer than 2 ^ 64 critical sections, for files of at most
    -- `limit` bytes, a `usize` with room for the cap and two such files, and one answer for each
    -- key's builder: the cache keeps its invariant and its cap, its entries are what their
    -- builders returned, and every call that has returned gave what the builder of its key
    -- returns.
    pub Reach-IsSafe :
        (n : ℕ) {s : System A} → n < u64_mod → Reach word limit bytes answer n s → IsSafe n s
    Reach-IsSafe n few start = record {
      valid = new_cache-IsValid word limit bytes (omega (arith, room.two));
      cap = refl;
      clock = omega arith;
      entries = tt;
      log = tt;
      sizes = λ i key busy. cc;
    }
    Reach-IsSafe n few (call {n = m} {s = s} i key r free fits) =
        enter-IsSafe m i key s few fits (Reach-IsSafe m (omega arith) r)
    Reach-IsSafe n few (built {n = m} {s = s} i key r busy) =
        let h = Reach-IsSafe m (omega arith) r in
        publish_built-IsSafe m i key (answer key) s few (h.sizes i key busy) refl h
    Reach-IsSafe n few (built_only {n = m} {s = s} i key r busy) =
        return_built-IsSafe m i key s (Reach-IsSafe m (omega arith) r)

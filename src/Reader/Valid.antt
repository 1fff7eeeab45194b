-- ===== src/Reader/Valid.antt =====
-- src/source.rs and src/read_ags.rs: the parse cache while files are read.
use laterite_duckdb.Base.{
  ℕ, ◌+◌, ◌≤◌, ◌<◌, ◌≡◌, refl, sym, ◌∙◌, subst, arith, String, Result, ok, err, panic,
}
use laterite_duckdb.Base.Io.{Io, lift, continue, finally, ◌>>=◌}
use laterite_duckdb.Cache.{Cache, Key, u64_mod}
use laterite_duckdb.Cache.Invariant.{HasRoom, IsValid}
use laterite_duckdb.Cache.Valid.{IsKept, get_or_try_insert-IsKept}
use laterite_duckdb.Engine.{Engine}
use laterite_duckdb.Host.{Host}
use laterite_duckdb.Reader.{
  Encodings, State, io, on_world, with_vfs, cached, parse_file, read_parsed_with_encoding,
}
use laterite_duckdb.Source.{from_bind, drop_vfs, max_file_bytes, open_for_read}
use laterite_duckdb.Source.Opened.{open_for_read-le}

module _ (C : Encodings) (E : Engine) (H : Host) (word limit : ℕ)
    (bounded : max_file_bytes H ≤ limit) where
  abbrev Kept : ℕ → Cache E.ParsedAgs4 → Cache E.ParsedAgs4 → Type 0
  Kept = IsKept word limit

  -- A step keeps the cache of every process whose cache is valid, `n` ticks before the clock wraps.
  pub record Keeps (n : ℕ) {A : Type 0} (m : Io (State C E H word) A) : Type 0 where
    pub run :
        (s : State C E H word)
        → HasRoom word limit s.cache.cap
        → s.cache.clock + n < u64_mod
        → IsValid word limit s.cache
        → Kept n s.cache (m s).1.cache

  pub IsKept-refl : (n : ℕ) (c : Cache E.ParsedAgs4) → IsValid word limit c → Kept n c c
  IsKept-refl n c v = record { valid = v; cap = refl; clock = omega arith }

  IsKept-trans : (a b : ℕ) (c d e : Cache E.ParsedAgs4) → Kept a c d → Kept b d e → Kept (a + b) c e
  IsKept-trans a b c d e p q = record {
    valid = q.valid;
    cap = q.cap ∙ p.cap;
    clock = omega (arith, p.clock, q.clock);
  }

  -- What acts on the world or on the pool alone.
  pub Keeps-io : {A : Type 0} (m : Io H.World A) → Keeps 0 (io C E H word m)
  Keeps-io m = record { run = λ s room young v. IsKept-refl 0 s.cache v }

  pub Keeps-lift : {A : Type 0} (r : Result A) → Keeps 0 (lift r)
  Keeps-lift r = record { run = λ s room young v. IsKept-refl 0 s.cache v }

  Keeps-continue :
      {A B : Type 0} (b : ℕ) (r : Result A) (f : A → Io (State C E H word) B) (s : State C E H word)
      → ((a : A) → r ≡ ok a → Keeps b (f a))
      → HasRoom word limit s.cache.cap
      → s.cache.clock + b < u64_mod
      → IsValid word limit s.cache
      → Kept b s.cache (continue r f s).1.cache
  Keeps-continue b (ok a) f s k room young v = (k a refl).run s room young v
  Keeps-continue b (err e) f s k room young v = IsKept-refl b s.cache v
  Keeps-continue b panic f s k room young v = IsKept-refl b s.cache v

  pub Keeps-bind :
      {A B : Type 0} (a b : ℕ) (m : Io (State C E H word) A) {f : A → Io (State C E H word) B}
      → Keeps a m
      → ((x : A) (s : State C E H word) → (m s).0 ≡ ok x → Keeps b (f x))
      → Keeps (a + b) (m >>= f)
  Keeps-bind a b m {f} km kf = record {
    run = λ s room young v.
        let first = km.run s room (omega arith) v in
        IsKept-trans a b s.cache (m s).1.cache _ first (
          Keeps-continue b (m s).0 f (m s).1 (λ x e. kf x s e)
            (subst (HasRoom word limit) (sym first.cap) room) (omega (arith, first.clock))
            first.valid);
  }

  -- What is dropped at the end acts on the world alone.
  Keeps-finally :
      {A : Type 0} (n : ℕ) (drop : H.World → H.World) (m : Io (State C E H word) A)
      → Keeps n m
      → Keeps n (finally (on_world C E H word drop) m)
  Keeps-finally n drop m k = record {
    run = λ s room young v.
        let kept = k.run s room young v in
        record { valid = kept.valid; cap = kept.cap; clock = kept.clock };
  }

  pub Keeps-with_vfs :
      {A : Type 0} (m : Io (State C E H word) A) → Keeps 2 m → Keeps 2 (with_vfs C E H word m)
  unfolding with_vfs
  Keeps-with_vfs m k =
      Keeps-bind 0 2 (io C E H word (from_bind H)) (Keeps-io (from_bind H))
        (λ _ _ _. Keeps-finally 2 (drop_vfs H) m k)

  cached-Keeps :
      (key : Key) (build : Io H.World E.ParsedAgs4)
      → key.size ≤ limit
      → Keeps 2 (cached C E H word key build)
  unfolding cached
  cached-Keeps key build fits = record {
    run = λ s room young v.
        get_or_try_insert-IsKept word limit key fits build s.cache s.world room young v;
  }

  pub read_parsed_with_encoding-Keeps :
      (path : String) (encoding : C.Encoding)
      → Keeps 2 (read_parsed_with_encoding C E H word path encoding)
  unfolding read_parsed_with_encoding
  read_parsed_with_encoding-Keeps path encoding =
      Keeps-bind 0 2 (io C E H word (open_for_read H path)) (Keeps-io (open_for_read H path))
        (λ opened s e. Keeps-finally 2 (H.destroy_handle opened.0) _ (
          cached-Keeps _ (parse_file C E H word path encoding opened.0 opened.1) (
            let small = open_for_read-le H path s.world opened e in omega (arith, small, bounded))))

-- ===== src/Cache/Threads/Answers.antt =====
-- src/cache.rs: a cache whose entries are what the builders of their keys return, and its lookups.
use laterite_duckdb.Base.{
  ◌≡◌, refl, arith, All, ◌==◌, nat_eq, Result, ok, Bool-cases, Option, none, some, inl, inr,
}
use laterite_duckdb.Base.HashMap
use laterite_duckdb.Cache.{Key, key_eq, Entry, Cache, hit, probe, touch}
use laterite_duckdb.Cache.Entries.{All-insert, All-get}

module _ {A : Type 0} (answer : Key → Result A) where
  -- Every entry is what the builder of its key returned.
  abbrev pub IsAnswer : Key × Entry A → Type 0
  IsAnswer y = answer y.0 ≡ ok y.1.parsed

  touch-IsAnswer :
      (key : Key) (o : Option (Entry A)) (c : Cache A)
      → HashMap.get key c.map ≡ o
      → All IsAnswer c.map
      → All IsAnswer (touch key o c).1.map
  unfolding touch
  touch-IsAnswer key none c found h = h
  touch-IsAnswer key (some e) c found h =
      All-insert IsAnswer key _ c.map (All-get IsAnswer key e c.map h found) h

  pub probe-IsAnswer :
      (key : Key) (c : Cache A) → All IsAnswer c.map → All IsAnswer (probe key c).1.map
  unfolding probe
  probe-IsAnswer key c h = elim (Bool-cases (c.cap == 0)) [
    | inl off ↦ rw off h
    | inr on ↦ rw on (touch-IsAnswer key (HashMap.get key c.map) c refl h)
  ]

  touch_hit-answer :
      (key : Key) (o : Option (Entry A)) (c : Cache A) (a : A)
      → HashMap.get key c.map ≡ o
      → All IsAnswer c.map
      → (touch key o c).0 ≡ hit a
      → answer key ≡ ok a
  unfolding touch
  touch_hit-answer key none c a found h p = cc
  touch_hit-answer key (some e) c a found h p =
      let right = All-get IsAnswer key e c.map h found in ground arith

  pub probe_hit-answer :
      (key : Key) (c : Cache A) (a : A)
      → All IsAnswer c.map
      → (probe key c).0 ≡ hit a
      → answer key ≡ ok a
  unfolding probe
  probe_hit-answer key c a h p = elim (Bool-cases (c.cap == 0)) [
    | inl off ↦ absurd (cc (rw off at p))
    | inr on ↦ touch_hit-answer key (HashMap.get key c.map) c a refl h (rw on at p)
  ]

-- ===== src/Cache.antt =====
-- src/cache.rs: the process-wide parse cache, a byte-capped least-recently-used map. `word` is the
-- modulus of `usize`, 2 ^ 64 on the native targets and 2 ^ 32 on wasm32. Each critical section of
-- the mutex is one function, `probe` and `publish`; between the two other threads may run theirs.
mod Entries
pub mod Evict
pub mod Invariant
pub mod Lookup
pub mod Recency
pub mod Memo
pub mod Valid
pub mod Threads
pub mod Order
pub mod Lru
use laterite_duckdb.Base.{
  ℕ, zero, suc, ◌+◌, ◌-◌, ◌*◌, ◌%◌, ◌^◌, max, String, ◌≡◌, refl, ap₂, ◌↔◌, Bool, true, ◌&&◌, Option,
  none, some, List, [], ◌∷◌, arith, Eq, ◌==◌, nat_eq, string_eq, ltb, length, if◌then◌else◌, Result,
  ok, err, panic,
}
use laterite_duckdb.Base.HashMap
use laterite_duckdb.Base.Text.{trim, parse_uint}
use mathlib.Core.Option
use text.Mathlib.TextEquality.{eq_iff}

-- 256 MiB.
abbrev pub default_cap_bytes : ℕ
default_cap_bytes = 256 * 1024 * 1024

abbrev pub min_entry_cost : ℕ
min_entry_cost = 4 * 1024

-- The modulus of `u64`.
abbrev pub u64_mod : ℕ
u64_mod = 2 ^ 64

-- `Key`: the path, its byte size and the name of the encoding.
pub record Key : Type 0 where
  pub path : String
  pub size : ℕ
  pub encoding : String

abbrev pub key_beq : Key → Key → Bool
key_beq a b = a.path == b.path && (a.size == b.size && a.encoding == b.encoding)

pub key_beq_iff : (a b : Key) → (key_beq a b ≡ true) ↔ (a ≡ b)
key_beq_iff a b = (
  λ h. ground (arith, eq_iff a.path b.path, eq_iff a.encoding b.encoding),
  λ h. ground (arith, eq_iff a.path b.path, eq_iff a.encoding b.encoding),
)

instance abbrev pub key_eq : Eq Key
key_eq = record { beq = key_beq; beq_iff = key_beq_iff }

pub record Entry (A : Type 0) : Type 0 where
  pub parsed : A
  pub cost : ℕ
  pub tick : ℕ

pub record Cache (A : Type 0) : Type 0 where
  pub map : List (Key × Entry A)
  pub total : ℕ
  pub cap : ℕ
  pub clock : ℕ

-- The cap from `LATERITE_AGS_CACHE_BYTES`, given `env::var(..).ok()`.
unfoldable pub cap_from_env : ℕ → Option String → ℕ
unfolding trim parse_uint
cap_from_env word (some v) = Option.get_or (parse_uint word (trim v)) default_cap_bytes
cap_from_env word none = default_cap_bytes

-- What the closure of `OnceLock::get_or_init` builds in `cache()`.
abbrev pub new_cache : {A : Type 0} → ℕ → Cache A
new_cache cap = record { map = []; total = 0; cap = cap; clock = 0 }

-- `usize` arithmetic of a release build.
abbrev pub add_usize : ℕ → ℕ → ℕ → ℕ
add_usize word a b = (a + b) % word

abbrev pub sub_usize : ℕ → ℕ → ℕ → ℕ
sub_usize word a b = (a + word - b) % word

-- `c.clock += 1; let tick = c.clock;`
abbrev pub next_tick : {A : Type 0} → Cache A → ℕ
next_tick c = (c.clock + 1) % u64_mod

-- `(size as usize).max(MIN_ENTRY_COST)`
abbrev pub entry_cost : ℕ → ℕ → ℕ
entry_cost word size = max (size % word) min_entry_cost

module _ {A : Type 0} where
  -- `min_by_key` keeps the first of several minima.
  unfoldable pub older : Key × Entry A → Key × Entry A → Key × Entry A
  older best x = if ltb x.1.tick best.1.tick then x else best

  unfoldable pub oldest_from : Key × Entry A → List (Key × Entry A) → Key × Entry A
  oldest_from best [] = best
  oldest_from best (x ∷ xs) = oldest_from (older best x) xs

  unfoldable pub oldest : List (Key × Entry A) → Option (Key × Entry A)
  unfolding older oldest_from
  oldest [] = none
  oldest (x ∷ xs) = some (oldest_from x xs)

  module _ (word : ℕ) where
    -- `if let Some(e) = self.map.remove(&k) { self.total -= e.cost; }`
    unfoldable pub drop_victim : Key → Cache A → Cache A
    unfolding HashMap.get HashMap.remove
    drop_victim k c = elim (HashMap.get k c.map) [
      | none ↦ c
      | some e ↦ record c { map = HashMap.remove k c.map; total = sub_usize word c.total e.cost }
    ]

    -- The loop of `evict_to_cap`, with fuel for its rounds.
    unfoldable pub evict_loop : ℕ → Cache A → Cache A
    unfolding oldest drop_victim
    evict_loop zero c = c
    evict_loop (suc fuel) c =
        let rest : Cache A = elim (oldest c.map) [
          | some (k, _) ↦ evict_loop fuel (drop_victim k c)
          | none ↦ c
        ] in
        if ltb c.cap c.total && ltb 1 (length c.map) then rest else c

    -- Each round removes an entry, so the entries are fuel enough.
    unfoldable pub evict_to_cap : Cache A → Cache A
    unfolding evict_loop
    evict_to_cap c = evict_loop (length c.map) c

-- What the first critical section of `get_or_try_insert` finds.
pub data Probe (A : Type 0) : Type 0 where
  disabled : Probe A
  hit : A → Probe A
  miss : Probe A

module _ {A : Type 0} where
  -- The lookup under the advanced clock: a hit restamps its entry.
  unfoldable pub touch : Key → Option (Entry A) → Cache A → Probe A × Cache A
  unfolding HashMap.insert
  touch key none c = (miss, record c { clock = next_tick c })
  touch key (some e) c = (
    hit e.parsed,
    record c {
      map = (HashMap.insert key (record e { tick = next_tick c }) c.map).0;
      clock = next_tick c;
    },
  )

  -- The first critical section.
  unfoldable pub probe : Key → Cache A → Probe A × Cache A
  unfolding touch HashMap.get
  probe key c = if c.cap == 0 then (disabled, c) else touch key (HashMap.get key c.map) c

  module _ (word : ℕ) where
    abbrev pub reconcile : Option (Entry A) → ℕ → ℕ
    reconcile none total = total
    reconcile (some old) total = sub_usize word total old.cost

    -- The second critical section up to the eviction: the entry is inserted and its cost charged.
    unfoldable pub store : Key → A → Cache A → Cache A
    unfolding HashMap.insert
    store key parsed c =
        let cost = entry_cost word key.size in
        let entry : Entry A = record { parsed = parsed; cost = cost; tick = next_tick c } in
        let (m, old) = HashMap.insert key entry c.map in
        record c {
          map = m;
          total = add_usize word (reconcile old c.total) cost;
          clock = next_tick c;
        }

    -- The second critical section.
    unfoldable pub publish : Key → A → Cache A → Cache A
    unfolding store evict_to_cap
    publish key parsed c = evict_to_cap word (store key parsed c)

    module _ {W : Type 0} where
      unfoldable pub finish : Key → Result A × W → Cache A → Result A × Cache A × W
      unfolding publish
      finish key (ok parsed, w) c = (ok parsed, publish key parsed c, w)
      finish key (err e, w) c = (err e, c, w)
      finish key (panic, w) c = (panic, c, w)

      -- `get_or_try_insert` with no other thread between its two sections. `build` acts on the
      -- outside world `W`, so that whether it ran can be read off.
      unfoldable pub get_or_try_insert :
          Key → (W → Result A × W) → Cache A → W → Result A × Cache A × W
      unfolding probe finish
      get_or_try_insert key build c w =
          let (found, c') = probe key c in
          elim found [
            | disabled ↦ let (r, w') = build w in (r, c', w')
            | hit parsed ↦ (ok parsed, c', w)
            | miss ↦ finish key (build w) c'
          ]

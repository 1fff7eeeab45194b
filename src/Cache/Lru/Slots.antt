-- ===== src/Cache/Lru/Slots.antt =====
-- The recency list of src/cache.rs without its stamps.
use laterite_duckdb.Base.{ℕ, ◌+◌, ◌≡◌, refl, ap, arith, Option, none, some, List, [], ◌∷◌, nat_eq}
use laterite_duckdb.Base.HashMap
use laterite_duckdb.Cache.{Key, key_eq, Entry}
use laterite_duckdb.Cache.Lru.{within, keep, Slot, slot_cost}
use laterite_duckdb.Cache.Lru.Kept.{entry_cost_of}

module _ {A : Type 0} where
  abbrev pub forget : List (Key × Entry A) → List (Slot A)
  forget [] = []
  forget (x ∷ m) = (x.0, (x.1.parsed, x.1.cost)) ∷ forget m

  abbrev pub slot_of : Option (Entry A) → Option (A × ℕ)
  slot_of none = none
  slot_of (some e) = some (e.parsed, e.cost)

  pub get-forget :
      (k : Key) (m : List (Key × Entry A)) → HashMap.get k (forget m) ≡ slot_of (HashMap.get k m)
  unfolding HashMap.get
  get-forget k [] = refl
  get-forget k ((j, f) ∷ m) = ground (arith, get-forget k m)

  pub remove-forget :
      (k : Key) (m : List (Key × Entry A))
      → HashMap.remove k (forget m) ≡ forget (HashMap.remove k m)
  unfolding HashMap.remove
  remove-forget k [] = refl
  remove-forget k ((j, f) ∷ m) = ground (arith, remove-forget k m)

  within-forget :
      (cap used : ℕ) (m : List (Key × Entry A))
      → within slot_cost cap used (forget m) ≡ forget (within entry_cost_of cap used m)
  within-forget cap used [] = refl
  within-forget cap used ((j, f) ∷ m) = ground (arith, within-forget cap (used + f.cost) m)

  pub keep-forget :
      (cap : ℕ) (m : List (Key × Entry A))
      → keep slot_cost cap (forget m) ≡ forget (keep entry_cost_of cap m)
  keep-forget cap [] = refl
  keep-forget cap ((j, f) ∷ m) = ap (◌∷◌ (j, (f.parsed, f.cost))) (within-forget cap f.cost m)

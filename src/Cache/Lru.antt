-- ===== src/Cache/Lru.antt =====
-- What src/cache.rs promises: a list of its entries from the one used last to the one used first,
-- without stamps, clock or running total, and how a map stands for such a list.
pub mod Kept
pub mod Slots
pub mod Calls
pub mod Runs
use laterite_duckdb.Base.{
  ℕ, ◌+◌, ◌≤◌, ◌<◌, ◌≡◌, refl, sym, ap, ◌∙◌, subst, arith, Option, none, some, List, [], ◌∷◌, map,
  leb, ◌==◌, nat_eq, All, All-map, if◌then◌else◌, Result, ok, err, panic, eq_self, Bool-cases, inl,
  inr,
}
use laterite_duckdb.Base.HashMap
use laterite_duckdb.Base.HashMap.{NodupKeys}
use laterite_duckdb.Cache.{Key, key_eq, key_beq_iff, Entry, entry_cost}
use laterite_duckdb.Cache.Entries.{All-get, All-remove, All-get_self}
use mathlib.Core.Option

-- The longest piece from the front whose weights, with what is used already, fit the cap.
module _ {X : Type 0} (weight : X → ℕ) (cap : ℕ) where
  abbrev pub within : ℕ → List X → List X
  within used [] = []
  within used (x ∷ xs) =
      let rest = within (used + weight x) xs in if leb (used + weight x) cap then x ∷ rest else []

  -- The first one stays whatever it weighs.
  abbrev pub keep : List X → List X
  keep [] = []
  keep (x ∷ xs) = x ∷ within (weight x) xs

-- A value with its cost, under its key.
abbrev pub Slot : Type 0 → Type 0
Slot A = Key × (A × ℕ)

abbrev pub slot_cost : {A : Type 0} → Slot A → ℕ
slot_cost s = s.1.1

module _ {A W : Type 0} (word cap : ℕ) (key : Key) where
  abbrev pub lru_finish : Result A × W → List (Slot A) → Result A × List (Slot A) × W
  lru_finish (ok a, w) slots = (
    ok a,
    keep slot_cost cap ((key, (a, entry_cost word key.size)) ∷ HashMap.remove key slots),
    w,
  )
  lru_finish (err e, w) slots = (err e, slots, w)
  lru_finish (panic, w) slots = (panic, slots, w)

  abbrev pub lru_found :
      (W → Result A × W) → Option (A × ℕ) → List (Slot A) → W → Result A × List (Slot A) × W
  lru_found build (some (a, cost)) slots w = (ok a, (key, (a, cost)) ∷ HashMap.remove key slots, w)
  lru_found build none slots w = lru_finish (build w) slots

  -- A call on the list.
  abbrev pub lru_call : (W → Result A × W) → List (Slot A) → W → Result A × List (Slot A) × W
  lru_call build slots w =
      if cap == 0
      then (let (r, w') = build w in (r, slots, w'))
      else lru_found build (HashMap.get key slots) slots w

module _ {A : Type 0} where
  -- Each stamp is later than those behind it.
  abbrev pub Descends : List (Key × Entry A) → Type 0
  Descends [] = Unit
  Descends (x ∷ xs) = All (λ y. y.1.tick < x.1.tick) xs × Descends xs

  -- `recent` holds the entries of the map `m`, the one stamped last in front.
  pub record Orders (m recent : List (Key × Entry A)) : Type 0 where
    pub agree : (k : Key) → HashMap.get k m ≡ HashMap.get k recent
    pub distinct : NodupKeys recent
    pub descends : Descends recent

  -- What holds of all entries of the map holds of all in the list.
  pub All-Orders :
      (P : Key × Entry A → Type 0) (m recent : List (Key × Entry A))
      → Orders m recent
      → All P m
      → All P recent
  All-Orders P m recent o a =
      All-map (λ x. HashMap.get x.0 recent ≡ some x.1) P recent
        (λ x found. All-get P x.0 x.1 m a (o.agree x.0 ∙ found)) (All-get_self recent o.distinct)

  remove-Descends :
      (k : Key) (m : List (Key × Entry A)) → Descends m → Descends (HashMap.remove k m)
  unfolding HashMap.remove
  remove-Descends k [] d = tt
  remove-Descends k ((j, f) ∷ m) d = elim (Bool-cases (j == k)) [
    | inl same ↦ rw same (remove-Descends k m d.1)
    | inr other ↦ rw other (All-remove (λ y. y.1.tick < f.tick) k m d.0, remove-Descends k m d.1)
  ]

  pub remove-Orders :
      (k : Key) (m recent : List (Key × Entry A))
      → Orders m recent
      → Orders (HashMap.remove k m) (HashMap.remove k recent)
  remove-Orders k m recent o = record {
    agree = λ j.
        HashMap.get-remove k j m
        ∙ ap (λ f. if k == j then none else f) (o.agree j)
        ∙ sym (HashMap.get-remove k j recent);
    distinct = HashMap.remove-NodupKeys k recent o.distinct;
    descends = remove-Descends k recent o.descends;
  }

  insert-agree :
      (k : Key) (f : Entry A) (m recent : List (Key × Entry A))
      → Orders m recent
      → (j : Key)
      → HashMap.get j (HashMap.insert k f m).0 ≡ HashMap.get j ((k, f) ∷ HashMap.remove k recent)
  unfolding HashMap.get
  insert-agree k f m recent o j =
      ground (arith, HashMap.get-insert k j f m, HashMap.get-remove k j recent, o.agree j)

  -- An entry that is stamped later than all moves to the front.
  pub insert-Orders :
      (k : Key) (f : Entry A) (m recent : List (Key × Entry A))
      → Orders m recent
      → All (λ y. y.1.tick < f.tick) m
      → Orders (HashMap.insert k f m).0 ((k, f) ∷ HashMap.remove k recent)
  insert-Orders k f m recent o newest = record {
    agree = insert-agree k f m recent o;
    distinct = (
      HashMap.get-remove k k recent ∙ rw (eq_self k),
      HashMap.remove-NodupKeys k recent o.distinct,
    );
    descends = (
      All-remove (λ y. y.1.tick < f.tick) k recent
          (All-Orders (λ y. y.1.tick < f.tick) m recent o newest),
      remove-Descends k recent o.descends,
    );
  }

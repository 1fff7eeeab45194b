-- ===== src/Base/HashMap.antt =====
-- `std::collections::HashMap`, as an association list in the order in which it would iterate. That
-- order is unspecified; an insertion puts a new key in front and replaces a key in its place.
use laterite_duckdb.Base.Tests.{Eq, ◌==◌, if◌then◌else◌}
use laterite_duckdb.Base.Lists.{length}
use Prim.Native.Nat.{◌+◌}
use mathlib.Core.List.{List, [], ◌∷◌}
use mathlib.Core.Option.{Option, none, some}
use mathlib.Core.Path.{◌≡◌, refl, sym, ◌∙◌}
use native.Mathlib.Omega.{arith}

module _ {ℓ κ} {K : Type ℓ} {V : Type κ} ⦃e : Eq K⦄ where
  -- `get`
  unfoldable pub get : K → List (K × V) → Option V
  get k [] = none
  get k ((j, v) ∷ m) = if j == k then some v else get k m

  -- `remove`
  unfoldable pub remove : K → List (K × V) → List (K × V)
  remove k [] = []
  remove k ((j, v) ∷ m) = let rest = remove k m in if j == k then rest else (j, v) ∷ rest

  -- replaces the value of a key that is there
  unfoldable pub replace : K → V → List (K × V) → List (K × V)
  replace k v [] = []
  replace k v ((j, w) ∷ m) =
      let rest = replace k v m in if j == k then (k, v) ∷ m else (j, w) ∷ rest

  unfoldable pub insert_at : Option V → K → V → List (K × V) → List (K × V)
  insert_at none k v m = (k, v) ∷ m
  insert_at (some old) k v m = replace k v m

  -- `insert`: the map, with the value that was replaced
  unfoldable pub insert : K → V → List (K × V) → List (K × V) × Option V
  unfolding insert_at replace get
  insert k v m = (insert_at (get k m) k v m, get k m)

  abbrev pub NodupKeys : List (K × V) → Type κ
  NodupKeys [] = Unit
  NodupKeys ((k, _) ∷ m) = (get k m ≡ none) × NodupKeys m

  pub get-remove :
      (k j : K) (m : List (K × V)) → get j (remove k m) ≡ (if k == j then none else get j m)
  unfolding get remove
  get-remove k j [] = ground arith
  get-remove k j ((i, v) ∷ m) =
      ground (arith, get-remove k j m, e.beq_iff i k, e.beq_iff i j, e.beq_iff k j)

  get-replace :
      (k j : K) (v w : V) (m : List (K × V))
      → get k m ≡ some w
      → get j (replace k v m) ≡ (if k == j then some v else get j m)
  unfolding get replace
  get-replace k j v w [] h = cc
  get-replace k j v w ((i, u) ∷ m) h =
      ground (arith, get-replace k j v w m, e.beq_iff i k, e.beq_iff i j, e.beq_iff k j)

  pub get-insert :
      (k j : K) (v : V) (m : List (K × V))
      → get j (insert k v m).0 ≡ (if k == j then some v else get j m)
  unfolding get insert
  get-insert k j v m =
      elim (get k m)
          as (λ o. get k m ≡ o → get j (insert_at o k v m) ≡ (if k == j then some v else get j m)) [
            | none ↦ λ h. refl
            | some w ↦ λ h. get-replace k j v w m h
          ]
        refl

  pub remove-NodupKeys : (k : K) (m : List (K × V)) → NodupKeys m → NodupKeys (remove k m)
  unfolding remove
  remove-NodupKeys k [] d = tt
  remove-NodupKeys k ((j, v) ∷ m) (fresh, d) =
      ground (arith, remove-NodupKeys k m d, get-remove k j m, e.beq_iff j k)

  replace-NodupKeys :
      (k : K) (v w : V) (m : List (K × V))
      → get k m ≡ some w
      → NodupKeys m
      → NodupKeys (replace k v m)
  unfolding replace get
  replace-NodupKeys k v w [] h d = tt
  replace-NodupKeys k v w ((j, u) ∷ m) h (fresh, d) =
      ground (arith, replace-NodupKeys k v w m, get-replace k j v w m, e.beq_iff j k, e.beq_iff k j)

  pub insert-NodupKeys :
      (k : K) (v : V) (m : List (K × V)) → NodupKeys m → NodupKeys (insert k v m).0
  unfolding insert
  insert-NodupKeys k v m d =
      elim (get k m) as (λ o. get k m ≡ o → NodupKeys (insert_at o k v m)) [
        | none ↦ λ h. (h, d)
        | some w ↦ λ h. replace-NodupKeys k v w m h d
      ]
        refl

  pub remove_absent : (k : K) (m : List (K × V)) → get k m ≡ none → remove k m ≡ m
  unfolding get remove
  remove_absent k [] h = refl
  remove_absent k ((j, w) ∷ m) h = ground (arith, remove_absent k m)

  pub length-remove :
      (k : K) (v : V) (m : List (K × V))
      → NodupKeys m
      → get k m ≡ some v
      → length (remove k m) + 1 ≡ length m
  unfolding get remove
  length-remove k v [] d h = cc
  length-remove k v ((j, w) ∷ m) (fresh, d) h =
      ground (arith, length-remove k v m d, remove_absent k m, e.beq_iff j k)

  -- A key that is found stays found behind another key.
  pub get-cons :
      (i j : K) (v w : V) (m : List (K × V))
      → get i m ≡ none
      → get j m ≡ some v
      → get j ((i, w) ∷ m) ≡ some v
  unfolding get
  get-cons i j v w m absent found = ground (arith, e.beq_iff i j)

  pub get_under :
      (i i' j : K) (v w w' : V) (m : List (K × V))
      → get i ((i', w') ∷ m) ≡ none
      → get i' m ≡ none
      → get j ((i, w) ∷ m) ≡ some v
      → get j ((i, w) ∷ (i', w') ∷ m) ≡ some v
  unfolding get
  get_under i i' j v w w' m absent absent' found =
      ground (arith, e.beq_iff i j, e.beq_iff i' j, e.beq_iff i' i)

  pub get-eq-none_of_cons :
      (i i' : K) (w : V) (m : List (K × V)) → get i ((i', w) ∷ m) ≡ none → get i m ≡ none
  unfolding get
  get-eq-none_of_cons i i' w m h = ground arith

  pub length-replace : (k : K) (v : V) (m : List (K × V)) → length (replace k v m) ≡ length m
  unfolding replace
  length-replace k v [] = refl
  length-replace k v ((j, w) ∷ m) = ground (arith, length-replace k v m)

  get_head : (k : K) (v : V) (m : List (K × V)) → get k ((k, v) ∷ m) ≡ some v
  unfolding get
  get_head k v m = ground (arith, e.beq_iff k k)

  -- A map without any key is empty.
  pub empty_of_get : (n : List (K × V)) → ((k : K) → get k n ≡ none) → n ≡ []
  empty_of_get [] same = refl
  empty_of_get ((j, w) ∷ n) same = let h = get_head j w n in absurd (cc (same j))

  -- A map with the lookups of `(k, v) ∷ m` has that entry, and else those of `m`.
  pub split_of_get :
      (k : K) (v : V) (m n : List (K × V))
      → get k m ≡ none
      → ((j : K) → get j ((k, v) ∷ m) ≡ get j n)
      → (get k n ≡ some v) × ((j : K) → get j m ≡ get j (remove k n))
  unfolding get
  split_of_get k v m n fresh same = (
    sym (same k) ∙ get_head k v m,
    λ j. let s = same j in ground (arith, get-remove k j n, e.beq_iff k j),
  )

  -- Two maps with the same lookups have as many entries.
  pub length_of_get :
      (m n : List (K × V))
      → NodupKeys m
      → NodupKeys n
      → ((k : K) → get k m ≡ get k n)
      → length m ≡ length n
  unfolding get
  length_of_get [] n d d' same = let h = empty_of_get n (λ k. sym (same k)) in rw h refl
  length_of_get ((k, v) ∷ m) n (fresh, d) d' same =
      let (found, others) = split_of_get k v m n fresh same in
      let rest = length_of_get m (remove k n) d (remove-NodupKeys k n d') others in
      omega (arith, rest, length-remove k v n d' found)

  pub get-of_remove :
      (k j : K) (m : List (K × V)) {v : V} → get j (remove k m) ≡ some v → get j m ≡ some v
  get-of_remove k j m h = ground (arith, get-remove k j m)

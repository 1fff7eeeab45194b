-- ===== src/Base/Sort.antt =====
-- Rust's order on `str`, and a sort by it. Texts that are equal cannot be told apart, so an unstable
-- sort has one result.
use Prim.Native.Char.{code}
use Prim.Native.String.{String}
use mathlib.Core.Bool.{Bool, true, false}
use mathlib.Core.List.{List, [], ◌∷◌, Perm}
use mathlib.Core.List.Perm
use mathlib.Core.Logic.{inl, inr}
use mathlib.Core.Path.{◌≡◌, refl}
use native.Mathlib.Omega.{arith}
use laterite_duckdb.Base.Tests.{ltb, ◌==◌, nat_eq, if◌then◌else◌, Bool-cases}
use laterite_duckdb.Base.Lists.{All, All-map}

-- The order of the code points, which is that of the bytes in UTF-8.
unfoldable pub str_le : String → String → Bool
str_le String.[] t = true
str_le (String.◌∷◌ c s) String.[] = false
str_le (String.◌∷◌ c s) (String.◌∷◌ d t) =
    let rest = str_le s t in if code c == code d then rest else ltb (code c) (code d)

unfoldable pub insert_sorted : String → List String → List String
insert_sorted x [] = x ∷ []
insert_sorted x (y ∷ ys) =
    let rest = insert_sorted x ys in if str_le x y then x ∷ y ∷ ys else y ∷ rest

-- `sort_unstable`
unfoldable pub sort : List String → List String
unfolding str_le insert_sorted
sort [] = []
sort (x ∷ xs) = insert_sorted x (sort xs)

abbrev pub IsSorted : List String → Type 0
IsSorted [] = Unit
IsSorted (x ∷ xs) = All (λ y. str_le x y ≡ true) xs × IsSorted xs

str_le_total : (s t : String) → str_le s t ≡ false → str_le t s ≡ true
unfolding str_le
str_le_total String.[] t h = cc
str_le_total (String.◌∷◌ c s) String.[] h = refl
str_le_total (String.◌∷◌ c s) (String.◌∷◌ d t) h = ground (arith, str_le_total s t)

str_le_trans : (s t u : String) → str_le s t ≡ true → str_le t u ≡ true → str_le s u ≡ true
unfolding str_le
str_le_trans String.[] t u h k = refl
str_le_trans (String.◌∷◌ c s) String.[] u h k = cc
str_le_trans (String.◌∷◌ c s) (String.◌∷◌ d t) String.[] h k = cc
str_le_trans (String.◌∷◌ c s) (String.◌∷◌ d t) (String.◌∷◌ e u) h k =
    ground (arith, str_le_trans s t u)

All-insert_sorted :
    (P : String → Type 0) (x : String) (ys : List String)
    → P x
    → All P ys
    → All P (insert_sorted x ys)
unfolding insert_sorted
All-insert_sorted P x [] p h = (p, tt)
All-insert_sorted P x (y ∷ ys) p (q, h) = elim (Bool-cases (str_le x y)) [
  | inl le ↦ rw le (p, (q, h))
  | inr gt ↦ rw gt (q, All-insert_sorted P x ys p h)
]

insert_sorted-IsSorted :
    (x : String) (ys : List String) → IsSorted ys → IsSorted (insert_sorted x ys)
unfolding insert_sorted
insert_sorted-IsSorted x [] h = (tt, tt)
insert_sorted-IsSorted x (y ∷ ys) (below, h) = elim (Bool-cases (str_le x y)) [
  | inl le ↦ rw le (
    (
      le,
      All-map (λ z. str_le y z ≡ true) (λ z. str_le x z ≡ true) ys (λ z. str_le_trans x y z le)
          below,
    ),
    (below, h),
  )
  | inr gt ↦ rw gt (
    All-insert_sorted (λ z. str_le y z ≡ true) x ys (str_le_total x y gt) below,
    insert_sorted-IsSorted x ys h,
  )
]

insert_sorted-perm : (x : String) (ys : List String) → Perm (insert_sorted x ys) (x ∷ ys)
unfolding insert_sorted
insert_sorted-perm x [] = Perm.refl (x ∷ [])
insert_sorted-perm x (y ∷ ys) = elim (Bool-cases (str_le x y)) [
  | inl le ↦ rw le (Perm.refl (x ∷ y ∷ ys))
  | inr gt ↦ rw gt (Perm.trans (Perm.cons y (insert_sorted-perm x ys)) (Perm.swap x y ys))
]

pub sort-IsSorted : (xs : List String) → IsSorted (sort xs)
unfolding sort
sort-IsSorted [] = tt
sort-IsSorted (x ∷ xs) = insert_sorted-IsSorted x (sort xs) (sort-IsSorted xs)

pub sort-perm : (xs : List String) → Perm (sort xs) xs
unfolding sort
sort-perm [] = Perm.refl []
sort-perm (x ∷ xs) = Perm.trans (insert_sorted-perm x (sort xs)) (Perm.cons x (sort-perm xs))

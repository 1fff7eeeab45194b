-- ===== src/ReadAgs/Pool.antt =====
-- src/read_ags.rs: the names in the pool of `intern`.
use laterite_duckdb.Base.{
  ℕ, ◌+◌, ◌≡◌, refl, ◌∙◌, ap, arith, String, Bool, true, false, List, [], ◌∷◌, ◌==◌, ◌||◌,
  string_eq, if◌then◌else◌,
}
use laterite_duckdb.Engine.{Engine}
use laterite_duckdb.ReadAgs.{is_interned, intern, Binding, plan_from, plan_columns, build_table}
use laterite_duckdb.Typing.{Types}
use text.Mathlib.TextEquality.{eq_iff}

-- No name is there twice.
abbrev pub IsPool : List String → Type 0
IsPool [] = Unit
IsPool (name ∷ pool) = (is_interned name pool ≡ false) × IsPool pool

intern-IsPool : (name : String) (pool : List String) → IsPool pool → IsPool (intern name pool).1
unfolding intern
intern-IsPool name pool h =
    elim (is_interned name pool)
        as (λ b. is_interned name pool ≡ b → IsPool (if b then pool else name ∷ pool)) [
          | true ↦ λ e. h
          | false ↦ λ e. (e, h)
        ]
      refl

is_interned-intern :
    (n name : String) (pool : List String)
    → is_interned n (intern name pool).1 ≡ (n == name || is_interned n pool)
unfolding intern is_interned
is_interned-intern n name pool = ground (arith, eq_iff n name)

or_swap : (a b c : Bool) → (a || (b || c)) ≡ ((b || a) || c)
or_swap true true c = refl
or_swap true false c = refl
or_swap false true c = refl
or_swap false false c = refl

module _ (E : Engine) (T : Types) where
  plan_columns-IsPool :
      (ags : E.AgsGroup) (i : ℕ) (hs pool : List String)
      → IsPool pool
      → IsPool (plan_columns E T (plan_from E T ags i hs) pool).1
  unfolding plan_from plan_columns
  plan_columns-IsPool ags i [] pool h = h
  plan_columns-IsPool ags i (name ∷ hs) pool h =
      plan_columns-IsPool ags (i + 1) hs (intern name pool).1 (intern-IsPool name pool h)

  is_interned-plan_columns :
      (n : String) (ags : E.AgsGroup) (i : ℕ) (hs pool : List String)
      → is_interned n (plan_columns E T (plan_from E T ags i hs) pool).1
        ≡ (is_interned n hs || is_interned n pool)
  unfolding plan_from plan_columns is_interned
  is_interned-plan_columns n ags i [] pool = refl
  is_interned-plan_columns n ags i (name ∷ hs) pool =
      is_interned-plan_columns n ags (i + 1) hs (intern name pool).1
      ∙ ap (λ b. is_interned n hs || b) (is_interned-intern n name pool)
      ∙ or_swap (is_interned n hs) (n == name) (is_interned n pool)

  -- From a pool in which no name is twice, `build_table` leaves one in which no name is twice
  -- either, and which holds exactly the names it held and the headings of the group.
  pub build_table-IsPool :
      (ags : E.AgsGroup) (group : String) (binding : Binding E) (pool : List String)
      → IsPool pool
      → IsPool (build_table E T ags group binding pool).1
        × ((n : String)
            → is_interned n (build_table E T ags group binding pool).1
              ≡ (is_interned n (E.headings ags) || is_interned n pool))
  unfolding build_table
  build_table-IsPool ags group binding pool h = (
    plan_columns-IsPool ags 0 (E.headings ags) pool h,
    λ n. is_interned-plan_columns n ags 0 (E.headings ags) pool,
  )

-- ===== src/Base/Attempt.antt =====
-- Code in a function that returns `Option`: `?` on an `Option`, and `.ok()?` on a `Result`. A panic
-- unwinds through it.
use laterite_duckdb.Base.Outcome.{Result, ok, err, panic}
use laterite_duckdb.Base.Io.{Io}
use mathlib.Core.Option.{Option, none, some}
use mathlib.Core.Path.{◌≡◌, refl, ap}

abbrev pub Attempt : Type 0 → Type 0 → Type 0
Attempt W A = W → Result (Option A) × W

abbrev pub forget_error : {A : Type 0} → Result A → Result (Option A)
forget_error (ok a) = ok (some a)
forget_error (err e) = ok none
forget_error panic = panic

module _ {W : Type 0} where
  abbrev pub give : {A : Type 0} → A → Attempt W A
  give a w = (ok (some a), w)

  abbrev pub give_up : {A : Type 0} → Attempt W A
  give_up w = (ok none, w)

  abbrev pub of_option : {A : Type 0} → Option A → Attempt W A
  of_option o w = (ok o, w)

  abbrev pub ok_of : {A : Type 0} → Io W A → Attempt W A
  ok_of m w = let (r, w') = m w in (forget_error r, w')

  abbrev pub go_on : {A B : Type 0} → Result (Option A) → (A → Attempt W B) → Attempt W B
  go_on (ok none) f w = (ok none, w)
  go_on (ok (some a)) f w = f a w
  go_on (err e) f w = (err e, w)
  go_on panic f w = (panic, w)

  infixl 5 ◌>>=◌
  abbrev pub ◌>>=◌ : {A B : Type 0} → Attempt W A → (A → Attempt W B) → Attempt W B
  ◌>>=◌ m f w = let (r, w') = m w in go_on r f w'

  go_on-some :
      {A B : Type 0} (r : Result (Option A)) (f : A → Attempt W B) (w : W) {b : B}
      → (go_on r f w).0 ≡ ok (some b)
      → (a : A) × (r ≡ ok (some a)) × ((f a w).0 ≡ ok (some b))
  go_on-some (ok none) f w h = cc
  go_on-some (ok (some a)) f w h = (a, refl, h)
  go_on-some (err e) f w h = cc
  go_on-some panic f w h = cc

  -- A chain that gives a value went through each of its steps.
  pub >>=-some :
      {A B : Type 0} (m : Attempt W A) (f : A → Attempt W B) (w : W) {b : B}
      → ((m >>= f) w).0 ≡ ok (some b)
      → (a : A) × ((m w).0 ≡ ok (some a)) × ((f a (m w).1).0 ≡ ok (some b))
  >>=-some m f w h = go_on-some (m w).0 f (m w).1 h

  -- A step that gives a value hands over to the next.
  pub >>=-give :
      {A B : Type 0} (m : Attempt W A) (f : A → Attempt W B) (w : W) (a : A)
      → (m w).0 ≡ ok (some a)
      → (m >>= f) w ≡ f a (m w).1
  >>=-give m f w a h = ap (λ r. go_on r f (m w).1) h

-- ===== src/Base/Io.antt =====
-- Fallible code that acts on a world. What was done before an error stays done.
use laterite_duckdb.Base.Outcome.{Result, ok, err, panic}
use Prim.Native.String.{String}
use mathlib.Core.Path.{◌≡◌, refl, ap}

abbrev pub Io : Type 0 → Type 0 → Type 0
Io W A = W → Result A × W

module _ {W : Type 0} where
  abbrev pub pure : {A : Type 0} → A → Io W A
  pure a w = (ok a, w)

  abbrev pub lift : {A : Type 0} → Result A → Io W A
  lift r w = (r, w)

  abbrev pub continue : {A B : Type 0} → Result A → (A → Io W B) → Io W B
  continue (ok a) f w = f a w
  continue (err e) f w = (err e, w)
  continue panic f w = (panic, w)

  infixl 5 ◌>>=◌
  abbrev pub ◌>>=◌ : {A B : Type 0} → Io W A → (A → Io W B) → Io W B
  ◌>>=◌ m f w = let (r, w') = m w in continue r f w'

  infixl 5 ◌>>◌
  abbrev pub ◌>>◌ : {A B : Type 0} → Io W A → Io W B → Io W B
  m >> n = m >>= λ _. n

  -- What is done when a value goes out of scope, whatever the outcome, an unwinding panic included.
  abbrev pub finally : {A : Type 0} → (W → W) → Io W A → Io W A
  finally drop m w = let (r, w') = m w in (r, drop w')

  continue-ok :
      {A B : Type 0} (r : Result A) (f : A → Io W B) (w : W) {b : B}
      → (continue r f w).0 ≡ ok b
      → (a : A) × (r ≡ ok a) × ((f a w).0 ≡ ok b)
  continue-ok (ok a) f w h = (a, refl, h)
  continue-ok (err e) f w h = cc
  continue-ok panic f w h = cc

  -- A chain that succeeds went through each of its steps.
  pub >>=-ok :
      {A B : Type 0} (m : Io W A) (f : A → Io W B) (w : W) {b : B}
      → ((m >>= f) w).0 ≡ ok b
      → (a : A) × ((m w).0 ≡ ok a) × ((f a (m w).1).0 ≡ ok b)
  >>=-ok m f w h = continue-ok (m w).0 f (m w).1 h

  -- A step that succeeds hands over to the next.
  pub >>=-give :
      {A B : Type 0} (m : Io W A) (f : A → Io W B) (w : W) (a : A)
      → (m w).0 ≡ ok a
      → (m >>= f) w ≡ f a (m w).1
  >>=-give m f w a h = ap (λ r. continue r f (m w).1) h

  pub >>=-err :
      {A B : Type 0} (m : Io W A) (f : A → Io W B) (w : W) (e : String)
      → (m w).0 ≡ err e
      → (m >>= f) w ≡ (err e, (m w).1)
  >>=-err m f w e h = ap (λ r. continue r f (m w).1) h

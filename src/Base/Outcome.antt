-- ===== src/Base/Outcome.antt =====
-- Rust's `Result<_, String>`, with a panic as a third outcome, and `Option` chains.
use Prim.Native.String.{String}
use mathlib.Core.Option.{Option, none, some}
use laterite_duckdb.Base.Tests.{if◌then◌else◌}
use mathlib.Core.Bool.{Bool, true, false}
use mathlib.Core.Path.{◌≡◌, refl}

pub data Result {ℓ} (A : Type ℓ) : Type ℓ where
  ok : A → Result A
  err : String → Result A
  panic : Result A

infixl 5 ◌>>=◌
abbrev pub ◌>>=◌ {ℓ κ} : {A : Type ℓ} {B : Type κ} → Result A → (A → Result B) → Result B
ok a >>= f = f a
err e >>= f = err e
panic >>= f = panic

module _ {ℓ} {A : Type ℓ} where
  -- `ok_or_else`
  abbrev pub ok_or : Option A → String → Result A
  ok_or none e = err e
  ok_or (some a) e = ok a

  -- `expect`, on an `Option` or past `.ok()`
  abbrev pub expect : Option A → Result A
  expect none = panic
  expect (some a) = ok a

  -- `.ok()`. A panic unwinds through it, which callers write out where it matters.
  abbrev pub to_option : Result A → Option A
  to_option (ok a) = some a
  to_option _ = none

module _ {A : Type 0} where
  -- A chain that succeeds went through its first step.
  pub and_then-ok :
      {B : Type 0} (first : Result A) (next : A → Result B) {y : B}
      → (first >>= next) ≡ ok y
      → (x : A) × (first ≡ ok x) × (next x ≡ ok y)
  and_then-ok panic next e = cc
  and_then-ok (ok x) next e = (x, refl, e)
  and_then-ok (err message) next e = cc

  pub expect-ok : (o : Option A) (a : A) → expect o ≡ ok a → o ≡ some a
  expect-ok none a h = cc
  expect-ok (some b) a h = cc

  pub ok-inj : {a b : A} → ok a ≡ ok b → a ≡ b
  ok-inj h = cc

  -- A test that gives an error was passed.
  pub guard-ok :
      (b : Bool) (e : String) (a c : A) → (if b then err e else ok a) ≡ ok c → (b ≡ false) × (a ≡ c)
  guard-ok true e a c h = cc
  guard-ok false e a c h = (refl, ok-inj h)

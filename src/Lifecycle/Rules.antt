-- ===== src/Lifecycle/Rules.antt =====
-- Fallible code that acts on a world in which an account is kept.
use laterite_duckdb.Base.{
  ◌≡◌, Bool, true, false, Option, none, some, if◌then◌else◌, Result, ok, err, panic,
}
use laterite_duckdb.Base.Attempt
use laterite_duckdb.Base.Attempt.{Attempt, go_on, ok_of, forget_error}
use laterite_duckdb.Base.Io
use laterite_duckdb.Base.Io.{Io, continue}
use laterite_duckdb.Lifecycle.{Held}

-- Code that holds the same at its end as at its start.
pub record Stays {W X : Type 0} (held : W → Held) (a : Held) (m : W → X × W) : Type 0 where
  pub run : (w : W) → held w ≡ a → held (m w).1 ≡ a

module _ {W : Type 0} (held : W → Held) (a : Held) where
  pub Stays-still : {X : Type 0} (f : W → X) → Stays held a (λ w. (f w, w))
  Stays-still f = record { run = λ w h. h }

  continue-Stays :
      {A B : Type 0} (r : Result A) (f : A → Io W B) (w : W)
      → ((x : A) → Stays held a (f x))
      → held w ≡ a
      → held (continue r f w).1 ≡ a
  continue-Stays (ok x) f w k h = (k x).run w h
  continue-Stays (err e) f w k h = h
  continue-Stays panic f w k h = h

  pub Stays-bind :
      {A B : Type 0} (m : Io W A) {f : A → Io W B}
      → Stays held a m
      → ((x : A) → Stays held a (f x))
      → Stays held a (Io.◌>>=◌ m f)
  Stays-bind m {f} km kf = record { run = λ w h. continue-Stays (m w).0 f (m w).1 kf (km.run w h) }

  go_on-Stays :
      {A B : Type 0} (r : Result (Option A)) (f : A → Attempt W B) (w : W)
      → ((x : A) → Stays held a (f x))
      → held w ≡ a
      → held (go_on r f w).1 ≡ a
  go_on-Stays (ok (some x)) f w k h = (k x).run w h
  go_on-Stays (ok none) f w k h = h
  go_on-Stays (err e) f w k h = h
  go_on-Stays panic f w k h = h

  pub Stays-attempt :
      {A B : Type 0} (m : Attempt W A) {f : A → Attempt W B}
      → Stays held a m
      → ((x : A) → Stays held a (f x))
      → Stays held a (Attempt.◌>>=◌ m f)
  Stays-attempt m {f} km kf = record { run = λ w h. go_on-Stays (m w).0 f (m w).1 kf (km.run w h) }

  pub Stays-ok_of : {A : Type 0} (m : Io W A) → Stays held a m → Stays held a (ok_of m)
  Stays-ok_of m k = record { run = λ w h. k.run w h }

  -- Both branches of a test.
  pub branches :
      {X : Type 0} (b : Bool) (p q : X × W)
      → held p.1 ≡ a
      → held q.1 ≡ a
      → held (if b then p else q).1 ≡ a
  branches true p q h k = h
  branches false p q h k = k

  pub Stays-if :
      {X : Type 0} (b : Bool) (m n : W → X × W)
      → Stays held a m
      → Stays held a n
      → Stays held a (if b then m else n)
  Stays-if true m n km kn = km
  Stays-if false m n km kn = kn

-- Code that takes an account from one value to another.
pub record Moves {W X : Type 0} (held : W → Held) (a b : Held) (m : W → X × W) : Type 0 where
  pub run : (w : W) → held w ≡ a → held (m w).1 ≡ b

abbrev pub if_ok : {X : Type 0} → Held → Held → Result X → Held
if_ok b a (ok x) = b
if_ok b a (err e) = a
if_ok b a panic = a

-- Code that does so only when it succeeds.
pub record Acquires {W X : Type 0} (held : W → Held) (a b : Held) (m : Io W X) : Type 0 where
  pub run : (w : W) → held w ≡ a → held (m w).1 ≡ if_ok b a (m w).0

module _ {W : Type 0} (held : W → Held) (a b : Held) where
  continue-Stays-acquired :
      {A B : Type 0} (r : Result A) (f : A → Io W B) (w : W)
      → ((x : A) → Moves held b a (f x))
      → held w ≡ if_ok b a r
      → held (continue r f w).1 ≡ a
  continue-Stays-acquired (ok x) f w k h = (k x).run w h
  continue-Stays-acquired (err e) f w k h = h
  continue-Stays-acquired panic f w k h = h

  -- What was acquired is given back at the end of the scope.
  pub Stays-scope :
      {A B : Type 0} (m : Io W A) {f : A → Io W B}
      → Acquires held a b m
      → ((x : A) → Moves held b a (f x))
      → Stays held a (Io.◌>>=◌ m f)
  Stays-scope m {f} km kf = record {
    run = λ w h. continue-Stays-acquired (m w).0 f (m w).1 kf (km.run w h);
  }

  go_on-Stays-acquired :
      {A B : Type 0} (r : Result A) (f : A → Attempt W B) (w : W)
      → ((x : A) → Moves held b a (f x))
      → held w ≡ if_ok b a r
      → held (go_on (forget_error r) f w).1 ≡ a
  go_on-Stays-acquired (ok x) f w k h = (k x).run w h
  go_on-Stays-acquired (err e) f w k h = h
  go_on-Stays-acquired panic f w k h = h

  pub Stays-attempt_scope :
      {A B : Type 0} (m : Io W A) {f : A → Attempt W B}
      → Acquires held a b m
      → ((x : A) → Moves held b a (f x))
      → Stays held a (Attempt.◌>>=◌ (ok_of m) f)
  Stays-attempt_scope m {f} km kf = record {
    run = λ w h. go_on-Stays-acquired (m w).0 f (m w).1 kf (km.run w h);
  }

-- ===== src/Common/Results.antt =====
-- Go's `(value, error)` results: a value or an error, never both.
use mathlib.Core.Path.{◌≡◌, refl, subst}
use mathlib.Core.Bool.{Bool, true, false}
use miniscram.Common.Tests.{if◌then◌else◌}
use mathlib.Core.Option.{Option, none, some}
use mathlib.Core.Logic.{◌⊎◌, inl, inr}

pub data Result (E A : Type 0) : Type 0 where
  err : E → Result E A
  ok : A → Result E A

-- A read that fails becomes the caller's error.
abbrev pub or_err : {E A : Type 0} → Option A → E → Result E A
or_err (some a) e = ok a
or_err none e = err e

-- `if bad { return err }`, where the Boolean is the negation of `bad`.
abbrev pub guard : {E : Type 0} → Bool → E → Result E (Unit {0})
guard false reason = err reason
guard true reason = ok tt

-- The first error ends a chain of steps.
infixl 5 ◌>>=◌
abbrev pub ◌>>=◌ : {E A B : Type 0} → Result E A → (A → Result E B) → Result E B
err reason >>= next = err reason
ok value >>= next = next value

pub Result-cases :
    {E A : Type 0} (r : Result E A) → ((a : A) × (r ≡ ok a)) ⊎ ((e : E) × (r ≡ err e))
Result-cases (ok a) = inl (a, refl)
Result-cases (err e) = inr (e, refl)

-- What a chain that succeeds says of its parts.
pub or_err-eq-ok : {E A : Type 0} (o : Option A) (e : E) {a : A} → or_err o e ≡ ok a → o ≡ some a
or_err-eq-ok none e h = cc
or_err-eq-ok (some b) e h = cc

pub >>=-eq-ok :
    {E A B : Type 0} (first : Result E A) (next : A → Result E B) {end : B}
    → (first >>= next) ≡ ok end
    → (value : A) × (first ≡ ok value) × (next value ≡ ok end)
>>=-eq-ok (err reason) next done = cc
>>=-eq-ok (ok value) next done = (value, refl, done)

pub guard-eq-ok : {E : Type 0} (b : Bool) (e : E) {u : Unit {0}} → guard b e ≡ ok u → b ≡ true
guard-eq-ok false e h = cc
guard-eq-ok true e h = refl

pub ok-injective : {E A : Type 0} {a b : A} → ◌≡◌ {A = Result E A} (ok a) (ok b) → a ≡ b
ok-injective h = cc

-- What holds of the value when there is one.
abbrev pub Ensures : {E A : Type 0} → (A → Type 0) → Result E A → Type 0
Ensures P (err e) = Unit
Ensures P (ok a) = P a

pub Ensures->>= :
    {E A B : Type 0} (P : A → Type 0) (Q : B → Type 0) (r : Result E A) (next : A → Result E B)
    → Ensures P r
    → ((a : A) → P a → Ensures Q (next a))
    → Ensures Q (r >>= next)
Ensures->>= P Q (err e) next h k = tt
Ensures->>= P Q (ok a) next h k = k a h

pub Ensures-if :
    {E A : Type 0} (P : A → Type 0) (b : Bool) (x y : Result E A)
    → (b ≡ true → Ensures P x)
    → (b ≡ false → Ensures P y)
    → Ensures P (if b then x else y)
Ensures-if P true x y h k = h refl
Ensures-if P false x y h k = k refl

pub Ensures-guard :
    {E B : Type 0} (Q : B → Type 0) (b : Bool) (e : E) (next : Unit {0} → Result E B)
    → (b ≡ true → Ensures Q (next tt))
    → Ensures Q (guard b e >>= next)
Ensures-guard Q true e next h = h refl
Ensures-guard Q false e next h = tt

pub Ensures-or_err :
    {E A B : Type 0} (Q : B → Type 0) (o : Option A) (e : E) (next : A → Result E B)
    → ((a : A) → o ≡ some a → Ensures Q (next a))
    → Ensures Q (or_err o e >>= next)
Ensures-or_err Q none e next h = tt
Ensures-or_err Q (some a) e next h = h a refl

pub Ensures-ok :
    {E A : Type 0} (P : A → Type 0) (r : Result E A) {a : A} → Ensures P r → r ≡ ok a → P a
Ensures-ok P (ok b) h e = subst P (ok-injective e) h
Ensures-ok P (err e') h e = cc

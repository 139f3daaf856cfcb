-- ===== src/Prelude/Outcome.antt =====
-- The outcome of code that may raise: a value, or the exception.
use mathlib.Core.Path.{◌≡◌, refl, subst}
use mathlib.Core.Logic.{◌⊎◌, inl, inr}
use native.Mathlib.Omega.{arith}

pub data Result {ℓ} (E A : Type ℓ) : Type ℓ where
  ok : A → Result E A
  err : E → Result E A

infixl 5 ◌>>=◌ ◌>>◌
abbrev pub ◌>>=◌ {ℓ} : {E A B : Type ℓ} → Result E A → (A → Result E B) → Result E B
ok a >>= f = f a
err e >>= f = err e

abbrev pub ◌>>◌ : {E B : Type 0} → Result E (Unit {0}) → Result E B → Result E B
m >> k = m >>= λ _. k

pub Result-cases {ℓ} :
    {E A : Type ℓ} (r : Result E A) → ((a : A) × (r ≡ ok a)) ⊎ ((e : E) × (r ≡ err e))
Result-cases (ok a) = inl (a, refl)
Result-cases (err e) = inr (e, refl)

module _ {E : Type 0} where
  -- A predicate of the value that comes back, where one does.
  abbrev pub Gives : {A : Type 0} → (A → Type 0) → Result E A → Type 0
  Gives P (ok a) = P a
  Gives P (err e) = Unit

  pub Gives-bind :
      {A B : Type 0} (P : B → Type 0) (m : Result E A) (f : A → Result E B)
      → ((a : A) → m ≡ ok a → Gives P (f a))
      → Gives P (m >>= f)
  Gives-bind P (ok a) f h = h a refl
  Gives-bind P (err e) f h = tt

  -- What the first call gives is known of what the second one starts from.
  pub Gives-then :
      {A B : Type 0} (P : A → Type 0) (Q : B → Type 0) (m : Result E A) (f : A → Result E B)
      → Gives P m
      → ((a : A) → P a → Gives Q (f a))
      → Gives Q (m >>= f)
  Gives-then P Q (ok a) f h g = g a h
  Gives-then P Q (err e) f h g = tt

  pub Gives-implied :
      {A : Type 0} {P Q : A → Type 0} (m : Result E A)
      → Gives P m
      → ((a : A) → P a → Q a)
      → Gives Q m
  Gives-implied (ok a) h f = f a h
  Gives-implied (err e) h f = tt

  abbrev as_ok : {A : Type 0} → A → Result E A
  as_ok a = ok a

  ok_injective : {A : Type 0} (b a : A) → as_ok b ≡ as_ok a → b ≡ a
  ok_injective b a e = ground (arith, e)

  err_not_ok : {A : Type 0} (x : E) (a : A) → err x ≡ as_ok a → ⊥
  err_not_ok x a e = absurd (ground (arith, e))

  pub Gives-result :
      {A : Type 0} (P : A → Type 0) (m : Result E A) (a : A) → Gives P m → m ≡ ok a → P a
  Gives-result P (ok b) a h e = subst P (ok_injective b a e) h
  Gives-result P (err x) a h e = absurd (err_not_ok x a e)

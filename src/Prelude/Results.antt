-- ===== src/Prelude/Results.antt =====
-- Go's `(value, error)`: a value, or an error that stands for the message.
use mathlib.Core.Bool.{Bool, true, false}
use mathlib.Core.Path.{◌≡◌, refl}
use mathlib.Core.Logic.{◌⊎◌, inl, inr}

pub data Result {ℓ} (E A : Type ℓ) : Type ℓ where
  ok : A → Result E A
  err : E → Result E A

infixl 5 ◌>>=◌
abbrev pub ◌>>=◌ {ℓ} : {E A B : Type ℓ} → Result E A → (A → Result E B) → Result E B
ok a >>= f = f a
err e >>= f = err e

pub Result-cases {ℓ} :
    {E A : Type ℓ} (r : Result E A) → ((a : A) × (r ≡ ok a)) ⊎ ((e : E) × (r ≡ err e))
Result-cases (ok a) = inl (a, refl)
Result-cases (err e) = inr (e, refl)

-- A property of what a choice by a test gives, from that of each branch.
pub by_answer {ℓ ℓ'} :
    {E : Type 0} {R : Type ℓ} (P : R → Type ℓ') {x y : R} {g : E → R}
    → P x
    → P y
    → ((e : E) → P (g e))
    → (r : Result E Bool) → P (elim r [ ok true ↦ x | ok false ↦ y | err e ↦ g e ])
by_answer P p q all (ok true) = p
by_answer P p q all (ok false) = q
by_answer P p q all (err e) = all e

pub by_result {ℓ ℓ'} :
    {E A : Type 0} {R : Type ℓ} (P : R → Type ℓ') {f : A → R} {g : E → R}
    → ((e : E) → P (g e))
    → ((a : A) → P (f a))
    → (r : Result E A) → P (elim r [ ok a ↦ f a | err e ↦ g e ])
by_result P one all (ok a) = all a
by_result P one all (err e) = one e

pub Sum-cases : {A B : Type 0} (s : A ⊎ B) → ((a : A) × (s ≡ inl a)) ⊎ ((b : B) × (s ≡ inr b))
Sum-cases (inl a) = inl (a, refl)
Sum-cases (inr b) = inr (b, refl)

-- ===== src/Prelude/Tests.antt =====
-- Boolean tests on the native numbers, and the conditional.
use Prim.Native.Nat.{ℕ, compare, Ordering}
use mathlib.Core.Path.{◌≡◌, refl}
use mathlib.Core.Logic.{◌↔◌, ◌⊎◌, inl, inr}
use mathlib.Core.Bool.{Bool, true, false}
use mathlib.Core.Option.{Option, none, some}
use native.Mathlib.Omega.{arith}

abbrev pub ltb : ℕ → ℕ → Bool
ltb a b = elim (compare a b) [ Ordering.lt ↦ true | _ ↦ false ]

abbrev pub leb : ℕ → ℕ → Bool
leb a b = elim (compare a b) [ Ordering.gt ↦ false | _ ↦ true ]

abbrev pub nat_beq : ℕ → ℕ → Bool
nat_beq a b = elim (compare a b) [ Ordering.eq ↦ true | _ ↦ false ]

infix 1 if◌then◌else◌
abbrev pub if◌then◌else◌ {ℓ} : {A : Type ℓ} → Bool → A → A → A
if true then x else y = x
if false then x else y = y

pub nat_beq_iff : (a b : ℕ) → (nat_beq a b ≡ true) ↔ (a ≡ b)
nat_beq_iff a b = ground arith

pub Bool-cases : (b : Bool) → (b ≡ true) ⊎ (b ≡ false)
Bool-cases true = inl refl
Bool-cases false = inr refl

pub Option-cases {ℓ} : {A : Type ℓ} (o : Option A) → (o ≡ none) ⊎ ((a : A) × (o ≡ some a))
Option-cases none = inl refl
Option-cases (some a) = inr (a, refl)

-- A property of what a choice gives, from that of each branch.
module _ {ℓ ℓ'} {R : Type ℓ} (P : R → Type ℓ') where
  pub by_option :
      {X : Type ℓ} {f : X → R} {r : R}
      → ((x : X) → P (f x))
      → P r
      → (o : Option X) → P (elim o [ some x ↦ f x | none ↦ r ])
  by_option all one none = one
  by_option all one (some x) = all x

  pub by_if : {x y : R} → P x → P y → (b : Bool) → P (if b then x else y)
  by_if p q true = p
  by_if p q false = q

  -- Each branch with the outcome of the test.
  pub by_test : {x y : R} (b : Bool) → (b ≡ true → P x) → (b ≡ false → P y) → P (if b then x else y)
  by_test true p q = p refl
  by_test false p q = q refl

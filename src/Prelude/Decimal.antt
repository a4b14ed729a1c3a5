-- ===== src/Prelude/Decimal.antt =====
-- strconv.Itoa: an integer in decimal digits. The fuel is one more than the number.
use v2b_z.Prelude.{◌≢◌}
use v2b_z.Prelude.{
  ℕ, zero, suc, ◌+◌, ◌-◌, ◌*◌, ◌/◌, ◌%◌, ◌≤◌, ◌<◌, ◌≡◌, refl, ap, [], ◌∷◌, ◌++◌, arith, ltb,
  if◌then◌else◌, Bool-cases, inl, inr,
}
use v2b_z.Prelude.Int.{ℤ, pos, negsuc}
use v2b_z.Prelude.Text.{Text, text}

unfoldable pub digits_fuel : ℕ → ℕ → Text
digits_fuel zero n = []
digits_fuel (suc f) n =
    let rest = digits_fuel f (n / 10) in
    if ltb n 10 then (b'0' + n) ∷ [] else rest ++ (b'0' + n % 10) ∷ []

unfoldable pub itoa : ℤ → Text
unfolding digits_fuel
itoa (pos n) = digits_fuel (suc n) n
itoa (negsuc n) = b'-' ∷ digits_fuel (suc (suc n)) (suc n)

-- The number that a row of digits stands for.
value_from : ℕ → Text → ℕ
value_from acc [] = acc
value_from acc (c ∷ s) = value_from (acc * 10 + (c - b'0')) s

value_from-append :
    (acc : ℕ) (s : Text) (c : ℕ) → value_from acc (s ++ c ∷ []) ≡ value_from acc s * 10 + (c - b'0')
unfolding value_from
value_from-append acc [] c = refl
value_from-append acc (d ∷ s) c = value_from-append (acc * 10 + (d - b'0')) s c

value-digits_fuel : (f n : ℕ) → n < f → value_from 0 (digits_fuel f n) ≡ n
unfolding digits_fuel value_from
value-digits_fuel zero n h = absurd (omega arith)
value-digits_fuel (suc f) n h = elim (Bool-cases (ltb n 10)) [
  | inl e ↦ rw e (omega arith)
  | inr e ↦
      let big : 10 ≤ n = ground (arith, e) in
      rw e (
        omega (
          arith,
          big,
          value_from-append 0 (digits_fuel f (n / 10)) (b'0' + n % 10),
          value-digits_fuel f (n / 10) (omega arith),
        ))
]

-- Digits are no sign.
first : Text → ℕ
first [] = 0
first (c ∷ s) = c

first-append : (s t : Text) → first s ≢ 0 → first (s ++ t) ≡ first s
unfolding first
first-append [] t h = absurd (h refl)
first-append (c ∷ s) t h = refl

first-digits_fuel : (f n : ℕ) → n < f → b'0' ≤ first (digits_fuel f n)
unfolding digits_fuel first
first-digits_fuel zero n h = absurd (omega arith)
first-digits_fuel (suc f) n h = elim (Bool-cases (ltb n 10)) [
  | inl e ↦ rw e (omega arith)
  | inr e ↦
      let big : 10 ≤ n = ground (arith, e) in
      let ih = first-digits_fuel f (n / 10) (omega arith) in
      rw e (
        omega (
          arith,
          ih,
          first-append (digits_fuel f (n / 10)) ((b'0' + n % 10) ∷ [])
              (λ z. absurd (omega (arith, z, ih))),
        ))
]

pub itoa_injective : (a b : ℤ) → itoa a ≡ itoa b → a ≡ b
unfolding itoa value_from first
itoa_injective (pos m) (pos n) h = ap pos (
    omega (
      arith,
      ap (value_from 0) h,
      value-digits_fuel (suc m) m (omega arith),
      value-digits_fuel (suc n) n (omega arith),
    ))
itoa_injective (negsuc m) (negsuc n) h =
    let e : digits_fuel (suc (suc m)) (suc m) ≡ digits_fuel (suc (suc n)) (suc n) = cc in
    ap negsuc (
      omega (
        arith,
        ap (value_from 0) e,
        value-digits_fuel (suc (suc m)) (suc m) (omega arith),
        value-digits_fuel (suc (suc n)) (suc n) (omega arith),
      ))
itoa_injective (pos m) (negsuc n) h =
    absurd (omega (arith, ap first h, first-digits_fuel (suc m) m (omega arith)))
itoa_injective (negsuc m) (pos n) h =
    absurd (omega (arith, ap first h, first-digits_fuel (suc n) n (omega arith)))

test_itoa : itoa (negsuc 1204) ≡ text "-1205"
unfolding itoa
test_itoa = refl

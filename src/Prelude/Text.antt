-- ===== src/Prelude/Text.antt =====
-- A Go string as the list of its bytes.
use Prim.Native.Char.{code}
use Prim.Native.String.{String}
use v2b_z.Prelude.{
  ℕ, ◌≡◌, refl, ◌↔◌, Bool, true, false, List, [], ◌∷◌, ◌++◌, arith, nat_beq, Comparable,
  if◌then◌else◌,
}

abbrev pub Text : Type 0
Text = List ℕ

-- The bytes of an ASCII literal.
abbrev pub text : String → Text
text String.[] = []
text (String.◌∷◌ c s) = code c ∷ text s

unfoldable pub text_beq : Text → Text → Bool
text_beq [] [] = true
text_beq (a ∷ s) (b ∷ t) = let rest = text_beq s t in if nat_beq a b then rest else false
text_beq _ _ = false

pub text_beq_iff : (s t : Text) → (text_beq s t ≡ true) ↔ (s ≡ t)
unfolding text_beq
text_beq_iff [] [] = ground arith
text_beq_iff [] (b ∷ t) = ground arith
text_beq_iff (a ∷ s) [] = ground arith
text_beq_iff (a ∷ s) (b ∷ t) = ground (arith, text_beq_iff s t)

instance abbrev pub text_eq : Comparable Text
text_eq = record { eqb = text_beq; eqb_iff = text_beq_iff }

-- The first n bytes.
abbrev pub take : ℕ → Text → Text
take n [] = []
take ℕ.zero (c ∷ s) = []
take (ℕ.suc n) (c ∷ s) = c ∷ take n s

-- strings.HasPrefix and strings.TrimPrefix.
unfoldable pub has_prefix : Text → Text → Bool
has_prefix s [] = true
has_prefix [] (p ∷ ps) = false
has_prefix (c ∷ s) (p ∷ ps) = let rest = has_prefix s ps in if nat_beq c p then rest else false

unfoldable pub drop_length : Text → Text → Text
drop_length s [] = s
drop_length [] (p ∷ ps) = []
drop_length (c ∷ s) (p ∷ ps) = drop_length s ps

unfoldable pub trim_prefix : Text → Text → Text
unfolding has_prefix drop_length
trim_prefix s p = if has_prefix s p then drop_length s p else s

-- The pieces between the bytes that a test accepts: strings.Split at a single byte.
unfoldable pub split_by : (ℕ → Bool) → Text → List Text
split_by p [] = [] ∷ []
split_by p (c ∷ s) = elim (split_by p s) [
  | [] ↦ []
  | t ∷ ts ↦ if p c then [] ∷ t ∷ ts else (c ∷ t) ∷ ts
]

pub has_prefix-append : (p s : Text) → has_prefix (p ++ s) p ≡ true
unfolding has_prefix
has_prefix-append [] s = refl
has_prefix-append (c ∷ p) s = ground (arith, has_prefix-append p s)

pub drop_length-append : (p s : Text) → drop_length (p ++ s) p ≡ s
unfolding drop_length
drop_length-append [] s = refl
drop_length-append (c ∷ p) s = drop_length-append p s

pub trim_prefix-append : (p s : Text) → trim_prefix (p ++ s) p ≡ s
unfolding trim_prefix
trim_prefix-append p s = rw (has_prefix-append p s) (drop_length-append p s)

test_prefix : trim_prefix (text "::ffff:10.0.0.1") (text "::ffff:") ≡ text "10.0.0.1"
unfolding trim_prefix
test_prefix = refl

-- ===== src/Json5/Total.antt =====
-- common/json5/json5.go: prep ends on every input, and what it leaves.
use v2b_z.Prelude.{
  ℕ, zero, suc, ◌+◌, ◌<◌, ◌≡◌, refl, sym, ap, ◌∙◌, inl, inr, false, not, ◌||◌, List, [], ◌∷◌,
  Option, none, some, arith, ltb, nat_beq, length, Bool-cases, Option-cases,
}
use v2b_z.Json5.{
  byte_at, is_ws, consume_comment, string_loop, comma_loop, prep_step, prep_loop, prep,
}
use v2b_z.Json5.Blank.{
  Blanked, Blanked-refl, Blanked-trans, Blanked-set, length-Blanked, Ends, Ends-after, Enough,
  consume_comment-Ends, Advances, string_loop-Advances,
}

-- The loop goes on behind a comment.
comma_after :
    (f g j : ℕ) (s : List ℕ) (i : ℕ) (r : Option (List ℕ × ℕ))
    → Enough (suc f) s i
    → length s < g
    → i + 1 < length s
    → ((t : List ℕ) (k : ℕ) → Enough f t k → length t < g → Ends t (k + 1) (comma_loop f g j t k))
    → Ends s (i + 1 + 1) r
    → Ends s (i + 1) (elim r as (λ _. Option (List ℕ × ℕ)) [
      | none ↦ none
      | some (s', i') ↦ comma_loop f g j s' i'
    ])
comma_after f g j s i none h k lt rec e = e
comma_after f g j s i (some (t, n)) h k lt rec e =
    Ends-after s t (i + 1) (n + 1) (comma_loop f g j t n) e.0 (omega arith) (
      rec t n (omega (arith, length-Blanked s t e.0), omega (arith, length-Blanked s t e.0))
        (omega (arith, length-Blanked s t e.0)))

comma_loop-Ends :
    (f g j : ℕ) (s : List ℕ) (i : ℕ)
    → Enough f s i
    → length s < g
    → Ends s (i + 1) (comma_loop f g j s i)
unfolding comma_loop
comma_loop-Ends zero g j s i h k = absurd (omega arith)
comma_loop-Ends (suc f) g j s i h k = elim (Bool-cases (ltb (i + 1) (length s))) [
  | inr e ↦ rw e (Blanked-refl s, omega arith)
  | inl e ↦
      let lt : i + 1 < length s = ground (arith, e) in
      elim (Bool-cases (nat_beq (byte_at s (i + 1)) b'}' || nat_beq (byte_at s (i + 1)) b']')) [
        | inl c ↦ rw (e, c) (Blanked-set s j, omega arith)
        | inr c ↦ elim (Bool-cases (nat_beq (byte_at s (i + 1)) b'/')) [
          | inl d ↦
              rw (e, c, d)
                (comma_after f g j s i (consume_comment g s (i + 1 + 1)) h k lt
                  (comma_loop-Ends f g j)
                  (consume_comment-Ends g s (i + 1 + 1) (omega arith, omega arith)))
          | inr d ↦ elim (Bool-cases (not (is_ws (byte_at s (i + 1))))) [
            | inl w ↦ rw (e, c, d, w) (Blanked-refl s, omega arith)
            | inr w ↦
                rw (e, c, d, w)
                  (Ends-after s s (i + 1) (i + 1 + 1) (comma_loop f g j s (i + 1)) (Blanked-refl s)
                    (omega arith) (comma_loop-Ends f g j s (i + 1) (omega arith, omega arith) k))
          ]
        ]
      ]
]

string_step :
    (s : List ℕ) (i : ℕ) (r : Option ℕ)
    → Advances i r
    → Ends s i (elim r as (λ _. Option (List ℕ × ℕ)) [ none ↦ none | some i' ↦ some (s, i') ])
string_step s i none h = h
string_step s i (some j) h = (Blanked-refl s, h)

prep_step-Ends : (g : ℕ) (s : List ℕ) (i : ℕ) → length s < g → Ends s (i + 1) (prep_step g s i)
unfolding prep_step
prep_step-Ends g s i h = elim (Bool-cases (nat_beq (byte_at s i) b'"')) [
  | inl e ↦ rw e (
      string_step s (i + 1) (string_loop g s (i + 1))
        (string_loop-Advances g s (i + 1) (omega arith, omega arith)))
  | inr e ↦ elim (Bool-cases (nat_beq (byte_at s i) b'/')) [
    | inl c ↦ rw (e, c) (consume_comment-Ends g s (i + 1) (omega arith, omega arith))
    | inr c ↦ elim (Bool-cases (nat_beq (byte_at s i) b',')) [
      | inl d ↦ rw (e, c, d) (comma_loop-Ends g g i s i (omega arith, omega arith) h)
      | inr d ↦ rw (e, c, d) (Blanked-refl s, omega arith)
    ]
  ]
]

abbrev pub Returns : List ℕ → Option (List ℕ) → Type 0
Returns s none = ⊥
Returns s (some t) = Blanked s t

Returns-after : (s t : List ℕ) (r : Option (List ℕ)) → Blanked s t → Returns t r → Returns s r
Returns-after s t none b h = h
Returns-after s t (some u) b h = Blanked-trans s t u b h

prep_after :
    (f g : ℕ) (s : List ℕ) (i : ℕ) (r : Option (List ℕ × ℕ))
    → Enough (suc f) s i
    → length s < g
    → i < length s
    → ((t : List ℕ) (k : ℕ) → Enough f t k → length t < g → Returns t (prep_loop f g t k))
    → Ends s (i + 1) r
    → Returns s
        (elim r as (λ _. Option (List ℕ)) [ none ↦ none | some (s', i') ↦ prep_loop f g s' i' ])
prep_after f g s i none h k lt rec e = e
prep_after f g s i (some (t, n)) h k lt rec e = Returns-after s t (prep_loop f g t n) e.0 (
    rec t n (omega (arith, length-Blanked s t e.0), omega (arith, length-Blanked s t e.0))
      (omega (arith, length-Blanked s t e.0)))

prep_loop-Returns :
    (f g : ℕ) (s : List ℕ) (i : ℕ) → Enough f s i → length s < g → Returns s (prep_loop f g s i)
unfolding prep_loop
prep_loop-Returns zero g s i h k = absurd (omega arith)
prep_loop-Returns (suc f) g s i h k = elim (Bool-cases (ltb i (length s))) [
  | inr e ↦ rw e (Blanked-refl s)
  | inl e ↦
      let lt : i < length s = ground (arith, e) in
      rw e (
        prep_after f g s i (prep_step g s i) h k lt (prep_loop-Returns f g)
          (prep_step-Ends g s i k))
]

-- prep ends on every input; its result is as long as the input, and each of its bytes is that of
-- the input or a space.
pub prep-Blanked :
    (s : List ℕ) → (t : List ℕ) × (prep s ≡ some t) × (length t ≡ length s) × Blanked s t
unfolding prep
prep-Blanked s =
    result (prep s) refl
      (prep_loop-Returns (length s + 1) (length s + 1) s 0 (omega arith, omega arith) (omega arith))
  where
    result :
        (r : Option (List ℕ))
        → prep s ≡ r
        → Returns s r
        → (t : List ℕ) × (prep s ≡ some t) × (length t ≡ length s) × Blanked s t
    result none e h = absurd h
    result (some t) e h = (t, e, sym (length-Blanked s t h), h)

-- No byte is a slash or a comma.
abbrev pub IsPlain : List ℕ → Type 0
IsPlain [] = Unit
IsPlain (c ∷ s) = (nat_beq c b'/' ≡ false) × (nat_beq c b',' ≡ false) × IsPlain s

byte_at-plain :
    (s : List ℕ) (i : ℕ)
    → IsPlain s
    → (nat_beq (byte_at s i) b'/' ≡ false) × (nat_beq (byte_at s i) b',' ≡ false)
byte_at-plain [] i h = (refl, refl)
byte_at-plain (c ∷ s) zero h = (h.0, h.1)
byte_at-plain (c ∷ s) (suc i) h = byte_at-plain s i h.2

-- A loop keeps the text.
abbrev Keeps : List ℕ → Option (List ℕ) → Type 0
Keeps s none = Unit
Keeps s (some t) = t ≡ s

prep_loop-Keeps : (f g : ℕ) (s : List ℕ) (i : ℕ) → IsPlain s → Keeps s (prep_loop f g s i)
unfolding prep_loop prep_step
prep_loop-Keeps zero g s i h = tt
prep_loop-Keeps (suc f) g s i h =
    let p = byte_at-plain s i h in
    elim (Bool-cases (ltb i (length s))) [
      | inr e ↦ rw e refl
      | inl e ↦ elim (Bool-cases (nat_beq (byte_at s i) b'"')) [
        | inr q ↦ rw (e, q, p.0, p.1) (prep_loop-Keeps f g s (i + 1) h)
        | inl q ↦ elim (Option-cases (string_loop g s (i + 1))) [
          | inl n ↦ rw (e, q, n) tt
          | inr (j, n) ↦ rw (e, q, n) (prep_loop-Keeps f g s j h)
        ]
      ]
    ]

-- A text with no slash and no comma is left as it is.
pub prep-plain : (s : List ℕ) → IsPlain s → prep s ≡ some s
unfolding prep
prep-plain s h =
    let (t, e, _, _) = prep-Blanked s in
    e ∙ ap some (kept e (prep_loop-Keeps (length s + 1) (length s + 1) s 0 h))
  where
    kept : {o : Option (List ℕ)} {t : List ℕ} → o ≡ some t → Keeps s o → t ≡ s
    kept h k = ground arith

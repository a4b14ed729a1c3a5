-- ===== src/Json5/Blank.antt =====
-- common/json5/json5.go: prep ends, and only writes spaces.
use v2b_z.Prelude.{
  ℕ, zero, suc, ◌+◌, ◌-◌, ◌≤◌, ◌<◌, ◌≡◌, refl, ap, ◌⊎◌, inl, inr, not, ◌&&◌, List, [], ◌∷◌, Option,
  none, some, arith, ltb, nat_beq, length, set, length-set, Bool-cases,
}
use v2b_z.Json5.{
  byte_at, is_nl, has_byte, line_loop, block_loop, block_comment, consume_comment, string_loop,
}

-- The second text is the first with some bytes replaced by spaces.
abbrev pub Blanked : List ℕ → List ℕ → Type 0
Blanked [] [] = Unit
Blanked (a ∷ s) (b ∷ t) = ((b ≡ a) ⊎ (b ≡ b' ')) × Blanked s t
Blanked _ _ = ⊥

pub Blanked-refl : (s : List ℕ) → Blanked s s
Blanked-refl [] = tt
Blanked-refl (a ∷ s) = (inl refl, Blanked-refl s)

pub Blanked-trans : (s t u : List ℕ) → Blanked s t → Blanked t u → Blanked s u
Blanked-trans [] [] [] h k = tt
Blanked-trans (a ∷ s) (b ∷ t) (c ∷ u) h k = (ground (arith, h.0, k.0), Blanked-trans s t u h.1 k.1)
Blanked-trans [] (b ∷ t) u h k = absurd h
Blanked-trans (a ∷ s) [] u h k = absurd h
Blanked-trans [] [] (c ∷ u) h k = absurd k
Blanked-trans (a ∷ s) (b ∷ t) [] h k = absurd k

pub Blanked-set : (s : List ℕ) (i : ℕ) → Blanked s (set s i b' ')
Blanked-set [] i = tt
Blanked-set (a ∷ s) zero = (inr refl, Blanked-refl s)
Blanked-set (a ∷ s) (suc i) = (inl refl, Blanked-set s i)

pub length-Blanked : (s t : List ℕ) → Blanked s t → length s ≡ length t
length-Blanked [] [] h = refl
length-Blanked (a ∷ s) (b ∷ t) h = ap suc (length-Blanked s t h.1)
length-Blanked [] (b ∷ t) h = absurd h
length-Blanked (a ∷ s) [] h = absurd h

-- A loop that starts at (s, i) ends, further on, and has only blanked.
abbrev pub Ends : List ℕ → ℕ → Option (List ℕ × ℕ) → Type 0
Ends s i none = ⊥
Ends s i (some (s', i')) = Blanked s s' × (i ≤ i')

pub Ends-after :
    (s t : List ℕ) (i j : ℕ) (r : Option (List ℕ × ℕ))
    → Blanked s t
    → i ≤ j
    → Ends t j r
    → Ends s i r
Ends-after s t i j none b le h = h
Ends-after s t i j (some (u, k)) b le h = (Blanked-trans s t u b h.0, omega arith)

Ends-set :
    (s : List ℕ) (p i j : ℕ) (r : Option (List ℕ × ℕ))
    → i ≤ j
    → Ends (set s p b' ') j r
    → Ends s i r
Ends-set s p i j r le h = Ends-after s (set s p b' ') i j r (Blanked-set s p) le h

-- The fuel is enough from an index on.
abbrev pub Enough : ℕ → List ℕ → ℕ → Type 0
Enough f s i = (0 < f) × (length s < f + i)

line_loop-Ends : (f : ℕ) (s : List ℕ) (i : ℕ) → Enough f s i → Ends s i (line_loop f s i)
unfolding line_loop
line_loop-Ends zero s i h = absurd (omega arith)
line_loop-Ends (suc f) s i h = elim (Bool-cases (ltb i (length s) && not (is_nl (byte_at s i)))) [
  | inl e ↦ rw e (
      Ends-set s i i (i + 1) (line_loop f (set s i b' ') (i + 1)) (omega arith) (
        line_loop-Ends f (set s i b' ') (i + 1) (
          ground (arith, h.0, h.1, length-set s i b' '),
          ground (arith, h.0, h.1, length-set s i b' '),
        )))
  | inr e ↦ rw e (Blanked-refl s, omega arith)
]

Enough-set :
    (f p i j : ℕ) (s : List ℕ)
    → length s < f + i
    → i < length s
    → i < j
    → Enough (suc f) s i
    → Enough f (set s p b' ') j
Enough-set f p i j s h lt le e =
    (omega (arith, length-set s p b' '), omega (arith, length-set s p b' '))

block_loop-Ends : (f : ℕ) (s : List ℕ) (i : ℕ) → Enough f s i → Ends s i (block_loop f s i)
unfolding block_loop
block_loop-Ends zero s i h = absurd (omega arith)
block_loop-Ends (suc f) s i h = elim (Bool-cases (ltb i (length s))) [
  | inr e ↦ rw e (Blanked-refl s, omega arith)
  | inl e ↦
      let t = set s i b' ' in
      let lt : i < length s = ground (arith, e) in
      elim (Bool-cases (nat_beq (byte_at s i) b'*')) [
        | inr n ↦
            rw (e, n)
              (Ends-set s i i (i + 1) (block_loop f t (i + 1)) (omega arith) (
                block_loop-Ends f t (i + 1) (
                  omega (arith, lt, h.0, h.1, length-set s i b' '),
                  omega (arith, lt, h.0, h.1, length-set s i b' '),
                )))
        | inl n ↦ elim (Bool-cases (has_byte t (i + 1) b'/')) [
          | inl y ↦
              rw (e, n, y)
                (
                  Blanked-trans s t (set t (i + 1) b' ') (Blanked-set s i) (Blanked-set t (i + 1)),
                  omega arith,
                )
          | inr y ↦
              rw (e, n, y)
                (Ends-set s i i (i + 1 + 1) (block_loop f t (i + 1 + 1)) (omega arith) (
                  block_loop-Ends f t (i + 1 + 1) (
                    omega (arith, lt, h.0, h.1, length-set s i b' '),
                    omega (arith, lt, h.0, h.1, length-set s i b' '),
                  )))
        ]
      ]
]

pub Enough-Blanked :
    (f : ℕ) (s t : List ℕ) (i j : ℕ) → Blanked s t → i ≤ j → Enough f s i → Enough f t j
Enough-Blanked f s t i j b le h = (h.0, omega (arith, length-Blanked s t b, h.1))

block_comment-Ends : (f : ℕ) (s : List ℕ) (i : ℕ) → Enough f s i → Ends s i (block_comment f s i)
unfolding block_comment
block_comment-Ends f s i h = elim (Bool-cases (has_byte s i b'*')) [
  | inr e ↦ rw e (Blanked-refl s, omega arith)
  | inl e ↦
      let t = set s (i - 1) b' ' in
      let u = set t i b' ' in
      let b = Blanked-trans s t u (Blanked-set s (i - 1)) (Blanked-set t i) in
      rw e (
        Ends-after s u i i (block_loop f u i) b (omega arith)
          (block_loop-Ends f u i (Enough-Blanked f s u i i b (omega arith) h)))
]

line_then_block :
    (f : ℕ) (s : List ℕ) (i : ℕ) (r : Option (List ℕ × ℕ))
    → Enough f s i
    → Ends s i r
    → Ends s i (elim r as (λ _. Option (List ℕ × ℕ)) [
      | none ↦ none
      | some (s', i') ↦ block_comment f s' i'
    ])
line_then_block f s i none h e = e
line_then_block f s i (some (t, j)) h e =
    Ends-after s t i j (block_comment f t j) e.0 e.1
      (block_comment-Ends f t j (Enough-Blanked f s t i j e.0 e.1 h))

pub consume_comment-Ends :
    (f : ℕ) (s : List ℕ) (i : ℕ) → Enough f s i → Ends s i (consume_comment f s i)
unfolding consume_comment
consume_comment-Ends f s i h = elim (Bool-cases (has_byte s i b'/')) [
  | inr e ↦ rw e (block_comment-Ends f s i h)
  | inl e ↦
      let t = set s (i - 1) b' ' in
      let k = Enough-Blanked f s t i i (Blanked-set s (i - 1)) (omega arith) h in
      rw e (
        Ends-set s (i - 1) i i
          (elim (line_loop f t i) as (λ _. Option (List ℕ × ℕ)) [
            | none ↦ none
            | some (s', i') ↦ block_comment f s' i'
          ])
          (omega arith) (line_then_block f t i (line_loop f t i) k (line_loop-Ends f t i k)))
]

abbrev pub Advances : ℕ → Option ℕ → Type 0
Advances i none = ⊥
Advances i (some j) = i ≤ j

Advances-after : (i j : ℕ) (r : Option ℕ) → i ≤ j → Advances j r → Advances i r
Advances-after i j none le h = h
Advances-after i j (some k) le h = omega arith

pub string_loop-Advances :
    (f : ℕ) (s : List ℕ) (i : ℕ) → Enough f s i → Advances i (string_loop f s i)
unfolding string_loop
string_loop-Advances zero s i h = absurd (omega arith)
string_loop-Advances (suc f) s i h = elim (Bool-cases (ltb i (length s))) [
  | inr e ↦ rw e (omega arith)
  | inl e ↦
      let lt : i < length s = ground (arith, e) in
      elim (Bool-cases (nat_beq (byte_at s i) b'"')) [
        | inl q ↦ rw (e, q) (omega arith)
        | inr q ↦ elim (Bool-cases (nat_beq (byte_at s i) 0x5c)) [
          | inl b ↦
              rw (e, q, b)
                (Advances-after i (i + 1 + 1) (string_loop f s (i + 1 + 1)) (omega arith) (
                  string_loop-Advances f s (i + 1 + 1)
                    (omega (arith, lt, h.1), omega (arith, lt, h.1))))
          | inr b ↦
              rw (e, q, b)
                (Advances-after i (i + 1) (string_loop f s (i + 1)) (omega arith) (
                  string_loop-Advances f s (i + 1)
                    (omega (arith, lt, h.1), omega (arith, lt, h.1))))
        ]
      ]
]

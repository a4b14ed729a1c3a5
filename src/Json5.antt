-- ===== src/Json5.antt =====
-- common/json5/json5.go: the bytes of a configuration file without comments and trailing commas. Each
-- loop takes fuel; `none` means that the fuel ran out.
pub mod Blank
pub mod Total
use v2b_z.Prelude.{
  ℕ, zero, suc, ◌+◌, ◌-◌, Bool, true, false, not, ◌&&◌, ◌||◌, List, [], ◌∷◌, Option, none, some,
  ltb, nat_beq, if◌then◌else◌, length, set,
}

-- s[i], read only below the length.
abbrev pub byte_at : List ℕ → ℕ → ℕ
byte_at [] i = 0
byte_at (c ∷ s) zero = c
byte_at (c ∷ s) (suc i) = byte_at s i

unfoldable pub is_nl : ℕ → Bool
is_nl c = nat_beq c 0x0a || nat_beq c 0x0d

unfoldable pub is_ws : ℕ → Bool
unfolding is_nl
is_ws c = nat_beq c b' ' || nat_beq c 0x09 || is_nl c

-- i < len(s) && s[i] == c
abbrev pub has_byte : List ℕ → ℕ → ℕ → Bool
has_byte s i c = ltb i (length s) && nat_beq (byte_at s i) c

unfoldable pub line_loop : ℕ → List ℕ → ℕ → Option (List ℕ × ℕ)
line_loop zero s i = none
line_loop (suc f) s i =
    let rest = line_loop f (set s i b' ') (i + 1) in
    if ltb i (length s) && not (is_nl (byte_at s i)) then rest else some (s, i)

unfoldable pub block_loop : ℕ → List ℕ → ℕ → Option (List ℕ × ℕ)
block_loop zero s i = none
block_loop (suc f) s i =
    let blanked = set s i b' ' in
    let plain = block_loop f blanked (i + 1) in
    let starred = block_loop f blanked (i + 1 + 1) in
    if ltb i (length s)
    then (if not (nat_beq (byte_at s i) b'*')
        then plain
        else if has_byte blanked (i + 1) b'/'
        then some (set blanked (i + 1) b' ', i + 1)
        else starred)
    else some (s, i)

-- The second test of consumeComment, on what the first left.
unfoldable pub block_comment : ℕ → List ℕ → ℕ → Option (List ℕ × ℕ)
block_comment f s i =
    if has_byte s i b'*' then block_loop f (set (set s (i - 1) b' ') i b' ') i else some (s, i)

unfoldable pub consume_comment : ℕ → List ℕ → ℕ → Option (List ℕ × ℕ)
consume_comment f s i =
    if has_byte s i b'/'
    then elim (line_loop f (set s (i - 1) b' ') i) [
      | none ↦ none
      | some (s', i') ↦ block_comment f s' i'
    ]
    else block_comment f s i

-- The loop inside a string; it starts behind the quote.
unfoldable pub string_loop : ℕ → List ℕ → ℕ → Option ℕ
string_loop zero s i = none
string_loop (suc f) s i =
    let escaped = string_loop f s (i + 1 + 1) in
    let next = string_loop f s (i + 1) in
    if ltb i (length s)
    then (if nat_beq (byte_at s i) b'"'
        then some (i + 1)
        else if nat_beq (byte_at s i) 0x5c
        then escaped
        else next)
    else some i

-- The loop behind a comma at j. It returns where the outer loop goes on. The inner calls have their
-- own fuel `g`.
unfoldable pub comma_loop : ℕ → ℕ → ℕ → List ℕ → ℕ → Option (List ℕ × ℕ)
comma_loop zero g j s i = none
comma_loop (suc f) g j s i =
    let k = i + 1 in
    let blank = comma_loop f g j s k in
    let after_comment = elim (consume_comment g s (k + 1)) as (λ _. Option (List ℕ × ℕ)) [
      | none ↦ none
      | some (s', i') ↦ comma_loop f g j s' i'
    ] in
    if ltb k (length s)
    then (if nat_beq (byte_at s k) b'}' || nat_beq (byte_at s k) b']'
        then some (set s j b' ', k)
        else if nat_beq (byte_at s k) b'/'
        then after_comment
        else if not (is_ws (byte_at s k))
        then some (s, k)
        else blank)
    else some (s, k)

-- One round of the outer loop.
unfoldable pub prep_step : ℕ → List ℕ → ℕ → Option (List ℕ × ℕ)
prep_step g s i =
    if nat_beq (byte_at s i) b'"'
    then elim (string_loop g s (i + 1)) [ none ↦ none | some i' ↦ some (s, i') ]
    else if nat_beq (byte_at s i) b'/'
    then consume_comment g s (i + 1)
    else if nat_beq (byte_at s i) b','
    then comma_loop g g i s i
    else some (s, i + 1)

unfoldable pub prep_loop : ℕ → ℕ → List ℕ → ℕ → Option (List ℕ)
prep_loop zero g s i = none
prep_loop (suc f) g s i =
    let rest = elim (prep_step g s i) as (λ _. Option (List ℕ)) [
      | none ↦ none
      | some (s', i') ↦ prep_loop f g s' i'
    ] in
    if ltb i (length s) then rest else some s

-- A byte more of fuel than the input is long is enough for each loop: see Json5.Total.
unfoldable pub prep : List ℕ → Option (List ℕ)
prep s = prep_loop (length s + 1) (length s + 1) s 0

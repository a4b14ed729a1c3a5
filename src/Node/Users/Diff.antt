-- ===== src/Node/Users/Diff.antt =====
-- node/user.go: what compareUserList returns.
use v2b_z.Prelude.{
  ℕ, suc, ◌+◌, ◌≡◌, refl, ap, ◌∙◌, not, ◌&&◌, ◌||◌, Bool, true, false, List, [], ◌∷◌, ◌++◌, some,
  get_elem?, arith, ◌==◌, if◌then◌else◌, Option-cases, Bool-cases, inl, inr, length,
}
use mathlib.Core.List.{append-nil, append_assoc}
use v2b_z.Prelude.Text.{Text, text_eq, text_beq_iff}
use v2b_z.Prelude.GoMap.{GoMap, lookup, insert, delete, has, lookup-insert, lookup-delete}
use v2b_z.Prelude.Decimal.{itoa, itoa_injective}
use v2b_z.Panel.{UserInfo}
use v2b_z.Node.Users.{user_key, index_users, match_users, collect, compare_user_list}

abbrev pub has_key : Text → List UserInfo → Bool
has_key k [] = false
has_key k (u ∷ us) = user_key u == k || has_key k us

-- The users whose key is not in a list.
abbrev pub without_keys : List UserInfo → List UserInfo → List UserInfo
without_keys old [] = []
without_keys old (u ∷ us) =
    if has_key (user_key u) old then without_keys old us else u ∷ without_keys old us

abbrev pub KeysDistinct : List UserInfo → Type 0
KeysDistinct [] = Unit
KeysDistinct (u ∷ us) = (has_key (user_key u) us ≡ false) × KeysDistinct us

-- Each entry of the map has the index of a user with its key.
IndexOf : List UserInfo → GoMap Text ℕ → Type 0
IndexOf old [] = Unit
IndexOf old ((k, i) ∷ m) =
    ((u : UserInfo) × (get_elem? old i ≡ some u) × (user_key u ≡ k)) × IndexOf old m

has-insert : (k j : Text) (i : ℕ) (m : GoMap Text ℕ) → has j (insert k i m) ≡ (k == j || has j m)
unfolding has
has-insert k j i m = ground (arith, lookup-insert k j i m)

has-delete : (k j : Text) (m : GoMap Text ℕ) → has j (delete k m) ≡ (not (k == j) && has j m)
unfolding has
has-delete k j m = ground (arith, lookup-delete k j m)

has-index_users :
    (k : Text) (i : ℕ) (us : List UserInfo) (m : GoMap Text ℕ)
    → has k (index_users i us m) ≡ (has_key k us || has k m)
unfolding index_users
has-index_users k i [] m = refl
has-index_users k i (u ∷ us) m =
    ground
      (arith, has-index_users k (suc i) us (insert (user_key u) i m), has-insert (user_key u) k i m)

has-match_users :
    (k : Text) (us : List UserInfo) (m : GoMap Text ℕ) (added : List UserInfo)
    → has k (match_users us (m, added)).0 ≡ (not (has_key k us) && has k m)
unfolding match_users has
has-match_users k [] m added = refl
has-match_users k (u ∷ us) m added = ground (
  arith,
  has-match_users k us m (added ++ u ∷ []),
  has-match_users k us (delete (user_key u) m) added,
  lookup-delete (user_key u) k m,
  text_beq_iff (user_key u) k,
)

-- The added users, as the new ones whose key is not in the map.
new_keys : GoMap Text ℕ → List UserInfo → List UserInfo
new_keys m [] = []
new_keys m (u ∷ us) = if has (user_key u) m then new_keys m us else u ∷ new_keys m us

new_keys-delete :
    (k : Text) (m : GoMap Text ℕ) (us : List UserInfo)
    → has_key k us ≡ false
    → new_keys (delete k m) us ≡ new_keys m us
unfolding new_keys
new_keys-delete k m [] h = refl
new_keys-delete k m (u ∷ us) h = ground (
  arith,
  new_keys-delete k m us,
  has-delete k (user_key u) m,
  text_beq_iff k (user_key u),
  text_beq_iff (user_key u) k,
)

match_users-added :
    (us : List UserInfo) (m : GoMap Text ℕ) (added : List UserInfo)
    → KeysDistinct us
    → (match_users us (m, added)).1 ≡ added ++ new_keys m us
unfolding match_users new_keys has
match_users-added [] m added d = simp append-nil
match_users-added (u ∷ us) m added d = elim (Option-cases (lookup (user_key u) m)) [
  | inl e ↦
      rw (e, match_users, has)
        (match_users-added us m (added ++ u ∷ []) d.1 ∙ append_assoc added (u ∷ []) (new_keys m us))
  | inr (i, e) ↦
      rw (e, match_users, has)
        (match_users-added us (delete (user_key u) m) added d.1
          ∙ ap (λ x. added ++ x) (new_keys-delete (user_key u) m us d.0))
]

new_keys-index : (old us : List UserInfo) → new_keys (index_users 0 old []) us ≡ without_keys old us
unfolding new_keys has lookup
new_keys-index old [] = refl
new_keys-index old (u ∷ us) =
    ground (arith, new_keys-index old us, has-index_users (user_key u) 0 old [])

IndexOf-insert :
    (old : List UserInfo) (u : UserInfo) (i : ℕ) (m : GoMap Text ℕ)
    → get_elem? old i ≡ some u
    → IndexOf old m
    → IndexOf old (insert (user_key u) i m)
unfolding IndexOf insert
IndexOf-insert old u i [] e h = ((u, e, refl), tt)
IndexOf-insert old u i ((k, j) ∷ m) e h = elim (Bool-cases (k == user_key u)) [
  | inl q ↦ rw q ((u, e, refl), h.1)
  | inr q ↦ rw q (h.0, IndexOf-insert old u i m e h.1)
]

IndexOf-delete :
    (old : List UserInfo) (k : Text) (m : GoMap Text ℕ) → IndexOf old m → IndexOf old (delete k m)
unfolding IndexOf delete
IndexOf-delete old k [] h = tt
IndexOf-delete old k ((j, i) ∷ m) h = elim (Bool-cases (j == k)) [
  | inl q ↦ rw q (IndexOf-delete old k m h.1)
  | inr q ↦ rw q (h.0, IndexOf-delete old k m h.1)
]

IndexOf-index_users :
    (old us : List UserInfo) (i : ℕ) (m : GoMap Text ℕ)
    → ((j : ℕ) → get_elem? old (i + j) ≡ get_elem? us j)
    → IndexOf old m
    → IndexOf old (index_users i us m)
unfolding index_users
IndexOf-index_users old [] i m at_i h = h
IndexOf-index_users old (u ∷ us) i m at_i h =
    IndexOf-index_users old us (suc i) (insert (user_key u) i m)
      (λ j. ap (get_elem? old) (omega arith) ∙ at_i (suc j))
      (IndexOf-insert old u i m (ap (get_elem? old) (omega arith) ∙ at_i 0) h)

IndexOf-match_users :
    (old us : List UserInfo) (m : GoMap Text ℕ) (added : List UserInfo)
    → IndexOf old m
    → IndexOf old (match_users us (m, added)).0
unfolding match_users
IndexOf-match_users old [] m added h = h
IndexOf-match_users old (u ∷ us) m added h = elim (Option-cases (lookup (user_key u) m)) [
  | inl e ↦ rw (e, match_users) (IndexOf-match_users old us m (added ++ u ∷ []) h)
  | inr (i, e) ↦
      rw (e, match_users)
        (IndexOf-match_users old us (delete (user_key u) m) added
          (IndexOf-delete old (user_key u) m h))
]

has_key-collect :
    (k : Text) (old : List UserInfo) (m : GoMap Text ℕ)
    → IndexOf old m
    → has_key k (collect old m) ≡ has k m
unfolding IndexOf collect has lookup
has_key-collect k old [] h = refl
has_key-collect k old ((j, i) ∷ m) h = ground (arith, has_key-collect k old m h.1, h.0.1, h.0.2)

-- If the keys of the new list are distinct, a key is deleted exactly if the old list has it and the
-- new one has not, and the added users are, in order, those of the new list whose key the old one
-- has not.
pub compare_user_list_lem :
    (old new : List UserInfo)
    → KeysDistinct new
    → ((k : Text)
        → has_key k (compare_user_list old new).0 ≡ (has_key k old && not (has_key k new)))
      × ((compare_user_list old new).1 ≡ without_keys old new)
unfolding compare_user_list IndexOf has lookup
compare_user_list_lem old new d =
    let m = index_users 0 old [] in
    let h = IndexOf-index_users old old 0 [] (λ j. ap (get_elem? old) (omega arith)) tt in
    (
      λ k. ground (
        arith,
        has_key-collect k old (match_users new (m, [])).0 (IndexOf-match_users old new m [] h),
        has-match_users k new m [],
        has-index_users k 0 old [],
      ),
      match_users-added new m [] d ∙ new_keys-index old new,
    )

append-injective : (s t x y : Text) → length s ≡ length t → s ++ x ≡ t ++ y → (s ≡ t) × (x ≡ y)
append-injective [] [] x y l h = (refl, h)
append-injective [] (c ∷ t) x y l h = absurd (omega (arith, l))
append-injective (c ∷ s) [] x y l h = absurd (omega (arith, l))
append-injective (c ∷ s) (d ∷ t) x y l h =
    ground (arith, append-injective s t x y (omega (arith, l)))

-- Users whose uuids have one length and whose keys are equal have the same uuid and the same speed
-- limit.
pub user_key_injective :
    (u v : UserInfo)
    → length u.uuid ≡ length v.uuid
    → user_key u ≡ user_key v
    → (u.uuid ≡ v.uuid) × (u.speed_limit ≡ v.speed_limit)
unfolding user_key
user_key_injective u v l h =
    let p = append-injective u.uuid v.uuid (itoa u.speed_limit) (itoa v.speed_limit) l h in
    (p.0, itoa_injective u.speed_limit v.speed_limit p.1)

-- The users have the same uuids and speed limits, in order.
abbrev pub SameKeys : List UserInfo → List UserInfo → Type 0
SameKeys [] [] = Unit
SameKeys (u ∷ us) (v ∷ vs) = (u.uuid ≡ v.uuid) × (u.speed_limit ≡ v.speed_limit) × SameKeys us vs
SameKeys _ _ = ⊥

SameKeys-has_key : (k : Text) (us vs : List UserInfo) → SameKeys us vs → has_key k us ≡ has_key k vs
unfolding user_key
SameKeys-has_key k [] [] h = refl
SameKeys-has_key k (u ∷ us) (v ∷ vs) h = rw (h.0, h.1, SameKeys-has_key k us vs h.2)
SameKeys-has_key k [] (v ∷ vs) h = absurd h
SameKeys-has_key k (u ∷ us) [] h = absurd h

without_keys-all :
    (old us : List UserInfo)
    → ((k : Text) → has_key k us ≡ true → has_key k old ≡ true)
    → without_keys old us ≡ []
without_keys-all old [] h = refl
without_keys-all old (u ∷ us) h =
    rw (h (user_key u) (ground (arith, text_beq_iff (user_key u) (user_key u))))
      (without_keys-all old us (λ k e. h k (ground (arith, e))))

no_keys : (us : List UserInfo) → ((k : Text) → has_key k us ≡ false) → us ≡ []
no_keys [] h = refl
no_keys (u ∷ us) h = absurd (ground (arith, h (user_key u), text_beq_iff (user_key u) (user_key u)))

-- If the keys of the new list are distinct, two lists whose users have the same uuids and speed
-- limits in order give no deleted and no added user: a change of the device limits alone is not
-- seen.
pub compare-SameKeys :
    (old new : List UserInfo)
    → KeysDistinct new
    → SameKeys old new
    → ((compare_user_list old new).0 ≡ []) × ((compare_user_list old new).1 ≡ [])
compare-SameKeys old new d same =
    let l = compare_user_list_lem old new d in
    (
      no_keys (compare_user_list old new).0
          (λ k. ground (arith, l.0 k, SameKeys-has_key k old new same)),
      l.1 ∙ without_keys-all old new (λ k e. ground (arith, e, SameKeys-has_key k old new same)),
    )

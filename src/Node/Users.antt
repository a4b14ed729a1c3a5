-- ===== src/Node/Users.antt =====
-- node/user.go: compareUserList, which finds what changed between two lists of users.
pub mod Diff
use v2b_z.Prelude.{ℕ, suc, List, [], ◌∷◌, ◌++◌, Option, none, some, get_elem?}
use v2b_z.Prelude.Text.{Text, text_eq}
use v2b_z.Prelude.GoMap.{GoMap, lookup, insert, delete}
use v2b_z.Prelude.Decimal.{itoa}
use v2b_z.Panel.{UserInfo}

unfoldable pub user_key : UserInfo → Text
user_key u = u.uuid ++ itoa u.speed_limit

-- The first loop; `i` is the index of the first user.
unfoldable pub index_users : ℕ → List UserInfo → GoMap Text ℕ → GoMap Text ℕ
index_users i [] m = m
index_users i (u ∷ us) m = index_users (suc i) us (insert (user_key u) i m)

-- The second loop, over the new users: what is left of the map, and the added users.
unfoldable pub match_users :
    List UserInfo → GoMap Text ℕ × List UserInfo → GoMap Text ℕ × List UserInfo
match_users [] s = s
match_users (u ∷ us) (m, added) = match_users us (elim (lookup (user_key u) m) [
  | none ↦ (m, added ++ u ∷ [])
  | some _ ↦ (delete (user_key u) m, added)
])

-- The third loop, over the map: old[index] is never out of range.
unfoldable pub collect : List UserInfo → GoMap Text ℕ → List UserInfo
collect old [] = []
collect old ((k, i) ∷ m) = elim (get_elem? old i) [
  | none ↦ collect old m
  | some u ↦ u ∷ collect old m
]

-- (deleted, added)
unfoldable pub compare_user_list : List UserInfo → List UserInfo → List UserInfo × List UserInfo
compare_user_list old new =
    let (m, added) = match_users new (index_users 0 old [], []) in (collect old m, added)

-- ===== src/Core/Hy2/Users.antt =====
-- core/hy2/user.go: who is let in.
use v2b_z.Prelude.{Option-cases, inl, inr}
use v2b_z.Prelude.{
  ◌≡◌, refl, Bool, true, false, not, ◌&&◌, ◌||◌, List, [], ◌∷◌, some, arith, ◌==◌, if◌then◌else◌,
}
use v2b_z.Prelude.Text.{Text, text_eq}
use v2b_z.Prelude.Int.{ℤ}
use v2b_z.Prelude.GoMap.{GoMap, lookup, insert, delete, has, lookup-insert, lookup-delete}
use v2b_z.Panel.{UserInfo}
use v2b_z.Core.Hy2.{Hysteria2, authenticate, store_users, add_users, del_users, forget_traffic}

abbrev pub is_among : Text → List UserInfo → Bool
is_among uuid [] = false
is_among uuid (u ∷ us) = u.uuid == uuid || is_among uuid us

has-store_users :
    (uuid : Text) (us : List UserInfo) (m : GoMap Text ℤ)
    → has uuid (store_users us m) ≡ (is_among uuid us || has uuid m)
unfolding store_users has
has-store_users uuid [] m = refl
has-store_users uuid (u ∷ us) m =
    ground (arith, has-store_users uuid us (insert u.uuid u.id m), lookup-insert u.uuid uuid u.id m)

has-delete : (u v : Text) (m : GoMap Text ℤ) → has v (delete u m) ≡ (not (u == v) && has v m)
unfolding has
has-delete u v m = ground (arith, lookup-delete u v m)

has-del_users :
    (uuid tag : Text) (us : List UserInfo) (h h' : Hysteria2)
    → del_users us tag h ≡ some h'
    → has uuid h'.users_map ≡ (not (is_among uuid us) && has uuid h.users_map)
unfolding del_users
has-del_users uuid tag [] h h' e = ground arith
has-del_users uuid tag (u ∷ us) h h' e = elim (Option-cases (lookup tag h.hy2nodes)) [
  | inl n ↦ cc (n)
  | inr (hook, n) ↦
      let h2 : Hysteria2 = record {
        hy2nodes = insert tag (forget_traffic tag u.uuid hook) h.hy2nodes;
        users_map = delete u.uuid h.users_map;
      } in
      ground (arith, n, has-del_users uuid tag us h2 h', has-delete u.uuid uuid h.users_map)
]

-- After users are added and others deleted without a panic, a client is let in exactly if his uuid
-- was added or known before and not deleted, and then under that uuid.
pub authenticate-users :
    (auth tag : Text) (added deleted : List UserInfo) (h h' : Hysteria2)
    → del_users deleted tag (add_users added h).0 ≡ some h'
    → authenticate auth h' ≡ (
        if not (is_among auth deleted) && (is_among auth added || has auth h.users_map)
        then (true, auth)
        else (false, []))
unfolding authenticate add_users
authenticate-users auth tag added deleted h h' e = ground (
  arith,
  has-del_users auth tag deleted (add_users added h).0 h',
  has-store_users auth added h.users_map,
)

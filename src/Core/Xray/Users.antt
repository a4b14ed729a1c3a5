-- ===== src/Core/Xray/Users.antt =====
-- core/xray/user.go. The user manager of an inbound is xray's: `M` is the state of the inbounds,
-- `has_manager` says whether a tag has one, `admit` adds one user to it and `remove` removes one.
use v2b_z.Prelude.{
  ℕ, Bool, List, [], ◌∷◌, Option, none, some, ◌==◌, if◌then◌else◌, length, Result, ok, err,
}
use v2b_z.Prelude.Int.{ℤ, pos}
use v2b_z.Prelude.Text.{Text, text, text_eq}
use v2b_z.Prelude.GoMap.{GoMap, lookup, insert, delete, get_or}
use v2b_z.Panel.{UserInfo, UserTraffic}
use v2b_z.Limiter.Types.{user_tag}
use v2b_z.Counter.Slice.{traffic_slice}
use v2b_z.Core.Types.{Failure, message, panicked, AddUsersParams}
use v2b_z.Core.Xray.Dispatcher.{Dispatcher, Pipes, close_all}
use v2b_z.Core.Xray.Accounts.{
  User, build_vmess_users, build_vless_users, build_trojan_users, build_ss_users,
}

pub record Xray : Type 0 where
  pub uid_map : GoMap Text ℤ
  pub dispatcher : Dispatcher
  pub pipes : Pipes
  pub node_report_min_traffic_bytes : GoMap Text ℤ

unfoldable pub get_user_traffic_slice : Text → Bool → Xray → Xray × List UserTraffic
get_user_traffic_slice tag reset x = elim (lookup tag x.dispatcher.counter) [
  | none ↦ (x, [])
  | some c ↦
      let (c', slice) =
        traffic_slice (get_or (pos 0) tag x.node_report_min_traffic_bytes) reset x.uid_map c in
      (
        record x {
          dispatcher = record x.dispatcher { counter = insert tag c' x.dispatcher.counter };
        },
        slice,
      )
]

-- Of a user whose removal succeeded: the id, the traffic, and the links.
unfoldable pub drop_traffic : Text → Text → Dispatcher → Dispatcher
drop_traffic tag user d = elim (lookup tag d.counter) [
  | none ↦ d
  | some c ↦ record d { counter = insert tag (delete user c) d.counter }
]

unfoldable pub drop_links : Text → Dispatcher × Pipes → Dispatcher × Pipes
drop_links user (d, p) = elim (lookup user d.link_managers) [
  | none ↦ (d, p)
  | some m ↦ (record d { link_managers = delete user d.link_managers }, (close_all m p).1)
]

unfoldable pub forget_user : Text → Text → Xray → Xray
unfolding drop_traffic drop_links
forget_user tag user x =
    let (d, p) = drop_links user (drop_traffic tag user x.dispatcher, x.pipes) in
    record x { uid_map = delete user x.uid_map; dispatcher = d; pipes = p }

unfoldable pub store_uids : Text → List UserInfo → GoMap Text ℤ → GoMap Text ℤ
store_uids tag [] m = m
store_uids tag (u ∷ us) m = store_uids tag us (insert (user_tag tag u.uuid) u.id m)

module _ (to_lower base64 : Text → Text) where
  -- The switch on the node's type: the users, a message, or the panic of a nil node or a short uuid.
  unfoldable pub build_users : AddUsersParams → Result Failure (List User)
  build_users p =
      let t = p.node_info.type in
      if t == text "vmess"
      then ok (build_vmess_users p.tag p.users)
      else if t == text "vless"
      then elim p.node_info.vallss [
        | none ↦ err panicked
        | some n ↦ ok (build_vless_users p.tag p.users n.flow)
      ]
      else if t == text "trojan"
      then ok (build_trojan_users p.tag p.users)
      else if t == text "shadowsocks"
      then elim p.node_info.shadowsocks [
        | none ↦ err panicked
        | some n ↦ elim (build_ss_users to_lower base64 p.tag p.users n.cipher n.server_key) [
          | none ↦ err panicked
          | some us ↦ ok us
        ]
      ]
      else err (message (text "unsupported node type"))

module _ {M : Type 0} (has_manager : Text → M → Bool)
    (remove : Text → Text → M → M × Option Failure) where
  -- The first failure ends the loop; what was done before it stays done.
  unfoldable pub remove_users :
      List UserInfo → Text → Xray × M → Xray × M × Result Failure (Unit {0})
  remove_users [] tag (x, m) = (x, m, ok tt)
  remove_users (u ∷ us) tag (x, m) =
      let (m', failed) = remove tag (user_tag tag u.uuid) m in
      let rest = remove_users us tag (forget_user tag (user_tag tag u.uuid) x, m') in
      elim failed [ none ↦ rest | some e ↦ (x, m', err e) ]

  unfoldable pub del_users : List UserInfo → Text → Xray × M → Xray × M × Result Failure (Unit {0})
  unfolding remove_users
  del_users users tag (x, m) =
      if has_manager tag m
      then remove_users users tag (x, m)
      else (x, m, err (message (text "get user manager error")))

module _ {M : Type 0} (has_manager : Text → M → Bool)
    (admit : Text → User → M → M × Option Failure) where
  unfoldable pub admit_users : List User → Text → M → M × Option Failure
  admit_users [] tag m = (m, none)
  admit_users (u ∷ us) tag m =
      let (m', failed) = admit tag u m in
      let rest = admit_users us tag m' in elim failed [ none ↦ rest | some e ↦ (m', some e) ]

  unfoldable pub add_users :
      (Text → Text) → (Text → Text) → AddUsersParams → Xray × M → Xray × M × Result Failure ℕ
  unfolding admit_users
  add_users to_lower base64 p (x, m) =
      let x' = record x { uid_map = store_uids p.tag p.users x.uid_map } in
      elim (build_users to_lower base64 p) [
        | err e ↦ (x', m, err e)
        | ok users ↦
            if has_manager p.tag m
            then (let (m', failed) = admit_users users p.tag m in
                elim failed [ none ↦ (x', m', ok (length users)) | some e ↦ (x', m', err e) ])
            else (x', m, err (message (text "get user manager error")))
      ]

-- ===== src/Core/Hy2.antt =====
-- core/hy2/user.go and hook.go: the users and the traffic of the hysteria2 core.
pub mod Users
pub mod Quic
pub mod Outbound
use v2b_z.Prelude.{
  ℕ, ◌≡◌, Bool, true, false, List, [], ◌∷◌, Option, none, some, ◌==◌, if◌then◌else◌, length,
}
use v2b_z.Prelude.Int.{ℤ, pos, wrap64}
use v2b_z.Prelude.Text.{Text, text_eq}
use v2b_z.Prelude.GoMap.{GoMap, lookup, insert, delete, has}
use v2b_z.Panel.{UserInfo, UserTraffic}
use v2b_z.Counter.{TrafficCounter, rx, tx}
use v2b_z.Counter.Slice.{traffic_slice}
use v2b_z.Limiter.Types.{UserLimitInfo, Limiter, user_tag}

-- HookServer.Counter maps a tag to the counter of its users.
pub record HookServer : Type 0 where
  pub tag : Text
  pub counter : GoMap Text TrafficCounter
  pub report_min_traffic_bytes : ℤ

-- The nodes with their hooks, and Auth.usersMap.
pub record Hysteria2 : Type 0 where
  pub hy2nodes : GoMap Text HookServer
  pub users_map : GoMap Text ℤ

unfoldable pub authenticate : Text → Hysteria2 → Bool × Text
authenticate auth h = if has auth h.users_map then (true, auth) else (false, [])

-- The goroutines of AddUsers each take the lock and write once: their order is that of the list.
unfoldable pub store_users : List UserInfo → GoMap Text ℤ → GoMap Text ℤ
store_users [] m = m
store_users (u ∷ us) m = store_users us (insert u.uuid u.id m)

unfoldable pub add_users : List UserInfo → Hysteria2 → Hysteria2 × ℕ
unfolding store_users
add_users users h = (record h { users_map = store_users users h.users_map }, length users)

-- h.Hy2nodes[tag].TrafficLogger.(*HookServer).Counter.Load(tag), and c.Delete(user.Uuid)
abbrev pub forget_traffic : Text → Text → HookServer → HookServer
forget_traffic tag uuid hook = elim (lookup tag hook.counter) [
  | none ↦ hook
  | some c ↦ record hook { counter = insert tag (delete uuid c) hook.counter }
]

-- `none` is the panic of a node that is missing.
unfoldable pub del_users : List UserInfo → Text → Hysteria2 → Option Hysteria2
del_users [] tag h = some h
del_users (u ∷ us) tag h = elim (lookup tag h.hy2nodes) [
  | none ↦ none
  | some hook ↦ del_users us tag (record {
    hy2nodes = insert tag (forget_traffic tag u.uuid hook) h.hy2nodes;
    users_map = delete u.uuid h.users_map;
  })
]

unfoldable pub get_user_traffic_slice : Text → Bool → Hysteria2 → Hysteria2 × List UserTraffic
get_user_traffic_slice tag reset h = elim (lookup tag h.hy2nodes) [
  | none ↦ (h, [])
  | some hook ↦ elim (lookup tag hook.counter) [
    | none ↦ (h, [])
    | some c ↦
        let (c', slice) = traffic_slice hook.report_min_traffic_bytes reset h.users_map c in
        (
          record h {
            hy2nodes = insert tag (record hook { counter = insert tag c' hook.counter }) h.hy2nodes;
          },
          slice,
        )
  ]
]

-- LogTraffic: `limiter` is what the registry has under the tag of the hook. It returns the hook,
-- that limiter, and whether the connection goes on. The lengths are uint64, and are read as int.
unfoldable pub log_traffic :
    Text → ℕ → ℕ → Option Limiter → HookServer → HookServer × Option Limiter × Bool
log_traffic id sent received none h = (h, none, false)
log_traffic id sent received (some l) h =
    let counter : TrafficCounter = elim (lookup h.tag h.counter) [ none ↦ [] | some c ↦ c ] in
    let counted = record h {
      counter =
          insert h.tag (tx id (wrap64 (pos sent)) (rx id (wrap64 (pos received)) counter))
            h.counter;
    } in
    elim (lookup (user_tag h.tag id) l.user_limit_info) [
      | none ↦ (counted, some l, true)
      | some info ↦
          if info.over_limit
          then (
            h,
            some (record l {
              user_limit_info =
                  insert (user_tag h.tag id) (record info { over_limit = false }) l.user_limit_info;
            }),
            false,
          )
          else (counted, some l, true)
    ]

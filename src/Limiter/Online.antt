-- ===== src/Limiter/Online.antt =====
-- limiter/limiter.go: GetOnlineDevice, which reports the devices of a period and starts the next.
pub mod Period
pub mod Returning
use v2b_z.Prelude.{List, [], ◌∷◌, ◌++◌}
use v2b_z.Prelude.Int.{ℤ}
use v2b_z.Prelude.Text.{Text, text_eq}
use v2b_z.Prelude.GoMap.{GoMap, insert, delete}
use v2b_z.Panel.{OnlineUser}
use v2b_z.Limiter.Types.{Limiter}

-- The inner Range: it stores each address as old and appends the user.
unfoldable pub range_ips :
    GoMap Text ℤ → GoMap Text ℤ × List OnlineUser → GoMap Text ℤ × List OnlineUser
range_ips [] s = s
range_ips ((ip, uid) ∷ m) (old, online) =
    range_ips m (insert ip uid old, online ++ record { uid = uid; ip = ip } ∷ [])

-- The outer Range, over the entries that the map had at its start.
unfoldable pub range_users :
    GoMap Text (GoMap Text ℤ) → Limiter × List OnlineUser → Limiter × List OnlineUser
unfolding range_ips
range_users [] s = s
range_users ((taguuid, ip_map) ∷ m) (l, online) =
    let (old, online') = range_ips ip_map (l.old_user_online, online) in
    range_users m (
      record l { old_user_online = old; user_online_ip = delete taguuid l.user_online_ip },
      online',
    )

unfoldable pub get_online_device : Limiter → Limiter × List OnlineUser
unfolding range_users
get_online_device l = range_users l.user_online_ip (record l { old_user_online = [] }, [])

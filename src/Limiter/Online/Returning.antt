-- ===== src/Limiter/Online/Returning.antt =====
-- limiter/limiter.go: a device that was online in the last period may come back in the next.
use v2b_z.Prelude.{◌≡◌, refl, Bool, false, some, arith, [], ◌∷◌, List}
use v2b_z.Prelude.Int.{ℤ}
use v2b_z.Prelude.Text.{Text, text, text_eq, trim_prefix}
use v2b_z.Prelude.GoMap.{lookup, delete}
use v2b_z.Panel.{OnlineUser}
use v2b_z.Limiter.Types.{UserLimitInfo, Limiter}
use v2b_z.Limiter.Check.{check_limit}
use v2b_z.Limiter.Check.Device.{refused, device_refused, check_limit-refused}
use v2b_z.Limiter.Online.{get_online_device, range_users, range_ips}
use v2b_z.Limiter.Online.Period.{all_devices, last_uid, get_online_device_lem}

range_users-infos :
    (m : List (Text × List (Text × ℤ))) (l : Limiter) (us : List OnlineUser)
    → (range_users m (l, us)).0.user_limit_info ≡ l.user_limit_info
unfolding range_users
range_users-infos [] l us = refl
range_users-infos ((t, ips) ∷ m) l us =
    range_users-infos m
      (record l {
        old_user_online = (range_ips ips (l.old_user_online, us)).0;
        user_online_ip = delete t l.user_online_ip;
      })
      (range_ips ips (l.old_user_online, us)).1

get_online_device-infos :
    (l : Limiter) → (get_online_device l).0.user_limit_info ≡ l.user_limit_info
unfolding get_online_device
get_online_device-infos l =
    range_users-infos l.user_online_ip (record l { old_user_online = [] }) []

-- Once the devices of a period are reported, a known user is served from an address that was
-- online, whatever his limit and his live devices are.
pub check_limit-returning :
    (t ip : Text) (is_tcp no_ssudp : Bool) (now uid : ℤ) (u : UserLimitInfo) (l : Limiter)
    → lookup t l.user_limit_info ≡ some u
    → last_uid (trim_prefix ip (text "::ffff:")) (all_devices l.user_online_ip) ≡ some uid
    → (check_limit t ip is_tcp no_ssudp now (get_online_device l).0).2 ≡ false
unfolding refused device_refused
check_limit-returning t ip is_tcp no_ssudp now uid u l known was = ground (
  arith,
  check_limit-refused t ip is_tcp no_ssudp now (get_online_device l).0,
  get_online_device-infos l,
  (get_online_device_lem l).2 (trim_prefix ip (text "::ffff:")),
)

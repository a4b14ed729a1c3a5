-- ===== src/Limiter/Check.antt =====
-- limiter/limiter.go: CheckLimit, which a connection passes before it is served. `now` is the time
-- in seconds; the accesses to the shared maps are taken as one step.
pub mod Device
pub mod Bandwidth
pub mod Kept
use v2b_z.Prelude.{Bool, true, false, ◌&&◌, not, [], ◌∷◌, Option, none, some, ◌==◌, if◌then◌else◌}
use v2b_z.Prelude.Int.{ℤ, pos, ltb_ℤ, leb_ℤ, int_eq, mul64, quot}
use v2b_z.Prelude.Text.{Text, text, text_eq, trim_prefix}
use v2b_z.Prelude.GoMap.{lookup, insert, delete, get_or}
use v2b_z.Limiter.Types.{UserLimitInfo, Bucket, Limiter}
use v2b_z.Limiter.Speed.{determine_speed_limit}

-- The dynamic limit of a user has run out.
unfoldable pub is_expired : ℤ → UserLimitInfo → Bool
is_expired now u = ltb_ℤ u.expire_time now && not (u.expire_time == pos 0)

-- The first part: the speed limit of the user, and what an expired dynamic limit changes.
unfoldable pub user_speed_limit : Text → ℤ → UserLimitInfo → Limiter → Limiter × ℤ
unfolding is_expired
user_speed_limit taguuid now u l =
    if is_expired now u
    then (if not (u.speed_limit == pos 0)
        then (
          record l {
            user_limit_info =
                insert taguuid (record u { dynamic_speed_limit = pos 0; expire_time = pos 0 })
                  l.user_limit_info;
          },
          u.speed_limit,
        )
        else (record l { user_limit_info = delete taguuid l.user_limit_info }, pos 0))
    else (l, determine_speed_limit u.speed_limit u.dynamic_speed_limit)

-- deviceLimit > 0 and deviceLimit <= aliveIp
unfoldable pub over_device_limit : ℤ → ℤ → Bool
over_device_limit device_limit alive = ltb_ℤ (pos 0) device_limit && leb_ℤ device_limit alive

-- A device of the last period that is back under the same user is taken off the old map.
unfoldable pub take_old : Text → ℤ → ℤ → Limiter → Limiter
take_old ip old uid l =
    if old == uid then record l { old_user_online = delete ip l.old_user_online } else l

-- The second part, with the flag that rejects.
unfoldable pub check_device : Text → Text → ℤ → ℤ → Limiter → Limiter × Bool
unfolding over_device_limit take_old
check_device taguuid ip uid device_limit l = elim (lookup taguuid l.user_online_ip) [
  | some old_ip_map ↦ elim (lookup ip old_ip_map) [
    | some _ ↦ (l, false)
    | none ↦
        let stored = record l {
          user_online_ip = insert taguuid (insert ip uid old_ip_map) l.user_online_ip;
        } in
        elim (lookup ip l.old_user_online) [
          | some old ↦ (take_old ip old uid stored, false)
          | none ↦
              if over_device_limit device_limit (get_or (pos 0) uid l.alive_list)
              then (
                record l {
                  user_online_ip =
                      insert taguuid (delete ip (insert ip uid old_ip_map)) l.user_online_ip;
                },
                true,
              )
              else (stored, false)
        ]
  ]
  | none ↦
      let stored = record l { user_online_ip = insert taguuid ((ip, uid) ∷ []) l.user_online_ip } in
      elim (lookup ip l.old_user_online) [
        | some old ↦ (take_old ip old uid stored, false)
        | none ↦
            if over_device_limit device_limit (get_or (pos 0) uid l.alive_list)
            then (
              record l {
                user_online_ip = delete taguuid (insert taguuid ((ip, uid) ∷ []) l.user_online_ip);
              },
              true,
            )
            else (stored, false)
      ]
]

-- The rate in bytes per second: int64(limit) * 1000000 / 8.
unfoldable pub byte_rate : ℤ → ℤ
byte_rate limit = quot (mul64 limit (pos 1000000)) 8

abbrev pub bucket_of : ℤ → Bucket
bucket_of limit = record { fill_interval = pos 1000000000; capacity = limit; quantum = limit }

-- The third part: the bucket of the user is made once, and found from then on.
unfoldable pub speed_bucket : Text → ℤ → Limiter → Limiter × Option Bucket
unfolding byte_rate
speed_bucket taguuid user_limit l =
    let limit = byte_rate (determine_speed_limit l.speed_limit user_limit) in
    if ltb_ℤ (pos 0) limit
    then elim (lookup taguuid l.speed_limiter) [
      | some b ↦ (l, some b)
      | none ↦ (
        record l { speed_limiter = insert taguuid (bucket_of limit) l.speed_limiter },
        some (bucket_of limit),
      )
    ]
    else (l, none)

-- The second and the third part; the source does not read `isTcp`.
unfoldable pub admit : Text → Text → ℤ → ℤ → ℤ → Bool → Limiter → Limiter × Option Bucket × Bool
admit taguuid ip uid device_limit user_limit no_ssudp l =
    let (l', reject) =
      if no_ssudp then check_device taguuid ip uid device_limit l else (l, false) in
    if reject
    then (l', none, true)
    else (let (l'', bucket) = speed_bucket taguuid user_limit l' in (l'', bucket, false))

unfoldable pub check_limit :
    Text → Text → Bool → Bool → ℤ → Limiter → Limiter × Option Bucket × Bool
check_limit taguuid ip is_tcp no_ssudp now l = elim (lookup taguuid l.user_limit_info) [
  | none ↦ (l, none, true)
  | some u ↦
      let (l', user_limit) = user_speed_limit taguuid now u l in
      admit taguuid (trim_prefix ip (text "::ffff:")) u.uid u.device_limit user_limit no_ssudp l'
]

-- ===== src/Limiter/Users.antt =====
-- limiter/limiter.go and limiter/dynamic.go: which users a limiter knows, and with which limits.
pub mod Update
use v2b_z.Prelude.{
  ℕ, Bool, false, List, [], ◌∷◌, Option, none, some, ◌==◌, if◌then◌else◌, Result, ok, err, not,
}
use v2b_z.Prelude.Int.{ℤ, pos, int_eq, add64, mul64, sub64, quot, leb_ℤ, ltb_ℤ}
use v2b_z.Prelude.Text.{Text, text_eq}
use v2b_z.Prelude.GoMap.{GoMap, lookup, insert, delete}
use v2b_z.Panel.{UserInfo}
use v2b_z.Limiter.Types.{UserLimitInfo, Limiter, user_tag}

-- The zero value of the struct.
abbrev pub zero_limit_info : UserLimitInfo
zero_limit_info = record {
  uid = pos 0;
  speed_limit = pos 0;
  device_limit = pos 0;
  dynamic_speed_limit = pos 0;
  expire_time = pos 0;
  over_limit = false;
}

-- The entry that is made for a user of the panel, with the tests for zero of the source.
unfoldable pub limit_info : UserInfo → UserLimitInfo
limit_info u = record zero_limit_info {
  uid = u.id;
  speed_limit = if u.speed_limit == pos 0 then pos 0 else u.speed_limit;
  device_limit = if u.device_limit == pos 0 then pos 0 else u.device_limit;
  over_limit = false;
}

-- The loop of AddLimiter over its users, on the two maps that it fills.
unfoldable pub add_users :
    Text
    → List UserInfo
    → GoMap Text ℤ × GoMap Text UserLimitInfo
    → GoMap Text ℤ × GoMap Text UserLimitInfo
unfolding limit_info
add_users tag [] s = s
add_users tag (u ∷ us) (uids, infos) =
    add_users tag us (insert u.uuid u.id uids, insert (user_tag tag u.uuid) (limit_info u) infos)

-- The Limiter that AddLimiter makes; the registry stores it.
unfoldable pub new_limiter : Text → ℤ → List UserInfo → GoMap ℤ ℤ → Limiter
unfolding add_users
new_limiter tag speed_limit users alive_list = record {
  domain_rules = [];
  protocol_rules = [];
  speed_limit = speed_limit;
  user_online_ip = [];
  old_user_online = [];
  uuid_to_uid = (add_users tag users ([], [])).0;
  user_limit_info = (add_users tag users ([], [])).1;
  speed_limiter = [];
  alive_list = alive_list;
}

-- One round of the first loop of UpdateUser.
unfoldable pub forget_user : Text → UserInfo → Limiter → Limiter
forget_user tag u l = record l {
  user_limit_info = delete (user_tag tag u.uuid) l.user_limit_info;
  user_online_ip = delete (user_tag tag u.uuid) l.user_online_ip;
  speed_limiter = delete (user_tag tag u.uuid) l.speed_limiter;
  uuid_to_uid = delete u.uuid l.uuid_to_uid;
  alive_list = delete u.id l.alive_list;
}

-- One round of its second loop.
unfoldable pub learn_user : Text → UserInfo → Limiter → Limiter
unfolding limit_info
learn_user tag u l = record l {
  user_limit_info = insert (user_tag tag u.uuid) (limit_info u) l.user_limit_info;
  uuid_to_uid = insert u.uuid u.id l.uuid_to_uid;
}

unfoldable pub each : (UserInfo → Limiter → Limiter) → List UserInfo → Limiter → Limiter
each f [] l = l
each f (u ∷ us) l = each f us (f u l)

unfoldable pub update_user : Text → List UserInfo → List UserInfo → Limiter → Limiter
unfolding each forget_user learn_user
update_user tag added deleted l = each (learn_user tag) added (each (forget_user tag) deleted l)

-- `none` is the error "not found"; `expire` is in seconds since the epoch.
unfoldable pub update_dynamic_speed_limit : Text → Text → ℤ → ℤ → Limiter → Option Limiter
update_dynamic_speed_limit tag uuid limit expire l =
    elim (lookup (user_tag tag uuid) l.user_limit_info) [
      | none ↦ none
      | some info ↦ some (record l {
        user_limit_info =
            insert (user_tag tag uuid)
              (record info { dynamic_speed_limit = limit; expire_time = expire }) l.user_limit_info;
      })
    ]

-- time.Duration(expire) * time.Second, added to a time of `now` seconds and `nanos` nanoseconds, in
-- seconds again: what is over a second is carried.
unfoldable pub after_seconds : ℤ → ℤ → ℤ → ℤ
after_seconds expire now nanos =
    let d = mul64 expire (pos 1000000000) in
    let seconds = quot d 1000000000 in
    let rest = add64 nanos (sub64 d (mul64 seconds (pos 1000000000))) in
    if leb_ℤ (pos 1000000000) rest
    then add64 now (add64 seconds (pos 1))
    else if ltb_ℤ rest (pos 0)
    then add64 now (sub64 seconds (pos 1))
    else add64 now seconds

-- The clock is read once, as seconds and nanoseconds.
unfoldable pub add_dynamic_speed_limit : Text → UserInfo → ℤ → ℤ → ℤ → ℤ → Limiter → Limiter
unfolding after_seconds
add_dynamic_speed_limit tag u limit expire now nanos l = record l {
  user_limit_info =
      insert (user_tag tag u.uuid)
        (record zero_limit_info {
          dynamic_speed_limit = limit;
          expire_time = after_seconds expire now nanos;
        })
        l.user_limit_info;
}

-- ===== src/Limiter/Tests.antt =====
-- The limiter on small inputs: one user of one node.
use v2b_z.Prelude.{
  ◌*◌, ℕ, ◌≡◌, refl, Bool, true, false, List, [], ◌∷◌, none, some, arith, not, ◌&&◌, ◌==◌,
  if◌then◌else◌, ◌⊎◌, ◌↔◌, ◌≢◌,
}
use v2b_z.Prelude.Int.{pos, quot, mul64, int_eq}
use v2b_z.Prelude.Text.{Text, text, text_eq, text_beq, trim_prefix}
use v2b_z.Prelude.GoMap.{lookup}
use v2b_z.Panel.{UserInfo}
use v2b_z.Limiter.Types.{UserLimitInfo, Limiter, user_tag}
use v2b_z.Limiter.Users.{update_user}
use v2b_z.Limiter.Users.Update.{lookup-update_user, info_of, learnt, forgotten, last_user}
use v2b_z.Limiter.Speed.{determine_speed_limit}
use v2b_z.Limiter.Check.{check_limit, is_expired, byte_rate}
use v2b_z.Limiter.Check.Device.{check_limit-refused, check_limit-online, online_uid, refused}
use v2b_z.Limiter.Check.Bandwidth.{
  check_limit-bucket, check_limit-locked_out, Call, after_calls, limit_in_force, kept_bucket,
}
use v2b_z.Limiter.Online.{get_online_device}
use v2b_z.Limiter.Online.Period.{get_online_device_lem, all_devices, last_uid}

abbrev home : Text
home = text "10.0.0.1"

abbrev away : Text
away = text "::ffff:10.0.0.2"

abbrev key : Text
key = text "n|a"

-- 100 megabits per second and one device.
abbrev alice : UserLimitInfo
alice = record {
  uid = pos 7;
  speed_limit = pos 100;
  device_limit = pos 1;
  dynamic_speed_limit = pos 0;
  expire_time = pos 0;
  over_limit = false;
}

-- No limit of his own, and a dynamic one up to second 50.
abbrev bob : UserLimitInfo
bob = record alice { speed_limit = pos 0; dynamic_speed_limit = pos 10; expire_time = pos 50 }

abbrev limiter_of : UserLimitInfo → Limiter
limiter_of u = record {
  domain_rules = [];
  protocol_rules = [];
  speed_limit = pos 0;
  user_online_ip = (key, (home, pos 7) ∷ []) ∷ [];
  old_user_online = [];
  uuid_to_uid = (text "a", pos 7) ∷ [];
  user_limit_info = (key, u) ∷ [];
  speed_limiter = [];
  alive_list = (pos 7, pos 1) ∷ [];
}

abbrev alice_info : UserInfo
alice_info = record { id = pos 7; uuid = text "a"; speed_limit = pos 200; device_limit = pos 2 }

check_limit-refused_example :
    (check_limit key away true true (pos 9) (limiter_of alice)).2
    ≡ refused key away true (limiter_of alice)
check_limit-refused_example = check_limit-refused key away true true (pos 9) (limiter_of alice)

-- The user is at the limit of his devices: a second address is rejected.
test_refused : (check_limit key away true true (pos 9) (limiter_of alice)).2 ≡ true
unfolding check_limit lookup text_beq v2b_z.Limiter.Check.admit v2b_z.Limiter.Check.check_device
    v2b_z.Limiter.Check.user_speed_limit trim_prefix v2b_z.Prelude.GoMap.get_or
test_refused = refl

check_limit-online_example :
    online_uid key home (check_limit key home true true (pos 9) (limiter_of alice)).0 ≡ (
      if true
        && not (check_limit key home true true (pos 9) (limiter_of alice)).2
        && key == key
        && trim_prefix home (text "::ffff:") == home
      then elim (online_uid key (trim_prefix home (text "::ffff:")) (limiter_of alice)) [
        | some v ↦ some v
        | none ↦ some (pos 7)
      ]
      else online_uid key home (limiter_of alice))
unfolding lookup text_beq
check_limit-online_example =
    check_limit-online key home key home true true (pos 9) alice (limiter_of alice) refl

lookup-update_user_example :
    (info_of
        (text "n")
        (text "a")
        (update_user (text "n") (alice_info ∷ []) (alice_info ∷ []) (limiter_of alice))
      ≡ learnt (last_user (text "a") (alice_info ∷ [])) (
          forgotten
            (last_user (text "a") (alice_info ∷ []))
            (info_of (text "n") (text "a") (limiter_of alice))))
    × (lookup
          (user_tag (text "n") (text "a"))
          (update_user
            (text "n")
            (alice_info ∷ [])
            (alice_info ∷ [])
            (limiter_of alice)).speed_limiter
        ≡ forgotten
            (last_user (text "a") (alice_info ∷ []))
            (lookup (user_tag (text "n") (text "a")) (limiter_of alice).speed_limiter))
    × (lookup
          (user_tag (text "n") (text "a"))
          (update_user
            (text "n")
            (alice_info ∷ [])
            (alice_info ∷ [])
            (limiter_of alice)).user_online_ip
        ≡ forgotten
            (last_user (text "a") (alice_info ∷ []))
            (lookup (user_tag (text "n") (text "a")) (limiter_of alice).user_online_ip))
lookup-update_user_example =
    lookup-update_user (text "n") (text "a") (alice_info ∷ []) (alice_info ∷ []) (limiter_of alice)

check_limit-bucket_example :
    ((check_limit key home true true (pos 9) (limiter_of alice)).1
      ≡ some (
          kept_bucket key
            (byte_rate (limit_in_force (pos 9) alice (limiter_of alice)))
            (limiter_of alice)))
    × (lookup key (check_limit key home true true (pos 9) (limiter_of alice)).0.speed_limiter
        ≡ some (
            kept_bucket key
              (byte_rate (limit_in_force (pos 9) alice (limiter_of alice)))
              (limiter_of alice)))
unfolding check_limit lookup text_beq limit_in_force byte_rate v2b_z.Limiter.Check.admit
    v2b_z.Limiter.Check.check_device v2b_z.Limiter.Check.user_speed_limit trim_prefix quot mul64
    determine_speed_limit
check_limit-bucket_example =
    check_limit-bucket key home true true (pos 9) alice (limiter_of alice) refl refl refl

-- Another user connects in between.
abbrev others : List Call
others = record { user = text "n|c"; ip = away; is_tcp = true; no_ssudp = true; now = pos 60 } ∷ []

check_limit-locked_out_example :
    (check_limit key home true true
      (pos 90)
      (after_calls others (check_limit key home true true (pos 51) (limiter_of bob)).0)).2
    ≡ true
unfolding lookup text_beq is_expired
check_limit-locked_out_example =
    check_limit-locked_out key home home true true true true (pos 51) (pos 90) bob others
      (limiter_of bob) refl refl refl

get_online_device_lem_example :
    ((get_online_device (limiter_of alice)).1 ≡ all_devices (limiter_of alice).user_online_ip)
    × ((get_online_device (limiter_of alice)).0.user_online_ip ≡ [])
    × ((ip : Text)
        → lookup ip (get_online_device (limiter_of alice)).0.old_user_online
          ≡ last_uid ip (all_devices (limiter_of alice).user_online_ip))
get_online_device_lem_example = get_online_device_lem (limiter_of alice)

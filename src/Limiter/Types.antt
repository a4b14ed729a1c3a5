-- ===== src/Limiter/Types.antt =====
-- limiter/limiter.go, the types, and common/format/user.go. A `sync.Map` is a map. A pointer to a
-- `UserLimitInfo` or to an inner map stands in one entry only, so it is modelled by its value.
use v2b_z.Prelude.{◌≡◌, Bool, List, [], ◌∷◌, ◌++◌}
use v2b_z.Prelude.Int.{ℤ}
use v2b_z.Prelude.Text.{Text}
use v2b_z.Prelude.GoMap.{GoMap}

pub record UserLimitInfo : Type 0 where
  pub uid : ℤ
  pub speed_limit : ℤ
  pub device_limit : ℤ
  pub dynamic_speed_limit : ℤ
  pub expire_time : ℤ
  pub over_limit : Bool

-- A token bucket of the rate limiting package, by the arguments that it is made from: the interval
-- in nanoseconds, the capacity and the quantum in bytes.
pub record Bucket : Type 0 where
  pub fill_interval : ℤ
  pub capacity : ℤ
  pub quantum : ℤ

-- A compiled rule is its source expression.
pub record Limiter : Type 0 where
  pub domain_rules : List Text
  pub protocol_rules : List Text
  pub speed_limit : ℤ
  pub user_online_ip : GoMap Text (GoMap Text ℤ)
  pub old_user_online : GoMap Text ℤ
  pub uuid_to_uid : GoMap Text ℤ
  pub user_limit_info : GoMap Text UserLimitInfo
  pub speed_limiter : GoMap Text Bucket
  pub alive_list : GoMap ℤ ℤ

-- fmt.Sprintf("%s|%s", tag, uuid)
unfoldable pub user_tag : Text → Text → Text
user_tag tag uuid = tag ++ b'|' ∷ uuid

append_cancel : (p s t : Text) → p ++ s ≡ p ++ t → s ≡ t
append_cancel [] s t h = h
append_cancel (c ∷ p) s t h = append_cancel p s t (cc)

-- Under one tag different users have different keys.
pub user_tag_injective : (tag u v : Text) → user_tag tag u ≡ user_tag tag v → u ≡ v
unfolding user_tag
user_tag_injective tag u v h = let e = append_cancel tag (b'|' ∷ u) (b'|' ∷ v) h in cc

-- ===== src/Limiter/Users/Update.antt =====
-- limiter/limiter.go: what UpdateUser leaves for each user.
use v2b_z.Prelude.{◌≡◌, refl, List, [], ◌∷◌, Option, none, some, arith, ◌==◌, if◌then◌else◌}
use v2b_z.Prelude.Text.{Text, text_eq, text_beq_iff}
use v2b_z.Prelude.GoMap.{lookup, lookup-insert, lookup-delete}
use v2b_z.Panel.{UserInfo}
use v2b_z.Limiter.Types.{UserLimitInfo, Limiter, user_tag, user_tag_injective}
use v2b_z.Limiter.Users.{limit_info, forget_user, learn_user, each, update_user}

-- The last entry of a list of users for a uuid.
unfoldable pub last_user : Text → List UserInfo → Option UserInfo
last_user uuid [] = none
last_user uuid (u ∷ us) = elim (last_user uuid us) [
  | some v ↦ some v
  | none ↦ if u.uuid == uuid then some u else none
]

-- What the limiter knows of a uuid under a tag: the limits and the user id.
abbrev pub info_of : Text → Text → Limiter → Option UserLimitInfo
info_of tag uuid l = lookup (user_tag tag uuid) l.user_limit_info

abbrev pub learnt : Option UserInfo → Option UserLimitInfo → Option UserLimitInfo
learnt (some u) old = some (limit_info u)
learnt none old = old

abbrev pub forgotten {ℓ} : {A B : Type ℓ} → Option A → Option B → Option B
forgotten (some u) old = none
forgotten none old = old

user_tag-beq : (tag u v : Text) → (user_tag tag u == user_tag tag v) ≡ (u == v)
user_tag-beq tag u v = ground (
  arith,
  text_beq_iff u v,
  text_beq_iff (user_tag tag u) (user_tag tag v),
  user_tag_injective tag u v,
)

module _ (tag uuid : Text) where
  info_of-learn :
      (us : List UserInfo) (l : Limiter)
      → info_of tag uuid (each (learn_user tag) us l)
        ≡ learnt (last_user uuid us) (info_of tag uuid l)
  unfolding each learn_user last_user
  info_of-learn [] l = refl
  info_of-learn (u ∷ us) l = ground (
    arith,
    info_of-learn us (learn_user tag u l),
    user_tag-beq tag u.uuid uuid,
    lookup-insert (user_tag tag u.uuid) (user_tag tag uuid) (limit_info u) l.user_limit_info,
  )

  info_of-forget :
      (us : List UserInfo) (l : Limiter)
      → info_of tag uuid (each (forget_user tag) us l)
        ≡ forgotten (last_user uuid us) (info_of tag uuid l)
  unfolding each forget_user last_user
  info_of-forget [] l = refl
  info_of-forget (u ∷ us) l = ground (
    arith,
    info_of-forget us (forget_user tag u l),
    user_tag-beq tag u.uuid uuid,
    lookup-delete (user_tag tag u.uuid) (user_tag tag uuid) l.user_limit_info,
  )

  online-learn :
      (us : List UserInfo) (l : Limiter)
      → (each (learn_user tag) us l).user_online_ip ≡ l.user_online_ip
  unfolding each learn_user
  online-learn [] l = refl
  online-learn (u ∷ us) l = online-learn us (learn_user tag u l)

  bucket-learn :
      (us : List UserInfo) (l : Limiter)
      → (each (learn_user tag) us l).speed_limiter ≡ l.speed_limiter
  unfolding each learn_user
  bucket-learn [] l = refl
  bucket-learn (u ∷ us) l = bucket-learn us (learn_user tag u l)

  online-forget :
      (us : List UserInfo) (l : Limiter)
      → lookup (user_tag tag uuid) (each (forget_user tag) us l).user_online_ip
        ≡ forgotten (last_user uuid us) (lookup (user_tag tag uuid) l.user_online_ip)
  unfolding each forget_user last_user
  online-forget [] l = refl
  online-forget (u ∷ us) l = ground (
    arith,
    online-forget us (forget_user tag u l),
    user_tag-beq tag u.uuid uuid,
    lookup-delete (user_tag tag u.uuid) (user_tag tag uuid) l.user_online_ip,
  )

  bucket-forget :
      (us : List UserInfo) (l : Limiter)
      → lookup (user_tag tag uuid) (each (forget_user tag) us l).speed_limiter
        ≡ forgotten (last_user uuid us) (lookup (user_tag tag uuid) l.speed_limiter)
  unfolding each forget_user last_user
  bucket-forget [] l = refl
  bucket-forget (u ∷ us) l = ground (
    arith,
    bucket-forget us (forget_user tag u l),
    user_tag-beq tag u.uuid uuid,
    lookup-delete (user_tag tag u.uuid) (user_tag tag uuid) l.speed_limiter,
  )

  -- After update_user a uuid has the limits of its last entry among the added users; a deleted one
  -- that was not added again has none, and every other one those that it had; the bucket and the
  -- online devices are gone exactly for the deleted ones.
  pub lookup-update_user :
      (added deleted : List UserInfo) (l : Limiter)
      → (info_of tag uuid (update_user tag added deleted l)
          ≡ learnt (last_user uuid added) (forgotten (last_user uuid deleted) (info_of tag uuid l)))
        × (lookup (user_tag tag uuid) (update_user tag added deleted l).speed_limiter
            ≡ forgotten (last_user uuid deleted) (lookup (user_tag tag uuid) l.speed_limiter))
        × (lookup (user_tag tag uuid) (update_user tag added deleted l).user_online_ip
            ≡ forgotten (last_user uuid deleted) (lookup (user_tag tag uuid) l.user_online_ip))
  unfolding update_user
  lookup-update_user added deleted l =
      let l' = each (forget_user tag) deleted l in
      (
        rw (info_of-learn added l', info_of-forget deleted l),
        rw (bucket-learn added l', bucket-forget deleted l),
        rw (online-learn added l', online-forget deleted l),
      )

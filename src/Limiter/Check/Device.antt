-- ===== src/Limiter/Check/Device.antt =====
-- limiter/limiter.go: whom CheckLimit rejects, and what it leaves of the online devices.
use v2b_z.Prelude.{
  ◌≡◌, Bool, true, false, ◌&&◌, not, [], ◌∷◌, Option, none, some, arith, ◌==◌, if◌then◌else◌,
  Option-cases, inl, inr,
}
use v2b_z.Prelude.Int.{ℤ, pos, int_eq, ltb_ℤ, leb_ℤ}
use v2b_z.Prelude.Text.{Text, text, text_eq, text_beq_iff, trim_prefix}
use v2b_z.Prelude.GoMap.{lookup, insert, delete, get_or, lookup-insert, lookup-delete}
use v2b_z.Limiter.Types.{UserLimitInfo, Limiter}
use v2b_z.Limiter.Check.{
  over_device_limit, take_old, check_device, speed_bucket, admit, user_speed_limit, check_limit,
}

-- The user id under which an address is online for a user.
unfoldable pub online_uid : Text → Text → Limiter → Option ℤ
unfolding lookup
online_uid taguuid ip l = elim (lookup taguuid l.user_online_ip) [
  | none ↦ none
  | some m ↦ lookup ip m
]

-- The rule that the device check promises: an address that is not online yet, and was not in the
-- last period, is refused if the user's live devices have reached his limit.
unfoldable pub device_refused : Text → Text → UserLimitInfo → Limiter → Bool
unfolding online_uid
device_refused taguuid ip u l = elim (online_uid taguuid ip l) [
  | some _ ↦ false
  | none ↦ elim (lookup ip l.old_user_online) [
    | some _ ↦ false
    | none ↦
        ltb_ℤ (pos 0) u.device_limit && leb_ℤ u.device_limit (get_or (pos 0) u.uid l.alive_list)
  ]
]

unfoldable pub refused : Text → Text → Bool → Limiter → Bool
unfolding device_refused
refused taguuid ip no_ssudp l = elim (lookup taguuid l.user_limit_info) [
  | none ↦ true
  | some u ↦ no_ssudp && device_refused taguuid (trim_prefix ip (text "::ffff:")) u l
]

check_device_refused :
    (t ip : Text) (u : UserLimitInfo) (l : Limiter)
    → (check_device t ip u.uid u.device_limit l).1 ≡ device_refused t ip u l
unfolding check_device device_refused
check_device_refused t ip u l = ground arith

user_speed_limit-online :
    (t : Text) (now : ℤ) (u : UserLimitInfo) (l : Limiter)
    → ((user_speed_limit t now u l).0.user_online_ip ≡ l.user_online_ip)
      × ((user_speed_limit t now u l).0.old_user_online ≡ l.old_user_online)
      × ((user_speed_limit t now u l).0.alive_list ≡ l.alive_list)
      × ((user_speed_limit t now u l).0.speed_limiter ≡ l.speed_limiter)
      × ((user_speed_limit t now u l).0.speed_limit ≡ l.speed_limit)
unfolding user_speed_limit
user_speed_limit-online t now u l = ground arith

-- check_limit rejects a connection exactly when the device rule refuses it: the user is unknown, or
-- the connection is not exempt, its address (without the ::ffff: prefix) is neither online nor of
-- the last period, and the live devices have reached a positive limit.
pub check_limit-refused :
    (taguuid ip : Text) (is_tcp no_ssudp : Bool) (now : ℤ) (l : Limiter)
    → (check_limit taguuid ip is_tcp no_ssudp now l).2 ≡ refused taguuid ip no_ssudp l
unfolding check_limit refused user_speed_limit admit check_device over_device_limit
check_limit-refused taguuid ip is_tcp no_ssudp now l = ground arith

take_old-online :
    (t ip j : Text) (old uid : ℤ) (l : Limiter)
    → online_uid t j (take_old ip old uid l) ≡ online_uid t j l
unfolding online_uid take_old
take_old-online t ip j old uid l = ground arith

-- Every view of the online devices after the device check: a refused address leaves it as it was, and
-- an admitted one is added under its user, unless it was there.
check_device-online :
    (t ip s j : Text) (uid d : ℤ) (l : Limiter)
    → online_uid s j (check_device t ip uid d l).0 ≡ (
        if not (check_device t ip uid d l).1 && t == s && ip == j
        then elim (online_uid t ip l) [ some v ↦ some v | none ↦ some uid ]
        else online_uid s j l)
unfolding check_device online_uid lookup
check_device-online t ip s j uid d l = elim (Option-cases (lookup t l.user_online_ip)) [
  | inl e ↦ ground (
    arith,
    text_beq_iff t s,
    text_beq_iff ip j,
    lookup-insert t s ((ip, uid) ∷ []) l.user_online_ip,
    lookup-delete t s (insert t ((ip, uid) ∷ []) l.user_online_ip),
  )
  | inr (m, e) ↦ ground (
    arith,
    text_beq_iff t s,
    text_beq_iff ip j,
    lookup-insert t s (insert ip uid m) l.user_online_ip,
    lookup-insert t s (delete ip (insert ip uid m)) l.user_online_ip,
    lookup-insert ip j uid m,
    lookup-delete ip j (insert ip uid m),
  )
]

speed_bucket-online :
    (t s j : Text) (limit : ℤ) (l : Limiter)
    → online_uid s j (speed_bucket t limit l).0 ≡ online_uid s j l
unfolding speed_bucket online_uid
speed_bucket-online t s j limit l = ground arith

admit-online :
    (t ip s j : Text) (uid d limit : ℤ) (no_ssudp : Bool) (l : Limiter)
    → online_uid s j (admit t ip uid d limit no_ssudp l).0 ≡ (
        if no_ssudp && not (admit t ip uid d limit no_ssudp l).2 && t == s && ip == j
        then elim (online_uid t ip l) [ some v ↦ some v | none ↦ some uid ]
        else online_uid s j l)
unfolding admit
admit-online t ip s j uid d limit no_ssudp l = ground (
  arith,
  check_device-online t ip s j uid d l,
  speed_bucket-online t s j limit l,
  speed_bucket-online t s j limit (check_device t ip uid d l).0,
)

user_speed_limit-view :
    (t s j : Text) (now : ℤ) (u : UserLimitInfo) (l : Limiter)
    → online_uid s j (user_speed_limit t now u l).0 ≡ online_uid s j l
unfolding user_speed_limit online_uid
user_speed_limit-view t s j now u l = ground arith

-- For a known user, every view of the online devices after check_limit: only a served connection
-- that is not exempt makes its address online under the id of the user, unless it was online
-- before; nothing else changes.
pub check_limit-online :
    (t ip s j : Text) (is_tcp no_ssudp : Bool) (now : ℤ) (u : UserLimitInfo) (l : Limiter)
    → lookup t l.user_limit_info ≡ some u
    → online_uid s j (check_limit t ip is_tcp no_ssudp now l).0 ≡ (
        if no_ssudp
          && not (check_limit t ip is_tcp no_ssudp now l).2
          && t == s
          && trim_prefix ip (text "::ffff:") == j
        then elim (online_uid t (trim_prefix ip (text "::ffff:")) l) [
          | some v ↦ some v
          | none ↦ some u.uid
        ]
        else online_uid s j l)
unfolding check_limit
check_limit-online t ip s j is_tcp no_ssudp now u l known =
    let ip' = trim_prefix ip (text "::ffff:") in
    rw (known, check_limit)
      (ground (
        arith,
        admit-online t ip' s j u.uid u.device_limit (user_speed_limit t now u l).1 no_ssudp
            (user_speed_limit t now u l).0,
        user_speed_limit-view t s j now u l,
        user_speed_limit-view t t ip' now u l,
      ))

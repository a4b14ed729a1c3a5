-- ===== src/Limiter/Online/Period.antt =====
-- limiter/limiter.go: what GetOnlineDevice reports, and which devices it exempts in the next period.
use v2b_z.Prelude.{
  ◌≡◌, refl, ap, ◌∙◌, ◌||◌, Bool, true, false, List, [], ◌∷◌, ◌++◌, Option, none, some, arith, ◌==◌,
  if◌then◌else◌,
}
use mathlib.Core.List.{append-nil, append_assoc}
use v2b_z.Prelude.Int.{ℤ}
use v2b_z.Prelude.Text.{Text, text_eq, text_beq_iff}
use v2b_z.Prelude.GoMap.{GoMap, lookup, insert, delete, lookup-insert}
use v2b_z.Panel.{OnlineUser}
use v2b_z.Limiter.Types.{Limiter}
use v2b_z.Limiter.Online.{range_ips, range_users, get_online_device}

-- The online devices of one user, and of all.
abbrev pub devices : GoMap Text ℤ → List OnlineUser
devices [] = []
devices ((ip, uid) ∷ m) = record { uid = uid; ip = ip } ∷ devices m

abbrev pub all_devices : GoMap Text (GoMap Text ℤ) → List OnlineUser
all_devices [] = []
all_devices ((taguuid, m) ∷ rest) = devices m ++ all_devices rest

-- The last user that is listed with an address.
abbrev pub last_uid : Text → List OnlineUser → Option ℤ
last_uid ip [] = none
last_uid ip (d ∷ ds) = elim (last_uid ip ds) [
  | some uid ↦ some uid
  | none ↦ if d.ip == ip then some d.uid else none
]

or_else : Option ℤ → Option ℤ → Option ℤ
or_else (some a) b = some a
or_else none b = b

last_uid-append :
    (ip : Text) (xs ys : List OnlineUser)
    → last_uid ip (xs ++ ys) ≡ or_else (last_uid ip ys) (last_uid ip xs)
unfolding or_else
last_uid-append ip [] ys = ground arith
last_uid-append ip (x ∷ xs) ys = ground (arith, last_uid-append ip xs ys)

range_ips-online :
    (m : GoMap Text ℤ) (old : GoMap Text ℤ) (us : List OnlineUser)
    → (range_ips m (old, us)).1 ≡ us ++ devices m
unfolding range_ips
range_ips-online [] old us = simp append-nil
range_ips-online ((ip, uid) ∷ m) old us =
    range_ips-online m (insert ip uid old) (us ++ record { uid = uid; ip = ip } ∷ [])
    ∙ append_assoc us _ (devices m)

range_ips-old :
    (j : Text) (m : GoMap Text ℤ) (old : GoMap Text ℤ) (us : List OnlineUser)
    → lookup j (range_ips m (old, us)).0 ≡ or_else (last_uid j (devices m)) (lookup j old)
unfolding range_ips or_else
range_ips-old j [] old us = refl
range_ips-old j ((ip, uid) ∷ m) old us = ground (
  arith,
  range_ips-old j m (insert ip uid old) (us ++ record { uid = uid; ip = ip } ∷ []),
  lookup-insert ip j uid old,
)

range_users-online :
    (m : GoMap Text (GoMap Text ℤ)) (l : Limiter) (us : List OnlineUser)
    → (range_users m (l, us)).1 ≡ us ++ all_devices m
unfolding range_users
range_users-online [] l us = simp append-nil
range_users-online ((t, ips) ∷ m) l us =
    let l' = record l {
      old_user_online = (range_ips ips (l.old_user_online, us)).0;
      user_online_ip = delete t l.user_online_ip;
    } in
    range_users-online m l' (range_ips ips (l.old_user_online, us)).1
    ∙ ap (λ x. x ++ all_devices m) (range_ips-online ips l.old_user_online us)
    ∙ append_assoc us (devices ips) (all_devices m)

range_users-old :
    (j : Text) (m : GoMap Text (GoMap Text ℤ)) (l : Limiter) (us : List OnlineUser)
    → lookup j (range_users m (l, us)).0.old_user_online
      ≡ or_else (last_uid j (all_devices m)) (lookup j l.old_user_online)
unfolding range_users or_else
range_users-old j [] l us = refl
range_users-old j ((t, ips) ∷ m) l us =
    let l' = record l {
      old_user_online = (range_ips ips (l.old_user_online, us)).0;
      user_online_ip = delete t l.user_online_ip;
    } in
    ground (
      arith,
      range_users-old j m l' (range_ips ips (l.old_user_online, us)).1,
      range_ips-old j ips l.old_user_online us,
      last_uid-append j (devices ips) (all_devices m),
    )

-- The users of a map of online devices, deleted one after the other.
delete_all : GoMap Text (GoMap Text ℤ) → GoMap Text (GoMap Text ℤ) → GoMap Text (GoMap Text ℤ)
delete_all [] m = m
delete_all ((t, _) ∷ ks) m = delete_all ks (delete t m)

range_users-left :
    (m : GoMap Text (GoMap Text ℤ)) (l : Limiter) (us : List OnlineUser)
    → (range_users m (l, us)).0.user_online_ip ≡ delete_all m l.user_online_ip
unfolding range_users delete_all
range_users-left [] l us = refl
range_users-left ((t, ips) ∷ m) l us =
    range_users-left m
      (record l {
        old_user_online = (range_ips ips (l.old_user_online, us)).0;
        user_online_ip = delete t l.user_online_ip;
      })
      (range_ips ips (l.old_user_online, us)).1

delete_all-nil : (ks : GoMap Text (GoMap Text ℤ)) → delete_all ks [] ≡ []
unfolding delete_all delete
delete_all-nil [] = refl
delete_all-nil ((t, m) ∷ ks) = delete_all-nil ks

names : Text → GoMap Text (GoMap Text ℤ) → Bool
names t [] = false
names t ((k, _) ∷ ks) = k == t || names t ks

delete_all-cons :
    (ks : GoMap Text (GoMap Text ℤ)) (t : Text) (m : GoMap Text ℤ)
    (rest : GoMap Text (GoMap Text ℤ))
    → delete_all ks ((t, m) ∷ rest)
      ≡ (if names t ks then delete_all ks rest else (t, m) ∷ delete_all ks rest)
unfolding delete_all delete names
delete_all-cons [] t m rest = refl
delete_all-cons ((k, n) ∷ ks) t m rest =
    ground (arith, delete_all-cons ks t m (delete k rest), text_beq_iff t k, text_beq_iff k t)

-- All names of the second list are names of the first.
AllNamed : GoMap Text (GoMap Text ℤ) → GoMap Text (GoMap Text ℤ) → Type 0
AllNamed ks [] = Unit
AllNamed ks ((t, m) ∷ rest) = (names t ks ≡ true) × AllNamed ks rest

AllNamed-cons :
    (k : Text) (n : GoMap Text ℤ) (ks m : GoMap Text (GoMap Text ℤ))
    → AllNamed ks m
    → AllNamed ((k, n) ∷ ks) m
unfolding AllNamed names
AllNamed-cons k n ks [] h = tt
AllNamed-cons k n ks ((t, x) ∷ m) h = (ground (arith, h.0), AllNamed-cons k n ks m h.1)

AllNamed-refl : (m : GoMap Text (GoMap Text ℤ)) → AllNamed m m
unfolding AllNamed names
AllNamed-refl [] = tt
AllNamed-refl ((t, x) ∷ m) =
    (ground (arith, text_beq_iff t t), AllNamed-cons t x m m (AllNamed-refl m))

delete_all-AllNamed : (ks m : GoMap Text (GoMap Text ℤ)) → AllNamed ks m → delete_all ks m ≡ []
unfolding AllNamed
delete_all-AllNamed ks [] h = delete_all-nil ks
delete_all-AllNamed ks ((t, x) ∷ m) h =
    ground (arith, h.0, delete_all-cons ks t x m, delete_all-AllNamed ks m h.1)

-- get_online_device reports each online device once, in the order of the map; then no device is
-- online, and an address is remembered under the last user that was reported with it.
pub get_online_device_lem :
    (l : Limiter)
    → ((get_online_device l).1 ≡ all_devices l.user_online_ip)
      × ((get_online_device l).0.user_online_ip ≡ [])
      × ((ip : Text)
          → lookup ip (get_online_device l).0.old_user_online
            ≡ last_uid ip (all_devices l.user_online_ip))
unfolding get_online_device or_else lookup
get_online_device_lem l =
    let l' = record l { old_user_online = [] } in
    (
      range_users-online l.user_online_ip l' [],
      range_users-left l.user_online_ip l' []
          ∙ delete_all-AllNamed l.user_online_ip l.user_online_ip (AllNamed-refl l.user_online_ip),
      λ ip. ground (arith, range_users-old ip l.user_online_ip l' []),
    )

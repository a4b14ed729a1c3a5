-- ===== src/Limiter/Check/Bandwidth.antt =====
-- limiter/limiter.go: the bucket that CheckLimit hands out, and what an expired limit does.
use v2b_z.Prelude.{
  ℕ, ◌≡◌, ap, ◌∙◌, ◌*◌, ◌/◌, ◌<◌, ◌^◌, Bool, true, false, List, [], ◌∷◌, none, some, arith,
  Option-cases, inl, inr, if◌then◌else◌,
}
use v2b_z.Prelude.Int.{ℤ, pos, int_eq, int_beq_iff, ltb_ℤ, mul64, quot, wrap64, wrap64_lem, ◌*ℤ◌}
use v2b_z.Prelude.Text.{Text, text, text_eq, text_beq_iff, trim_prefix}
use v2b_z.Prelude.GoMap.{
  lookup, lookup-insert, lookup-delete, lookup-insert_self, lookup-delete_self,
}
use v2b_z.Limiter.Types.{UserLimitInfo, Bucket, Limiter}
use v2b_z.Limiter.Speed.{determine_speed_limit}
use v2b_z.Limiter.Check.{
  is_expired, user_speed_limit, check_device, byte_rate, bucket_of, speed_bucket, admit,
  check_limit,
}

mul_pos : (n : ℕ) → pos n *ℤ pos 1000000 ≡ pos (n * 1000000)
unfolding ◌*ℤ◌
mul_pos n = ground arith

mul64_pos : (n : ℕ) → n < 2 ^ 40 → mul64 (pos n) (pos 1000000) ≡ pos (n * 1000000)
unfolding mul64
mul64_pos n h = ap wrap64 (mul_pos n) ∙ wrap64_lem (pos (n * 1000000)) (omega arith)

eighth : (n : ℕ) → n * 1000000 / 8 ≡ n * 125000
eighth n = omega arith

-- A limit of n megabits per second is n * 125000 bytes per second, without overflow.
pub byte_rate_lem : (n : ℕ) → n < 2 ^ 40 → byte_rate (pos n) ≡ pos (n * 125000)
unfolding byte_rate quot
byte_rate_lem n h = rw (mul64_pos n h) (ap pos (eighth n))

-- The limit that is in force for a user at a time.
unfoldable pub limit_in_force : ℤ → UserLimitInfo → Limiter → ℤ
unfolding is_expired
limit_in_force now u l = determine_speed_limit l.speed_limit (
    if is_expired now u
    then u.speed_limit
    else determine_speed_limit u.speed_limit u.dynamic_speed_limit)

check_device-buckets :
    (t ip : Text) (uid d : ℤ) (l : Limiter)
    → ((check_device t ip uid d l).0.speed_limiter ≡ l.speed_limiter)
      × ((check_device t ip uid d l).0.speed_limit ≡ l.speed_limit)
      × ((check_device t ip uid d l).0.user_limit_info ≡ l.user_limit_info)
unfolding check_device
check_device-buckets t ip uid d l = ground arith

-- The bucket that a user has, or the one that is made for a rate.
abbrev pub kept_bucket : Text → ℤ → Limiter → Bucket
kept_bucket t rate l = elim (lookup t l.speed_limiter) [ some b ↦ b | none ↦ bucket_of rate ]

abbrev rate_of : ℤ → Limiter → ℤ
rate_of limit l = byte_rate (determine_speed_limit l.speed_limit limit)

speed_bucket_lem :
    (t : Text) (limit : ℤ) (l : Limiter)
    → ltb_ℤ (pos 0) (rate_of limit l) ≡ true
    → ((speed_bucket t limit l).1 ≡ some (kept_bucket t (rate_of limit l) l))
      × (lookup t (speed_bucket t limit l).0.speed_limiter
          ≡ some (kept_bucket t (rate_of limit l) l))
unfolding speed_bucket
speed_bucket_lem t limit l h =
    ground (arith, lookup-insert_self t (bucket_of (rate_of limit l)) l.speed_limiter)

user_speed_limit_lem :
    (t : Text) (now : ℤ) (u : UserLimitInfo) (l : Limiter)
    → (determine_speed_limit l.speed_limit (user_speed_limit t now u l).1 ≡ limit_in_force now u l)
      × ((user_speed_limit t now u l).0.speed_limiter ≡ l.speed_limiter)
      × ((user_speed_limit t now u l).0.speed_limit ≡ l.speed_limit)
unfolding user_speed_limit limit_in_force
user_speed_limit_lem t now u l = ground (arith, int_beq_iff u.speed_limit (pos 0))

admit-bucket :
    (t ip : Text) (uid d limit : ℤ) (no_ssudp : Bool) (l : Limiter)
    → (admit t ip uid d limit no_ssudp l).2 ≡ false
    → ltb_ℤ (pos 0) (rate_of limit l) ≡ true
    → ((admit t ip uid d limit no_ssudp l).1 ≡ some (kept_bucket t (rate_of limit l) l))
      × (lookup t (admit t ip uid d limit no_ssudp l).0.speed_limiter
          ≡ some (kept_bucket t (rate_of limit l) l))
unfolding admit
admit-bucket t ip uid d limit true l h k = ground (
  arith,
  check_device-buckets t ip uid d l,
  speed_bucket_lem t limit (check_device t ip uid d l).0,
)
admit-bucket t ip uid d limit false l h k = ground (arith, speed_bucket_lem t limit l)

-- A known user who is served under a positive limit in force gets the bucket that he already has,
-- and else a new one for that limit; the user has it from then on.
pub check_limit-bucket :
    (t ip : Text) (is_tcp no_ssudp : Bool) (now : ℤ) (u : UserLimitInfo) (l : Limiter)
    → lookup t l.user_limit_info ≡ some u
    → (check_limit t ip is_tcp no_ssudp now l).2 ≡ false
    → ltb_ℤ (pos 0) (byte_rate (limit_in_force now u l)) ≡ true
    → ((check_limit t ip is_tcp no_ssudp now l).1
        ≡ some (kept_bucket t (byte_rate (limit_in_force now u l)) l))
      × (lookup t (check_limit t ip is_tcp no_ssudp now l).0.speed_limiter
          ≡ some (kept_bucket t (byte_rate (limit_in_force now u l)) l))
unfolding check_limit
check_limit-bucket t ip is_tcp no_ssudp now u l known served limited = ground (
  arith,
  user_speed_limit_lem t now u l,
  admit-bucket t (trim_prefix ip (text "::ffff:")) u.uid u.device_limit
      (user_speed_limit t now u l).1 no_ssudp (user_speed_limit t now u l).0,
)

speed_bucket-infos :
    (t : Text) (limit : ℤ) (l : Limiter)
    → (speed_bucket t limit l).0.user_limit_info ≡ l.user_limit_info
unfolding speed_bucket
speed_bucket-infos t limit l = ground arith

admit-infos :
    (t ip : Text) (uid d limit : ℤ) (no_ssudp : Bool) (l : Limiter)
    → (admit t ip uid d limit no_ssudp l).0.user_limit_info ≡ l.user_limit_info
unfolding admit
admit-infos t ip uid d limit no_ssudp l = ground (
  arith,
  check_device-buckets t ip uid d l,
  speed_bucket-infos t limit l,
  speed_bucket-infos t limit (check_device t ip uid d l).0,
)

check_limit_unknown :
    (t ip : Text) (is_tcp no_ssudp : Bool) (now : ℤ) (l : Limiter)
    → lookup t l.user_limit_info ≡ none
    → (check_limit t ip is_tcp no_ssudp now l).2 ≡ true
unfolding check_limit
check_limit_unknown t ip is_tcp no_ssudp now l h = rw (h, check_limit)

-- A call of CheckLimit.
pub record Call : Type 0 where
  pub user : Text
  pub ip : Text
  pub is_tcp : Bool
  pub no_ssudp : Bool
  pub now : ℤ

unfoldable pub after_calls : List Call → Limiter → Limiter
after_calls [] l = l
after_calls (c ∷ cs) l = after_calls cs (check_limit c.user c.ip c.is_tcp c.no_ssudp c.now l).0

user_speed_limit-forgotten :
    (t other : Text) (now : ℤ) (u : UserLimitInfo) (l : Limiter)
    → lookup other l.user_limit_info ≡ some u
    → lookup t l.user_limit_info ≡ none
    → lookup t (user_speed_limit other now u l).0.user_limit_info ≡ none
unfolding user_speed_limit
user_speed_limit-forgotten t other now u l known gone = ground (
  arith,
  known,
  gone,
  text_beq_iff other t,
  lookup-delete other t l.user_limit_info,
  lookup-insert other t (record u { dynamic_speed_limit = pos 0; expire_time = pos 0 })
      l.user_limit_info,
)

check_limit-forgotten :
    (t : Text) (c : Call) (l : Limiter)
    → lookup t l.user_limit_info ≡ none
    → lookup t (check_limit c.user c.ip c.is_tcp c.no_ssudp c.now l).0.user_limit_info ≡ none
unfolding check_limit
check_limit-forgotten t c l gone = elim (Option-cases (lookup c.user l.user_limit_info)) [
  | inl e ↦ rw (e, check_limit) gone
  | inr (u, e) ↦
      let l' = (user_speed_limit c.user c.now u l).0 in
      rw (e, check_limit)
        (ground (
          arith,
          admit-infos c.user (trim_prefix c.ip (text "::ffff:")) u.uid u.device_limit
              (user_speed_limit c.user c.now u l).1 c.no_ssudp l',
          user_speed_limit-forgotten t c.user c.now u l e gone,
        ))
]

after_calls-forgotten :
    (t : Text) (cs : List Call) (l : Limiter)
    → lookup t l.user_limit_info ≡ none
    → lookup t (after_calls cs l).user_limit_info ≡ none
unfolding after_calls
after_calls-forgotten t [] l gone = gone
after_calls-forgotten t (c ∷ cs) l gone =
    after_calls-forgotten t cs (check_limit c.user c.ip c.is_tcp c.no_ssudp c.now l).0
      (check_limit-forgotten t c l gone)

-- Once a known user who has no speed limit of his own, and whose dynamic limit has run out, has
-- connected, each of his connections is rejected, from any address, at any time and after any calls of
-- CheckLimit in between, as long as the limiter is changed by nothing else.
pub check_limit-locked_out :
    (t ip j : Text) (is_tcp no_ssudp is_tcp' no_ssudp' : Bool) (now later : ℤ) (u : UserLimitInfo)
    (cs : List Call) (l : Limiter)
    → lookup t l.user_limit_info ≡ some u
    → is_expired now u ≡ true
    → u.speed_limit ≡ pos 0
    → (check_limit t j is_tcp' no_ssudp' later
        (after_calls cs (check_limit t ip is_tcp no_ssudp now l).0)).2
      ≡ true
unfolding check_limit user_speed_limit
check_limit-locked_out t ip j is_tcp no_ssudp is_tcp' no_ssudp' now later u cs l known expired
      unlimited =
    check_limit_unknown t j is_tcp' no_ssudp' later
      (after_calls cs (check_limit t ip is_tcp no_ssudp now l).0)
      (after_calls-forgotten t cs (check_limit t ip is_tcp no_ssudp now l).0 (
        rw (known, check_limit)
          (ground (
            arith,
            admit-infos t (trim_prefix ip (text "::ffff:")) u.uid u.device_limit
                (user_speed_limit t now u l).1 no_ssudp (user_speed_limit t now u l).0,
            lookup-delete_self t l.user_limit_info,
          ))))

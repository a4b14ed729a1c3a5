-- ===== src/Limiter/Check/Kept.antt =====
-- limiter/limiter.go: CheckLimit leaves the rules of the limiter as they are.
use v2b_z.Prelude.{◌≡◌, Bool, arith}
use v2b_z.Prelude.Int.{ℤ}
use v2b_z.Prelude.Text.{Text}
use v2b_z.Limiter.Types.{UserLimitInfo, Limiter}
use v2b_z.Limiter.Check.{check_device, speed_bucket, admit, user_speed_limit, check_limit, take_old}

-- The two limiters have the same rules.
abbrev pub SameRules : Limiter → Limiter → Type 0
SameRules l l' = (l.domain_rules ≡ l'.domain_rules) × (l.protocol_rules ≡ l'.protocol_rules)

user_speed_limit-rules :
    (t : Text) (now : ℤ) (u : UserLimitInfo) (l : Limiter)
    → SameRules (user_speed_limit t now u l).0 l
unfolding user_speed_limit
user_speed_limit-rules t now u l = ground arith

check_device-rules :
    (t ip : Text) (uid limit : ℤ) (l : Limiter) → SameRules (check_device t ip uid limit l).0 l
unfolding check_device take_old
check_device-rules t ip uid limit l = ground arith

speed_bucket-rules : (t : Text) (limit : ℤ) (l : Limiter) → SameRules (speed_bucket t limit l).0 l
unfolding speed_bucket
speed_bucket-rules t limit l = ground arith

admit-rules :
    (t ip : Text) (uid limit speed : ℤ) (no_ssudp : Bool) (l : Limiter)
    → SameRules (admit t ip uid limit speed no_ssudp l).0 l
unfolding admit
admit-rules t ip uid limit speed no_ssudp l = grind (arith, check_device-rules, speed_bucket-rules)

pub check_limit-rules :
    (t ip : Text) (is_tcp no_ssudp : Bool) (now : ℤ) (l : Limiter)
    → SameRules (check_limit t ip is_tcp no_ssudp now l).0 l
unfolding check_limit
check_limit-rules t ip is_tcp no_ssudp now l = grind (arith, user_speed_limit-rules, admit-rules)

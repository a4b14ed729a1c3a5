-- ===== src/Node/Report.antt =====
-- node/user.go: reportUserTrafficTask, and the online users that it reports.
pub mod Online
use v2b_z.Prelude.{
  ℕ, Bool, true, false, List, [], ◌∷◌, ◌++◌, Option, none, some, ◌==◌, if◌then◌else◌,
}
use v2b_z.Prelude.Int.{ℤ, pos, int_eq, ltb_ℤ, add64, mul64}
use v2b_z.Prelude.Text.{Text}
use v2b_z.Prelude.GoMap.{GoMap, lookup, insert, has, get_or}
use v2b_z.Panel.{OnlineUser, UserTraffic}

-- The set of users whose traffic is too low to count.
unfoldable pub nocount_uids : ℤ → List UserTraffic → GoMap ℤ (Unit {0}) → GoMap ℤ (Unit {0})
nocount_uids min_traffic [] m = m
nocount_uids min_traffic (t ∷ ts) m = nocount_uids min_traffic ts (
    if ltb_ℤ (add64 t.upload t.download) (mul64 min_traffic (pos 1000))
    then insert t.uid tt m
    else m)

unfoldable pub counted : GoMap ℤ (Unit {0}) → List OnlineUser → List OnlineUser
counted nocount [] = []
counted nocount (o ∷ os) = if has o.uid nocount then counted nocount os else o ∷ counted nocount os

unfoldable pub group_by_uid : List OnlineUser → GoMap ℤ (List Text) → GoMap ℤ (List Text)
group_by_uid [] m = m
group_by_uid (o ∷ os) m = group_by_uid os (insert o.uid (get_or [] o.uid m ++ o.ip ∷ []) m)

-- The data of the report, from the traffic and the online devices of the period; `none` if no device
-- was online and no report is made.
unfoldable pub online_report : ℤ → List UserTraffic → List OnlineUser → Option (GoMap ℤ (List Text))
unfolding nocount_uids counted group_by_uid
online_report min_traffic traffic [] = none
online_report min_traffic traffic (o ∷ os) =
    some (group_by_uid (counted (nocount_uids min_traffic traffic []) (o ∷ os)) [])

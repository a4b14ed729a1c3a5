-- ===== src/Node/Report/Online.antt =====
-- node/user.go: which devices are reported.
use v2b_z.Prelude.{Bool-cases, inl, inr}
use v2b_z.Prelude.{◌&&◌}
use v2b_z.Prelude.{
  ◌≡◌, refl, ap, ◌∙◌, ◌||◌, Bool, false, List, [], ◌∷◌, ◌++◌, some, arith, ◌==◌, if◌then◌else◌,
}
use mathlib.Core.List.{append-nil, append_assoc}
use v2b_z.Prelude.Int.{ℤ, pos, int_eq, int_beq_iff, ltb_ℤ, add64, mul64}
use v2b_z.Prelude.Text.{Text}
use v2b_z.Prelude.GoMap.{GoMap, lookup, insert, has, get_or, lookup-insert}
use v2b_z.Panel.{OnlineUser, UserTraffic}
use v2b_z.Node.Report.{nocount_uids, counted, group_by_uid, online_report}

-- The user has an entry with too little traffic.
abbrev pub is_low : ℤ → ℤ → List UserTraffic → Bool
is_low min_traffic uid [] = false
is_low min_traffic uid (t ∷ ts) =
    (t.uid == uid && ltb_ℤ (add64 t.upload t.download) (mul64 min_traffic (pos 1000)))
    || is_low min_traffic uid ts

abbrev pub ips_of : ℤ → List OnlineUser → List Text
ips_of uid [] = []
ips_of uid (o ∷ os) = if o.uid == uid then o.ip ∷ ips_of uid os else ips_of uid os

has-nocount_uids :
    (min_traffic uid : ℤ) (ts : List UserTraffic) (m : GoMap ℤ (Unit {0}))
    → has uid (nocount_uids min_traffic ts m) ≡ (is_low min_traffic uid ts || has uid m)
unfolding nocount_uids has
has-nocount_uids min_traffic uid [] m = refl
has-nocount_uids min_traffic uid (t ∷ ts) m = ground (
  arith,
  has-nocount_uids min_traffic uid ts m,
  has-nocount_uids min_traffic uid ts (insert t.uid tt m),
  lookup-insert t.uid uid tt m,
)

ips_of-counted :
    (uid : ℤ) (nocount : GoMap ℤ (Unit {0})) (os : List OnlineUser)
    → ips_of uid (counted nocount os) ≡ (if has uid nocount then [] else ips_of uid os)
unfolding counted
ips_of-counted uid nocount [] = ground arith
ips_of-counted uid nocount (o ∷ os) =
    ground (arith, ips_of-counted uid nocount os, int_beq_iff o.uid uid)

get_or-insert :
    (j k : ℤ) (v : List Text) (m : GoMap ℤ (List Text))
    → get_or [] k (insert j v m) ≡ (if j == k then v else get_or [] k m)
unfolding get_or
get_or-insert j k v m = ground (arith, lookup-insert j k v m)

ips-group_by_uid :
    (uid : ℤ) (os : List OnlineUser) (m : GoMap ℤ (List Text))
    → get_or [] uid (group_by_uid os m) ≡ get_or [] uid m ++ ips_of uid os
unfolding group_by_uid
ips-group_by_uid uid [] m = simp append-nil
ips-group_by_uid uid (o ∷ os) m =
    let m' = insert o.uid (get_or [] o.uid m ++ o.ip ∷ []) m in
    elim (Bool-cases (o.uid == uid)) [
      | inl e ↦ rw (e) (
          ips-group_by_uid uid os m'
          ∙ ap (λ x. x ++ ips_of uid os)
              (get_or-insert o.uid uid (get_or [] o.uid m ++ o.ip ∷ []) m)
          ∙ rw (e, (int_beq_iff o.uid uid).0 e)
              (append_assoc (get_or [] uid m) (o.ip ∷ []) (ips_of uid os)))
      | inr e ↦ rw (e) (
          ips-group_by_uid uid os m'
          ∙ ap (λ x. x ++ ips_of uid os)
              (get_or-insert o.uid uid (get_or [] o.uid m ++ o.ip ∷ []) m)
          ∙ rw e)
    ]

-- A report that is made has for each user the addresses of his online devices in order, but none of
-- a user who has a traffic entry below the minimum; a user without a traffic entry is reported.
pub online_report_lem :
    (min_traffic uid : ℤ) (traffic : List UserTraffic) (online : List OnlineUser)
    (data' : GoMap ℤ (List Text))
    → online_report min_traffic traffic online ≡ some data'
    → get_or [] uid data' ≡ (if is_low min_traffic uid traffic then [] else ips_of uid online)
unfolding online_report has lookup get_or
online_report_lem min_traffic uid traffic [] data' h = cc
online_report_lem min_traffic uid traffic (o ∷ os) data' h =
    let noc = nocount_uids min_traffic traffic [] in
    ground (
      arith,
      ips-group_by_uid uid (counted noc (o ∷ os)) [],
      ips_of-counted uid noc (o ∷ os),
      has-nocount_uids min_traffic uid traffic [],
    )

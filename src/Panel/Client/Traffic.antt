-- ===== src/Panel/Client/Traffic.antt =====
-- api/panel/user.go: the sums that ReportUserTraffic pushes.
use v2b_z.Prelude.{
  ◌≡◌, refl, ap, ◌∙◌, true, List, [], ◌∷◌, Option, none, some, ◌==◌, arith, if◌then◌else◌,
  Bool-cases, inl, inr, ==_iff,
}
use v2b_z.Prelude.Int.{ℤ, int_eq, add64}
use v2b_z.Prelude.GoMap.{GoMap, lookup, lookup-insert}
use v2b_z.Panel.{UserTraffic}
use v2b_z.Panel.Client.{add_traffic, sum_traffic}

-- The entries of one user.
unfoldable pub entries_of : ℤ → List UserTraffic → List UserTraffic
entries_of uid [] = []
entries_of uid (t ∷ ts) = let rest = entries_of uid ts in if t.uid == uid then t ∷ rest else rest

-- Their sums, behind what there was.
unfoldable pub plus : Option (ℤ × ℤ) → UserTraffic → ℤ × ℤ
plus none t = (t.upload, t.download)
plus (some (up, down)) t = (add64 up t.upload, add64 down t.download)

unfoldable pub sums_from : Option (ℤ × ℤ) → List UserTraffic → Option (ℤ × ℤ)
sums_from acc [] = acc
sums_from acc (t ∷ ts) = sums_from (some (plus acc t)) ts

lookup-add_traffic :
    (uid : ℤ) (t : UserTraffic) (sums : GoMap ℤ (ℤ × ℤ))
    → lookup uid (add_traffic t sums)
      ≡ (if t.uid == uid then some (plus (lookup t.uid sums) t) else lookup uid sums)
unfolding add_traffic plus
lookup-add_traffic uid t sums = grind (arith, lookup-insert)

own :
    (uid : ℤ) (t : UserTraffic) (sums : GoMap ℤ (ℤ × ℤ))
    → (t.uid == uid) ≡ true
    → (if t.uid == uid then some (plus (lookup t.uid sums) t) else lookup uid sums)
      ≡ some (plus (lookup uid sums) t)
own uid t sums h = rw (h, (==_iff t.uid uid).0 h)

sum_traffic-from :
    (uid : ℤ) (ts : List UserTraffic) (sums : GoMap ℤ (ℤ × ℤ))
    → lookup uid (sum_traffic ts sums) ≡ sums_from (lookup uid sums) (entries_of uid ts)
unfolding sum_traffic sums_from entries_of
sum_traffic-from uid [] sums = refl
sum_traffic-from uid (t ∷ ts) sums =
    let ih = sum_traffic-from uid ts (add_traffic t sums) in
    let e = lookup-add_traffic uid t sums in
    elim (Bool-cases (t.uid == uid)) [
      | inl same ↦
          rw same (ih ∙ ap (λ o. sums_from o (entries_of uid ts)) (e ∙ own uid t sums same))
      | inr other ↦ rw other (ih ∙ ap (λ o. sums_from o (entries_of uid ts)) (rw other at e))
    ]

-- What is pushed of a user are the sums, wrapped to 64 bits, of his entries, in order; a user
-- without entries is not pushed.
pub sum_traffic_lem :
    (uid : ℤ) (ts : List UserTraffic)
    → lookup uid (sum_traffic ts []) ≡ sums_from none (entries_of uid ts)
unfolding lookup
sum_traffic_lem uid ts = sum_traffic-from uid ts []

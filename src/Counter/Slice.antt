-- ===== src/Counter/Slice.antt =====
-- The loop of GetUserTrafficSlice, which core/hy2/user.go, core/sing/user.go and core/xray/user.go
-- share word for word: the users with more traffic than the node's minimum, and the reset of theirs.
use v2b_z.Prelude.{
  ℕ, ◌≡◌, refl, ap, ◌∙◌, Bool, true, false, List, [], ◌∷◌, ◌++◌, Option, none, some, arith, ◌==◌,
  if◌then◌else◌,
}
use mathlib.Core.List.{append-nil, append_assoc}
use v2b_z.Prelude.Int.{ℤ, pos, add64, ltb_ℤ, int_eq}
use v2b_z.Prelude.Text.{Text, text_eq, text_beq_iff}
use v2b_z.Prelude.GoMap.{GoMap, lookup, insert, delete, get_or, lookup-insert, lookup-delete}
use v2b_z.Panel.{UserTraffic}
use v2b_z.Counter.{TrafficStorage, TrafficCounter, zero_storage}

-- up+down > minimum
unfoldable pub is_over : ℤ → TrafficStorage → Bool
is_over minimum s = ltb_ℤ minimum (add64 s.up_counter s.down_counter)

zero_over : (n : ℕ) → is_over (pos n) zero_storage ≡ false
unfolding is_over add64
zero_over n = ground arith

-- The keys of a Go map are distinct.
abbrev pub IsDistinct : TrafficCounter → Type 0
IsDistinct [] = Unit
IsDistinct ((k, s) ∷ m) = (lookup k m ≡ none) × IsDistinct m

module _ (minimum : ℤ) (reset : Bool) (uids : GoMap Text ℤ) where
  -- The function that Range calls at an entry.
  unfoldable pub visit :
      Text → TrafficStorage → TrafficCounter × List UserTraffic → TrafficCounter × List UserTraffic
  visit k s (c, slice) =
      if is_over minimum s
      then (let c' = if reset then insert k zero_storage c else c in
          if get_or (pos 0) k uids == pos 0 then (delete k c', slice) else (
            c',
            slice
                ++ record {
                  uid = get_or (pos 0) k uids;
                  upload = s.up_counter;
                  download = s.down_counter;
                }
                  ∷ [],
          ))
      else (c, slice)

  -- Range visits the entries that the map had at its start.
  unfoldable pub range_traffic :
      TrafficCounter → TrafficCounter × List UserTraffic → TrafficCounter × List UserTraffic
  range_traffic [] p = p
  range_traffic ((k, s) ∷ m) p = range_traffic m (visit k s p)

  unfoldable pub traffic_slice : TrafficCounter → TrafficCounter × List UserTraffic
  traffic_slice c = range_traffic c (c, [])

  -- What is reported of one entry, and of all.
  abbrev pub reported : Text → TrafficStorage → List UserTraffic
  reported k s =
      if is_over minimum s
      then (if get_or (pos 0) k uids == pos 0
          then []
          else record {
            uid = get_or (pos 0) k uids;
            upload = s.up_counter;
            download = s.down_counter;
          }
            ∷ [])
      else []

  abbrev pub all_reported : TrafficCounter → List UserTraffic
  all_reported [] = []
  all_reported ((k, s) ∷ m) = reported k s ++ all_reported m

  -- What is left of one entry.
  abbrev pub left_over : Text → TrafficStorage → Option TrafficStorage
  left_over k s =
      if is_over minimum s
      then (if get_or (pos 0) k uids == pos 0
          then none
          else if reset
          then some zero_storage
          else some s)
      else some s

  visit-reported :
      (k : Text) (s : TrafficStorage) (p : TrafficCounter × List UserTraffic)
      → (visit k s p).1 ≡ p.1 ++ reported k s
  unfolding visit
  visit-reported k s p = ground (arith, append-nil p.1)

  range_traffic-reported :
      (m : TrafficCounter) (p : TrafficCounter × List UserTraffic)
      → (range_traffic m p).1 ≡ p.1 ++ all_reported m
  unfolding range_traffic
  range_traffic-reported [] p = simp append-nil
  range_traffic-reported ((k, s) ∷ m) p =
      range_traffic-reported m (visit k s p)
      ∙ ap (λ x. x ++ all_reported m) (visit-reported k s p)
      ∙ append_assoc p.1 (reported k s) (all_reported m)

  abbrev settle : Text → TrafficStorage → Option TrafficStorage → Option TrafficStorage
  settle k s old =
      if is_over minimum s
      then (if get_or (pos 0) k uids == pos 0
          then none
          else if reset
          then some zero_storage
          else old)
      else old

  visit-left :
      (j k : Text) (s : TrafficStorage) (p : TrafficCounter × List UserTraffic)
      → lookup j (visit k s p).0 ≡ (if k == j then settle k s (lookup j p.0) else lookup j p.0)
  unfolding visit
  visit-left j k s p = ground (
    arith,
    lookup-insert k j zero_storage p.0,
    lookup-delete k j p.0,
    lookup-delete k j (insert k zero_storage p.0),
  )

  range_traffic-left :
      (j : Text) (m : TrafficCounter) (p : TrafficCounter × List UserTraffic)
      → IsDistinct m
      → lookup j (range_traffic m p).0
        ≡ elim (lookup j m) [ none ↦ lookup j p.0 | some s ↦ settle j s (lookup j p.0) ]
  unfolding range_traffic lookup
  range_traffic-left j [] p d = refl
  range_traffic-left j ((k, s) ∷ m) p d =
      ground (arith, range_traffic-left j m (visit k s p) d.1, visit-left j k s p, text_beq_iff k j)

  -- For a map with distinct keys, the slice has an entry with all traffic for each known user over
  -- the minimum; what is left of a user is what he had if he is not over the minimum, else nothing
  -- if he is unknown, and else zero with a reset and what he had without.
  pub traffic_slice_lem :
      (c : TrafficCounter)
      → IsDistinct c
      → ((traffic_slice c).1 ≡ all_reported c)
        × ((j : Text)
            → lookup j (traffic_slice c).0
              ≡ elim (lookup j c) [ none ↦ none | some s ↦ left_over j s ])
  unfolding traffic_slice
  traffic_slice_lem c d =
      (range_traffic-reported c (c, []), λ j. ground (arith, range_traffic-left j c (c, []) d))

-- For a map with distinct keys, after a slice with a reset no user that is left is over the
-- minimum, which is not negative.
pub traffic_slice_once :
    (n : ℕ) (uids : GoMap Text ℤ) (c : TrafficCounter) (j : Text) (s : TrafficStorage)
    → IsDistinct c
    → lookup j (traffic_slice (pos n) true uids c).0 ≡ some s
    → is_over (pos n) s ≡ false
traffic_slice_once n uids c j s d h =
    ground (arith, (traffic_slice_lem (pos n) true uids c d).1 j, zero_over n)

-- ===== src/Core/Sing.antt =====
-- core/sing/user.go: the users and the traffic of the sing core. The inbounds are those of sing-box:
-- `B` is their state, `has_inbound` says whether a tag has one, and `accepts` whether the one of a tag
-- is of the type that a list of credentials is for (a failed type assertion panics).
pub mod Hook
use v2b_z.Prelude.{
  ℕ, Bool, List, [], ◌∷◌, Option, none, some, map, ◌==◌, leb, if◌then◌else◌, ◌||◌, length, Result,
  ok, err,
}
use v2b_z.Prelude.Int.{ℤ, pos}
use v2b_z.Prelude.Text.{take, Text, text, text_eq}
use v2b_z.Prelude.GoMap.{GoMap, lookup, insert, delete, get_or}
use v2b_z.Panel.{UserInfo, UserTraffic}
use v2b_z.Panel.Node.{NodeInfo}
use v2b_z.Counter.{TrafficCounter, get_up_count, get_down_count, reset}
use v2b_z.Counter.Slice.{traffic_slice}
use v2b_z.Core.Types.{Failure, message, panicked, AddUsersParams}

pub record VlessUser : Type 0 where
  pub name : Text
  pub flow : Text
  pub uuid : Text

pub record NamedSecret : Type 0 where
  pub name : Text
  pub secret : Text

pub record TuicUser : Type 0 where
  pub name : Text
  pub uuid : Text
  pub password : Text

-- The call of AddUsers that is made, by the type of the inbound.
pub data Credentials : Type 0 where
  vless : List VlessUser → Credentials
  vmess shadowsocks trojan hysteria anytls : List NamedSecret → Credentials
  tuic : List TuicUser → List ℤ → Credentials
  hysteria2 : List NamedSecret → List ℤ → Credentials
  unknown : Credentials

abbrev own_secret : UserInfo → NamedSecret
own_secret u = record { name = u.uuid; secret = u.uuid }

module _ (base64 : Text → Text) where
  -- password[:n], which panics on a shorter text.
  unfoldable pub prefix_secret : ℕ → Text → Option Text
  prefix_secret n s = if leb n (length s) then some (base64 (take n s)) else none

  unfoldable pub ss_password : Text → Text → Option Text
  unfolding prefix_secret
  ss_password cipher uuid =
      if cipher == text "2022-blake3-aes-128-gcm"
      then prefix_secret 16 uuid
      else if cipher == text "2022-blake3-aes-256-gcm"
      then prefix_secret 32 uuid
      else some uuid

  unfoldable pub ss_users : Text → List UserInfo → Option (List NamedSecret)
  ss_users cipher [] = some []
  ss_users cipher (u ∷ us) = elim (ss_password cipher u.uuid) [
    | none ↦ none
    | some p ↦ elim (ss_users cipher us) [
      | none ↦ none
      | some rest ↦ some (record { name = u.uuid; secret = p } ∷ rest)
    ]
  ]

  -- The switch on the node's type; `none` is a panic, by a nil pointer or a short uuid.
  unfoldable pub credentials : NodeInfo → List UserInfo → Option Credentials
  unfolding ss_users
  credentials node users =
      if node.type == text "vless"
      then elim node.vallss [
        | none ↦ elim users [ [] ↦ some (vless []) | _ ∷ _ ↦ none ]
        | some v ↦
            some (vless (map (λ u. record { name = u.uuid; flow = v.flow; uuid = u.uuid }) users))
      ]
      else if node.type == text "vmess"
      then some (vmess (map own_secret users))
      else if node.type == text "shadowsocks"
      then elim node.shadowsocks [
        | none ↦ elim users [ [] ↦ some (shadowsocks []) | _ ∷ _ ↦ none ]
        | some n ↦ elim (ss_users n.cipher users) [ none ↦ none | some us ↦ some (shadowsocks us) ]
      ]
      else if node.type == text "trojan"
      then some (trojan (map own_secret users))
      else if node.type == text "tuic"
      then some (
          tuic (map (λ u. record { name = u.uuid; uuid = u.uuid; password = u.uuid }) users)
            (map (λ u. u.id) users))
      else if node.type == text "hysteria"
      then some (hysteria (map own_secret users))
      else if node.type == text "hysteria2"
      then some (hysteria2 (map own_secret users) (map (λ u. u.id) users))
      else if node.type == text "anytls"
      then some (anytls (map own_secret users))
      else some unknown

-- The maps that the core keeps beside the box.
pub record Users : Type 0 where
  pub uid_map : GoMap Text ℤ
  pub counter : GoMap Text TrafficCounter
  pub node_report_min_traffic_bytes : GoMap Text ℤ

unfoldable pub store_uids : List UserInfo → GoMap Text ℤ → GoMap Text ℤ
store_uids [] m = m
store_uids (u ∷ us) m = store_uids us (insert u.uuid u.id m)

unfoldable pub get_user_traffic : Text → Text → Bool → Users → Users × ℤ × ℤ
get_user_traffic tag uuid clear b = elim (lookup tag b.counter) [
  | none ↦ (b, pos 0, pos 0)
  | some c ↦ (
    if clear then record b { counter = insert tag (reset uuid c) b.counter } else b,
    get_up_count uuid c,
    get_down_count uuid c,
  )
]

unfoldable pub get_user_traffic_slice : Text → Bool → Users → Users × List UserTraffic
get_user_traffic_slice tag clear b = elim (lookup tag b.counter) [
  | none ↦ (b, [])
  | some c ↦
      let (c', slice) =
        traffic_slice (get_or (pos 0) tag b.node_report_min_traffic_bytes) clear b.uid_map c in
      (record b { counter = insert tag c' b.counter }, slice)
]

-- One round of the loop of DelUsers.
unfoldable pub forget_user : Text → UserInfo → Users → Users
forget_user tag u b = record b {
  counter = elim (lookup tag b.counter) [
    | none ↦ b.counter
    | some c ↦ insert tag (delete u.uuid c) b.counter
  ];
  uid_map = delete u.uuid b.uid_map;
}

unfoldable pub forget_users : Text → List UserInfo → Users → Users
forget_users tag [] b = b
forget_users tag (u ∷ us) b = forget_users tag us (forget_user tag u b)

abbrev is_protocol : Text → Bool
is_protocol t =
    t == text "vmess"
    || t == text "vless"
    || t == text "shadowsocks"
    || t == text "trojan"
    || t == text "tuic"
    || t == text "hysteria"
    || t == text "hysteria2"
    || t == text "anytls"

module _ {B : Type 0} (base64 : Text → Text) (has_inbound : Text → B → Bool)
    (accepts : Text → Text → B → Bool) (inbound_add : Text → Credentials → B → B × Option Failure)
    (inbound_del : Text → List Text → B → B × Option Failure) where
  unfoldable pub add_users : AddUsersParams → Users × B → Users × B × Result Failure ℕ
  add_users p (b, box) =
      if has_inbound p.tag box
      then (let b' = record b { uid_map = store_uids p.users b.uid_map } in
          elim (credentials base64 p.node_info p.users) [
            | none ↦ (b', box, err panicked)
            | some unknown ↦ (b', box, ok (length p.users))
            | some c ↦
                if accepts p.tag p.node_info.type box
                then (let (box', failed) = inbound_add p.tag c box in
                    elim failed [
                      | none ↦ (b', box', ok (length p.users))
                      | some e ↦ (b', box', err e)
                    ])
                else (b', box, err panicked)
          ])
      else (b, box, err (message (text "the inbound not found")))

  -- An unknown type leaves a nil deleter, whose call panics after the loop.
  unfoldable pub del_users :
      List UserInfo → Text → NodeInfo → Users × B → Users × B × Result Failure (Unit {0})
  del_users users tag info (b, box) =
      if has_inbound tag box
      then (if is_protocol info.type
          then (if accepts tag info.type box
              then (let (box', failed) = inbound_del tag (map (λ u. u.uuid) users) box in
                  elim failed [
                    | none ↦ (forget_users tag users b, box', ok tt)
                    | some e ↦ (forget_users tag users b, box', err e)
                  ])
              else (b, box, err panicked))
          else (forget_users tag users b, box, err panicked))
      else (b, box, err (message (text "the inbound not found")))

-- ===== src/Panel/Client.antt =====
-- api/panel: the client of a node's panel. `Answer` is what the HTTP client returns.
pub mod Caching
pub mod Traffic
use v2b_z.Prelude.{
  Bool, ◌||◌, List, [], ◌∷◌, Option, none, some, ◌==◌, if◌then◌else◌, Result, ok, err,
}
use v2b_z.Prelude.Int.{ℤ, pos, leb_ℤ, int_eq, add64}
use v2b_z.Prelude.Text.{Text, text, text_eq}
use v2b_z.Prelude.GoMap.{GoMap, lookup, insert}
use v2b_z.Panel.{UserInfo, UserTraffic}
use v2b_z.Panel.Node.{NodeInfo}
use v2b_z.Panel.Decode.{
  ClientError, request_failed, empty_response, refused, decode_failed, unsupported,
}

-- The fields of Client that its methods read or change.
pub record Client : Type 0 where
  pub node_type : Text
  pub node_id : ℤ
  pub node_etag : Text
  pub user_etag : Text
  pub response_body_hash : Text
  pub alive_map : GoMap ℤ ℤ

pub record Response : Type 0 where
  pub status_code : ℤ
  pub body : Text
  pub etag : Text

-- An error, a nil response, or a response.
pub data Answer : Type 0 where
  failed nil_response : Answer
  response : Response → Answer

unfoldable pub check_response : Answer → Option ClientError
check_response failed = some request_failed
check_response nil_response = some empty_response
check_response (response r) = if leb_ℤ (pos 400) r.status_code then some (refused r.body) else none

-- New: the type of the node, after strings.ToLower.
unfoldable pub check_node_type : Text → Result ClientError Text
check_node_type t =
    if t == text "v2ray"
    then ok (text "vmess")
    else if t == text "zicnode" || t == text "v2node"
    then err (unsupported t)
    else if t == text "vmess"
        || t == text "trojan"
        || t == text "shadowsocks"
        || t == text "hysteria"
        || t == text "hysteria2"
        || t == text "tuic"
        || t == text "anytls"
        || t == text "vless"
    then ok t
    else err (unsupported t)

-- GetNodeInfo: `decode` makes a NodeInfo of the type, the number and the body.
module _ (sha256 : Text → Text) (decode : ℤ → Text → Text → Result ClientError NodeInfo) where
  -- The hash and the tag of a body are stored before it is decoded.
  unfoldable pub take_body : Response → Client → Client × Result ClientError (Option NodeInfo)
  take_body r c = (
    record c { response_body_hash = sha256 r.body; node_etag = r.etag },
    elim (decode c.node_id c.node_type r.body) [ err e ↦ err e | ok node ↦ ok (some node) ],
  )

  -- `ok none` says that nothing changed.
  unfoldable pub get_node_info : Answer → Client → Client × Result ClientError (Option NodeInfo)
  unfolding take_body check_response
  get_node_info failed c = (c, err request_failed)
  get_node_info nil_response c = (c, err empty_response)
  get_node_info (response r) c =
      if r.status_code == pos 304 then (c, ok none) else elim (check_response (response r)) [
        | some e ↦ (c, err e)
        | none ↦ if c.response_body_hash == sha256 r.body then (c, ok none) else take_body r c
      ]

-- GetUserList: `decode` reads the list by the content type of the answer.
module _ (decode : Text → Option (List UserInfo)) where
  unfoldable pub get_user_list : Answer → Client → Client × Result ClientError (List UserInfo)
  unfolding check_response
  get_user_list failed c = (c, err request_failed)
  get_user_list nil_response c = (c, err empty_response)
  get_user_list (response r) c =
      if r.status_code == pos 304 then (c, ok []) else elim (check_response (response r)) [
        | some e ↦ (c, err e)
        | none ↦ elim (decode r.body) [
          | none ↦ (c, err (decode_failed (text "user list")))
          | some users ↦ (record c { user_etag = r.etag }, ok users)
        ]
      ]

-- GetUserAlive never fails: a bad answer is an empty map.
module _ (decode : Text → Option (GoMap ℤ ℤ)) where
  unfoldable pub alive_of : Answer → GoMap ℤ ℤ
  alive_of failed = []
  alive_of nil_response = []
  alive_of (response r) =
      if leb_ℤ (pos 399) r.status_code then [] else elim (decode r.body) [ none ↦ [] | some m ↦ m ]

  unfoldable pub get_user_alive : Answer → Client → Client × GoMap ℤ ℤ
  unfolding alive_of
  get_user_alive a c = (record c { alive_map = alive_of a }, alive_of a)

-- One entry of the loop of ReportUserTraffic.
unfoldable pub add_traffic : UserTraffic → GoMap ℤ (ℤ × ℤ) → GoMap ℤ (ℤ × ℤ)
add_traffic t sums = elim (lookup t.uid sums) [
  | some (up, down) ↦ insert t.uid (add64 up t.upload, add64 down t.download) sums
  | none ↦ insert t.uid (t.upload, t.download) sums
]

-- The map that it pushes: for each user the bytes up and down.
unfoldable pub sum_traffic : List UserTraffic → GoMap ℤ (ℤ × ℤ) → GoMap ℤ (ℤ × ℤ)
sum_traffic [] sums = sums
sum_traffic (t ∷ ts) sums = sum_traffic ts (add_traffic t sums)

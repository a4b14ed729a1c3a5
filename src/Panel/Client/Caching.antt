-- ===== src/Panel/Client/Caching.antt =====
-- api/panel/node.go: GetNodeInfo reports an answer at most once.
use v2b_z.Prelude.{◌≡◌, false, none, Result, ok, ==_refl, arith}
use v2b_z.Prelude.Int.{ℤ, pos, leb_ℤ}
use v2b_z.Prelude.Text.{Text, text_eq}
use v2b_z.Panel.Node.{NodeInfo}
use v2b_z.Panel.Decode.{ClientError}
use v2b_z.Panel.Client.{Client, Response, response, take_body, check_response, get_node_info}

module _ (sha256 : Text → Text) (decode : ℤ → Text → Text → Result ClientError NodeInfo) where
  -- An answer below status 400 that comes a second time is reported as unchanged, and changes
  -- nothing, also if the first time its body could not be decoded.
  pub get_node_info-again :
      (r : Response) (c : Client)
      → leb_ℤ (pos 400) r.status_code ≡ false
      → get_node_info sha256 decode (response r) (get_node_info sha256 decode (response r) c).0
        ≡ ((get_node_info sha256 decode (response r) c).0, ok none)
  unfolding get_node_info take_body check_response
  get_node_info-again r c h = ground (arith, h, ==_refl (sha256 r.body))

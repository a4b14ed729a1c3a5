-- ===== src/Core/Xray/Inbound/Protocols.antt =====
-- core/xray/inbound.go: buildV2ray, buildTrojan and buildShadowsocks. The options of xray and the part
-- of the node are pointers, and a nil one panics where it is read.
use v2b_z.Prelude.{
  Bool, false, List, [], ◌∷◌, ◌++◌, Option, none, some, Result, ok, err, ◌==◌, ◌||◌, is_empty,
  if◌then◌else◌, ◌>>=◌, not,
}
use v2b_z.Prelude.Text.{Text, text, text_eq}
use v2b_z.Conf.Xray.{XrayOptions}
use v2b_z.Panel.Node.{NodeInfo, VAllssNode, EncSettings}
use v2b_z.Core.Types.{Failure, message, panicked}
use v2b_z.Core.Xray.Inbound.{
  ProtocolSettings, vless, trojan, shadowsocks, empty, ProxiedSettings, StreamConfig, Library,
}
use v2b_z.Core.Xray.Inbound.Normal.{
  normalize_transport_network, normalize_trojan_network, normalize_network_settings,
}
use v2b_z.Core.Xray.Inbound.Fallbacks.{build_vless_fallbacks, build_trojan_fallbacks}

-- What the three functions set, and the network that they leave in the node.
pub record Built : Type 0 where
  pub protocol : Text
  pub settings : ProtocolSettings
  pub stream : StreamConfig
  pub network : Text

unfoldable pub new_stream : Text → StreamConfig
new_stream network = record {
  network = network;
  security = [];
  tcp_settings = none;
  ws_settings = none;
  grpc_settings = none;
  httpupgrade_settings = none;
  split_http_settings = none;
  socket_settings = none;
  tls_settings = none;
  reality_settings = none;
}

-- strings.Join with a dot.
unfoldable pub join_dots : List Text → Text
join_dots [] = []
join_dots (s ∷ []) = s
join_dots (s ∷ t ∷ ts) = s ++ (b'.' ∷ join_dots (t ∷ ts))

unfoldable pub decryption : Text → EncSettings → Result Failure Text
unfolding join_dots
decryption encryption e =
    if is_empty encryption
    then ok (text "none")
    else if encryption == text "mlkem768x25519plus"
    then ok (
        join_dots (
          (text "mlkem768x25519plus" ∷ e.mode ∷ e.ticket ∷ [])
          ++ ((if is_empty e.server_padding then [] else e.server_padding ∷ [])
              ++ (e.private_key ∷ []))))
    else err (message (text "vless decryption method is not support"))

-- A decoder's text, or its error.
abbrev decoded : {X : Type 0} → (Text → X) → Result Text Text → Result Failure X
decoded f (ok s) = ok (f s)
decoded f (err e) = err (message e)

abbrev proxied : Text → Option ProxiedSettings
proxied s = some (record { decoded = some s; accept_proxy_protocol = false })

module _ {H : Type 0} (lib : Library H) where
  -- The switch on the network that decodes the settings of a vmess or vless node.
  unfoldable pub v2ray_stream : Text → Text → Result Failure StreamConfig
  unfolding new_stream
  v2ray_stream network s =
      let stream = new_stream network in
      if network == text "tcp"
      then decoded (λ d. record stream { tcp_settings = proxied d }) (lib.decode_tcp s)
      else if network == text "ws"
      then decoded (λ d. record stream { ws_settings = proxied d }) (lib.decode_ws s)
      else if network == text "grpc"
      then decoded (λ d. record stream { grpc_settings = some d }) (lib.decode_grpc s)
      else if network == text "httpupgrade"
      then decoded (λ d. record stream { httpupgrade_settings = some d }) (lib.decode_httpupgrade s)
      else if network == text "splithttp" || network == text "xhttp"
      then decoded (λ d. record stream { split_http_settings = some d }) (lib.decode_xhttp s)
      else ok stream

  unfoldable pub is_v2ray_network : Text → Bool
  is_v2ray_network n =
      n == text "tcp"
      || n == text "ws"
      || n == text "grpc"
      || n == text "httpupgrade"
      || n == text "splithttp"
      || n == text "xhttp"

  -- The settings of the protocol.
  unfoldable pub v2ray_settings :
      Option XrayOptions → Text → VAllssNode → Result Failure (Text × ProtocolSettings)
  unfolding build_vless_fallbacks decryption
  v2ray_settings config type v =
      if type == text "vless"
      then elim config [
        | none ↦ err panicked
        | some o ↦
            if o.enable_fallback
            then (build_vless_fallbacks lib.marshal o.fall_back_configs >>= λ fs.
                ok (text "vless", vless (text "none") (some fs)))
            else (decryption v.encryption v.encryption_settings >>= λ d.
                ok (text "vless", vless d none))
      ]
      else ok (text "vmess", empty)

  -- buildV2ray, for a node whose part is there.
  unfoldable pub build_vallss : Option XrayOptions → Text → VAllssNode → Result Failure Built
  build_vallss config type v =
      let network = normalize_transport_network lib.to_lower lib.trim_space v.network in
      let s = normalize_network_settings lib.trim_bytes v.network_settings in
      v2ray_settings config type v >>= λ p.
      if not (is_v2ray_network network)
      then err (message (text "unsupported network"))
      else ((if is_empty s then ok (new_stream network) else v2ray_stream network s) >>= λ stream.
          ok (record { protocol = p.0; settings = p.1; stream = stream; network = network }))

  unfoldable pub build_v2ray : Option XrayOptions → NodeInfo → Result Failure Built
  build_v2ray config node = elim node.vallss [
    | none ↦ err panicked
    | some v ↦ build_vallss config node.type v
  ]

  -- The switch that decodes the settings of a trojan node, whose network was tested before.
  unfoldable pub trojan_stream : Text → Text → Result Failure StreamConfig
  unfolding new_stream
  trojan_stream network s =
      let stream = new_stream network in
      if network == text "tcp"
      then decoded (λ d. record stream { tcp_settings = proxied d }) (lib.decode_tcp s)
      else if network == text "ws"
      then decoded (λ d. record stream { ws_settings = proxied d }) (lib.decode_ws s)
      else if network == text "grpc"
      then decoded (λ d. record stream { grpc_settings = some d }) (lib.decode_grpc s)
      else err (message (text "unsupported network"))

  unfoldable pub trojan_settings : Option XrayOptions → Result Failure ProtocolSettings
  unfolding build_trojan_fallbacks
  trojan_settings none = err panicked
  trojan_settings (some o) =
      if o.enable_fallback
      then (build_trojan_fallbacks lib.marshal o.fall_back_configs >>= λ fs. ok (trojan fs))
      else ok empty

  unfoldable pub build_trojan : Option XrayOptions → NodeInfo → Result Failure Built
  build_trojan config node = trojan_settings config >>= λ settings. elim node.trojan [
    | none ↦ err panicked
    | some v ↦
        let s = normalize_network_settings lib.trim_bytes v.network_settings in
        normalize_trojan_network lib.to_lower lib.trim_space v.network >>= λ network.
        (if is_empty s then ok (new_stream network) else trojan_stream network s) >>= λ stream.
        ok (record {
          protocol = text "trojan";
          settings = settings;
          stream = stream;
          network = network;
        })
  ]

  -- A server key is a cipher of 2022: the users then have none of their own.
  unfoldable pub build_shadowsocks : NodeInfo → Result Failure Built
  unfolding new_stream
  build_shadowsocks node = elim node.shadowsocks [
    | none ↦ err panicked
    | some s ↦
        decoded
          (λ random. record {
            protocol = text "shadowsocks";
            settings =
                if is_empty s.server_key
                then shadowsocks s.cipher [] s.cipher random
                else shadowsocks s.cipher s.server_key [] (lib.base64 random);
            stream = new_stream (text "tcp");
            network = text "tcp";
          })
          lib.random_hex
  ]

-- ===== src/Core/Xray/Inbound/Build.antt =====
-- core/xray/inbound.go: buildInbound.
use v2b_z.Prelude.{
  ◌%◌, ◌^◌, Bool, [], ◌∷◌, ◌++◌, Option, none, some, Result, ok, err, ◌==◌, ◌||◌, is_empty,
  if◌then◌else◌, ◌>>=◌, not,
}
use v2b_z.Prelude.Int.{ℤ, pos, int_eq, to_word}
use v2b_z.Prelude.Text.{Text, text, text_eq}
use v2b_z.Conf.{CertConfig}
use v2b_z.Conf.Options.{Options}
use v2b_z.Conf.Xray.{XrayOptions}
use v2b_z.Panel.Node.{NodeInfo, VAllssNode, tls_security}
use v2b_z.Core.Types.{Failure, message, panicked}
use v2b_z.Core.Xray.Inbound.{ProxiedSettings, StreamConfig, Reality, Inbound, Library}
use v2b_z.Core.Xray.Inbound.Normal.{normalize_transport_network}
use v2b_z.Core.Xray.Inbound.Protocols.{Built, build_v2ray, build_trojan, build_shadowsocks}

abbrev pub reality_security : ℤ
reality_security = pos 2

abbrev with_proxy : Bool → Option ProxiedSettings → Option ProxiedSettings
with_proxy flag none = some (record { decoded = none; accept_proxy_protocol = flag })
with_proxy flag (some s) = some (record s { accept_proxy_protocol = flag })

-- The switch on the network that sets the proxy protocol; only the last case sets TFO.
unfoldable pub set_proxy_protocol : Text → XrayOptions → StreamConfig → StreamConfig
set_proxy_protocol network o stream =
    if network == text "tcp"
    then record stream { tcp_settings = with_proxy o.enable_proxy_protocol stream.tcp_settings }
    else if network == text "ws"
    then record stream { ws_settings = with_proxy o.enable_proxy_protocol stream.ws_settings }
    else record stream {
      socket_settings =
          some (record { accept_proxy_protocol = o.enable_proxy_protocol; tfo = o.enable_tfo });
    }

-- A certificate that is configured makes TLS, by its mode as it is written.
unfoldable pub set_tls : CertConfig → StreamConfig → StreamConfig
set_tls cert stream =
    if cert.cert_mode == text "none" || is_empty cert.cert_mode then stream else record stream {
      security = text "tls";
      tls_settings = some (record {
        cert_file = cert.cert_file;
        key_file = cert.key_file;
        ocsp_stapling = 3600;
        reject_unknown_sni = cert.reject_unknown_sni;
      });
    }

module _ {H : Type 0} (lib : Library H) where
  unfoldable pub reality_of : VAllssNode → Reality
  unfolding to_word
  reality_of v =
      let t = v.tls_settings in
      let dest = if is_empty t.dest then t.server_name else t.dest in
      record {
        dest = lib.marshal (dest ++ (b':' ∷ t.server_port));
        xver = if t.xver == pos 0 then v.reality_config.xver else t.xver;
        server_names = t.server_name ∷ [];
        private_key = t.private_key;
        min_client_ver = v.reality_config.min_client_ver;
        max_client_ver = v.reality_config.max_client_ver;
        max_time_diff = to_word (lib.micros v.reality_config.max_time_diff);
        short_ids = t.short_id ∷ [];
        mldsa65_seed = t.mldsa65_seed;
      }

  -- The switch on the security of the node.
  unfoldable pub set_security :
      Option CertConfig → NodeInfo → StreamConfig → Result Failure StreamConfig
  set_security cert node stream =
      if node.security == tls_security
      then elim cert [
        | none ↦ err (message (text "the CertConfig is not vail"))
        | some c ↦ ok (set_tls c stream)
      ]
      else if node.security == reality_security
      then elim node.vallss [
        | none ↦ err panicked
        | some v ↦
            ok (record stream { security = text "reality"; reality_settings = some (reality_of v) })
      ]
      else ok stream

  -- The switch on the type of the node.
  unfoldable pub build_protocol : Option XrayOptions → NodeInfo → Result Failure Built
  build_protocol xray node =
      if node.type == text "vmess" || node.type == text "vless"
      then build_v2ray lib xray node
      else if node.type == text "trojan"
      then build_trojan lib xray node
      else if node.type == text "shadowsocks"
      then build_shadowsocks lib node
      else err (message (text "unsupported node type"))

  -- What follows the protocol. The stream settings are never nil here, and a nil part of the node or
  -- of the options panics.
  unfoldable pub complete :
      Options → Option XrayOptions → NodeInfo → Text → Built → Result Failure Inbound
  complete option xray node tag b = elim node.common [
    | none ↦ err panicked
    | some common ↦ elim xray [
      | none ↦ err panicked
      | some o ↦
          let network = normalize_transport_network lib.to_lower lib.trim_space b.network in
          set_security option.cert_config node (set_proxy_protocol network o b.stream) >>= λ stream.
          ok (record {
            protocol = b.protocol;
            settings = b.settings;
            stream = stream;
            port = to_word common.server_port % 2 ^ 32;
            listen_on = lib.parse_address option.listen_ip;
            sniffing = not o.disable_sniffing;
            tag = tag;
          })
    ]
  ]

  -- The configuration that Build gets.
  unfoldable pub inbound_of :
      Options → Option XrayOptions → NodeInfo → Text → Result Failure Inbound
  inbound_of option xray node tag = build_protocol xray node >>= complete option xray node tag

  abbrev built : Result Text H → Result Failure H
  built (ok h) = ok h
  built (err e) = err (message e)

  unfoldable pub build_inbound : Options → Option XrayOptions → NodeInfo → Text → Result Failure H
  build_inbound option xray node tag = inbound_of option xray node tag >>= λ i. built (lib.build i)

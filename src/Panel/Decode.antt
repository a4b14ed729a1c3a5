-- ===== src/Panel/Decode.antt =====
-- api/panel/node.go: from the body of an answer to a NodeInfo. `Decoders` are encoding/json at the
-- structs of the protocols; what a struct has besides the node is beside it in `Decoded`.
use v2b_z.Prelude.{
  Bool, true, false, ◌||◌, List, [], ◌∷◌, Option, none, some, ◌==◌, if◌then◌else◌, is_empty, Result,
  ok, err,
}
use v2b_z.Prelude.Int.{ℤ, pos}
use v2b_z.Prelude.Text.{Text, text, text_eq}
use v2b_z.Panel.Tls.{TlsSettings}
use v2b_z.Panel.Node.{
  CommonNode, VAllssNode, ShadowsocksNode, TrojanNode, TuicNode, AnyTlsNode, HysteriaNode,
  Hysteria2Node, NodeInfo, tls_security,
}
use v2b_z.Panel.Routes.{Route}

-- The dynamic types of an interval. Of a float64 it is the number that time.Duration makes of it.
pub data Interval : Type 0 where
  nil other_type : Interval
  int float64 : ℤ → Interval
  string : Text → Interval

pub record BaseConfig : Type 0 where
  pub push_interval : Interval
  pub pull_interval : Interval

pub record Decoded (N : Type 0) : Type 0 where
  pub node : N
  pub network_settings_back : Option Text
  pub tls_settings_back : Option TlsSettings
  pub routes : List Route
  pub base_config : Option BaseConfig

pub record Decoders : Type 0 where
  pub vallss : Text → Option (Decoded VAllssNode)
  pub shadowsocks : Text → Option (Decoded ShadowsocksNode)
  pub trojan : Text → Option (Decoded TrojanNode)
  pub tuic : Text → Option (Decoded TuicNode)
  pub any_tls : Text → Option (Decoded AnyTlsNode)
  pub hysteria : Text → Option (Decoded HysteriaNode)
  pub hysteria2 : Text → Option (Decoded Hysteria2Node)

-- The errors of a client; `panicked` is the panic of reflect at an interval that is no number.
pub data ClientError : Type 0 where
  request_failed empty_response panicked : ClientError
  refused decode_failed unsupported : Text → ClientError

-- len(value) > 0
unfoldable pub has_bytes : Option Text → Bool
has_bytes none = false
has_bytes (some []) = false
has_bytes (some (c ∷ s)) = true

unfoldable pub back_or : TlsSettings → Option TlsSettings → TlsSettings
back_or t none = t
back_or t (some back) = back

-- The node with its type and number, before the protocol's part.
abbrev pub blank_node : ℤ → Text → NodeInfo
blank_node node_id node_type = record {
  id = node_id;
  type = node_type;
  security = pos 0;
  push_interval = pos 0;
  pull_interval = pos 0;
  raw_dns = record { dns_map = []; dns_json = [] };
  rules = record { regexp = []; protocol = [] };
  vallss = none;
  shadowsocks = none;
  trojan = none;
  tuic = none;
  any_tls = none;
  hysteria = none;
  hysteria2 = none;
  common = none;
  panel_cert_config = none;
  panel_cert_self_fallback_set = false;
  panel_cert_reject_unknown_sni_set = false;
}

abbrev pub Parts : Type 0
Parts = NodeInfo × CommonNode × List Route × Option BaseConfig

module _ (trim_space : Text → Text) where
  unfoldable pub normalize_raw_json : Option Text → Option Text
  normalize_raw_json none = none
  normalize_raw_json (some value) =
      let trimmed = trim_space value in
      if is_empty trimmed || trimmed == text "null"
      then none
      else if trimmed == text "[]"
      then some (text "{}")
      else some trimmed

  -- The cases of the switch, on a struct that was decoded.
  unfoldable pub take_vallss : NodeInfo → Decoded VAllssNode → Parts
  unfolding has_bytes back_or normalize_raw_json
  take_vallss node d =
      let settings =
        if has_bytes d.network_settings_back
        then d.network_settings_back
        else d.node.network_settings in
      (
        record node {
          vallss = some (record d.node {
            network_settings = normalize_raw_json settings;
            tls_settings = back_or d.node.tls_settings d.tls_settings_back;
          });
          security = d.node.tls;
        },
        d.node.common_node,
        d.routes,
        d.base_config,
      )

  unfoldable pub take_trojan : NodeInfo → Decoded TrojanNode → Parts
  unfolding has_bytes back_or normalize_raw_json
  take_trojan node d =
      let settings =
        if has_bytes d.node.network_settings
        then d.node.network_settings
        else if has_bytes d.network_settings_back
        then d.network_settings_back
        else d.node.network_settings in
      (
        record node {
          trojan = some (record d.node {
            network_settings = normalize_raw_json settings;
            tls_settings = back_or d.node.tls_settings d.tls_settings_back;
          });
          security = tls_security;
        },
        d.node.common_node,
        d.routes,
        d.base_config,
      )

unfoldable pub take_shadowsocks : NodeInfo → Decoded ShadowsocksNode → Parts
take_shadowsocks node d = (
  record node { shadowsocks = some d.node; security = pos 0 },
  d.node.common_node,
  d.routes,
  d.base_config,
)

unfoldable pub take_tuic : NodeInfo → Decoded TuicNode → Parts
unfolding back_or
take_tuic node d = (
  record node {
    tuic = some (record d.node { tls_settings = back_or d.node.tls_settings d.tls_settings_back });
    security = tls_security;
  },
  d.node.common_node,
  d.routes,
  d.base_config,
)

unfoldable pub take_any_tls : NodeInfo → Decoded AnyTlsNode → Parts
unfolding back_or
take_any_tls node d = (
  record node {
    any_tls =
        some (record d.node { tls_settings = back_or d.node.tls_settings d.tls_settings_back });
    security = tls_security;
  },
  d.node.common_node,
  d.routes,
  d.base_config,
)

unfoldable pub take_hysteria : NodeInfo → Decoded HysteriaNode → Parts
unfolding back_or
take_hysteria node d = (
  record node {
    hysteria =
        some (record d.node { tls_settings = back_or d.node.tls_settings d.tls_settings_back });
    security = tls_security;
  },
  d.node.common_node,
  d.routes,
  d.base_config,
)

unfoldable pub take_hysteria2 : NodeInfo → Decoded Hysteria2Node → Parts
unfolding back_or
take_hysteria2 node d = (
  record node {
    hysteria2 =
        some (record d.node { tls_settings = back_or d.node.tls_settings d.tls_settings_back });
    security = tls_security;
  },
  d.node.common_node,
  d.routes,
  d.base_config,
)

unfoldable pub take :
    {N : Type 0} → (Decoded N → Parts) → Option (Decoded N) → Text → Result ClientError Parts
take f none what = err (decode_failed what)
take f (some d) what = ok (f d)

module _ (trim_space : Text → Text) (decoders : Decoders) where
  -- The switch on the type of the node.
  unfoldable pub decode_protocol : ℤ → Text → Text → Result ClientError Parts
  unfolding take
  decode_protocol node_id node_type body =
      let node = blank_node node_id node_type in
      if node_type == text "vmess" || node_type == text "vless"
      then take (take_vallss trim_space node) (decoders.vallss body) (text "v2ray")
      else if node_type == text "shadowsocks"
      then take (take_shadowsocks node) (decoders.shadowsocks body) node_type
      else if node_type == text "trojan"
      then take (take_trojan trim_space node) (decoders.trojan body) node_type
      else if node_type == text "tuic"
      then take (take_tuic node) (decoders.tuic body) node_type
      else if node_type == text "anytls"
      then take (take_any_tls node) (decoders.any_tls body) node_type
      else if node_type == text "hysteria"
      then take (take_hysteria node) (decoders.hysteria body) node_type
      else if node_type == text "hysteria2"
      then take (take_hysteria2 node) (decoders.hysteria2 body) node_type
      else err (unsupported node_type)

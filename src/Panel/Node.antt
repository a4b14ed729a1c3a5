-- ===== src/Panel/Node.antt =====
-- api/panel/node.go: the description of a node, as the panel sends it and as the controller reads it.
-- Raw JSON is its bytes. A time.Duration is a number of nanoseconds.
use v2b_z.Prelude.{ℕ, Bool, List, Option, some, none, ◌==◌, if◌then◌else◌, ◌||◌}
use v2b_z.Prelude.Int.{ℤ, pos}
use v2b_z.Prelude.Text.{Text, text, text_eq}
use v2b_z.Prelude.GoMap.{GoMap}
use v2b_z.Conf.{CertConfig}
use v2b_z.Limiter.Rules.{Rules}
use v2b_z.Panel.Tls.{TlsSettings, zero_tls}

-- The embedded CommonNode; its routes and intervals are read once and cleared.
pub record CommonNode : Type 0 where
  pub host : Text
  pub server_port : ℤ
  pub server_name : Text

pub record EncSettings : Type 0 where
  pub mode : Text
  pub ticket : Text
  pub server_padding : Text
  pub private_key : Text

pub record RealityConfig : Type 0 where
  pub xver : ℤ
  pub min_client_ver : Text
  pub max_client_ver : Text
  pub max_time_diff : Text

pub record VAllssNode : Type 0 where
  pub common_node : CommonNode
  pub tls : ℤ
  pub tls_settings : TlsSettings
  pub network : Text
  pub network_settings : Option Text
  pub encryption : Text
  pub encryption_settings : EncSettings
  pub server_name : Text
  pub flow : Text
  pub reality_config : RealityConfig

pub record ShadowsocksNode : Type 0 where
  pub common_node : CommonNode
  pub cipher : Text
  pub server_key : Text

pub record TrojanNode : Type 0 where
  pub common_node : CommonNode
  pub network : Text
  pub network_settings : Option Text
  pub tls_settings : TlsSettings

pub record TuicNode : Type 0 where
  pub common_node : CommonNode
  pub tls_settings : TlsSettings
  pub congestion_control : Text
  pub zero_rtt_handshake : Bool

pub record AnyTlsNode : Type 0 where
  pub common_node : CommonNode
  pub tls_settings : TlsSettings
  pub padding_scheme : List Text

pub record HysteriaNode : Type 0 where
  pub common_node : CommonNode
  pub tls_settings : TlsSettings
  pub up_mbps : ℤ
  pub down_mbps : ℤ
  pub obfs : Text

pub record Hysteria2Node : Type 0 where
  pub common_node : CommonNode
  pub tls_settings : TlsSettings
  pub ignore_client_bandwidth : Bool
  pub up_mbps : ℤ
  pub down_mbps : ℤ
  pub obfs_type : Text
  pub obfs_password : Text

-- `address` and `domains` of a DNS route; the xray core adds a `port`.
pub record DnsEntry : Type 0 where
  pub address : Text
  pub domains : List Text
  pub port : Option ℕ

pub record RawDns : Type 0 where
  pub dns_map : GoMap Text DnsEntry
  pub dns_json : Text

-- Security is 0 for none, 1 for TLS and 2 for Reality.
pub record NodeInfo : Type 0 where
  pub id : ℤ
  pub type : Text
  pub security : ℤ
  pub push_interval : ℤ
  pub pull_interval : ℤ
  pub raw_dns : RawDns
  pub rules : Rules
  pub vallss : Option VAllssNode
  pub shadowsocks : Option ShadowsocksNode
  pub trojan : Option TrojanNode
  pub tuic : Option TuicNode
  pub any_tls : Option AnyTlsNode
  pub hysteria : Option HysteriaNode
  pub hysteria2 : Option Hysteria2Node
  pub common : Option CommonNode
  pub panel_cert_config : Option CertConfig
  pub panel_cert_self_fallback_set : Bool
  pub panel_cert_reject_unknown_sni_set : Bool

abbrev pub tls_security : ℤ
tls_security = pos 1

abbrev pub settings_or_zero : Option TlsSettings → TlsSettings
settings_or_zero none = zero_tls
settings_or_zero (some t) = t

unfoldable pub node_tls_settings : NodeInfo → TlsSettings
node_tls_settings node =
    if node.type == text "vmess" || node.type == text "vless"
    then elim node.vallss [ some v ↦ v.tls_settings | none ↦ zero_tls ]
    else if node.type == text "trojan"
    then elim node.trojan [ some v ↦ v.tls_settings | none ↦ zero_tls ]
    else if node.type == text "tuic"
    then elim node.tuic [ some v ↦ v.tls_settings | none ↦ zero_tls ]
    else if node.type == text "anytls"
    then elim node.any_tls [ some v ↦ v.tls_settings | none ↦ zero_tls ]
    else if node.type == text "hysteria"
    then elim node.hysteria [ some v ↦ v.tls_settings | none ↦ zero_tls ]
    else if node.type == text "hysteria2"
    then elim node.hysteria2 [ some v ↦ v.tls_settings | none ↦ zero_tls ]
    else zero_tls

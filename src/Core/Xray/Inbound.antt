-- ===== src/Core/Xray/Inbound.antt =====
-- core/xray/inbound.go: the inbound of a node. The configuration objects of xray stand by the fields
-- that the code sets; what json.Unmarshal and Build make of them are parameters.
pub mod Normal
pub mod Fallbacks
pub mod Protocols
pub mod Build
pub mod Bare
pub mod Fits
use v2b_z.Prelude.{ℕ, Bool, List, Option, Result}
use v2b_z.Prelude.Int.{ℤ}
use v2b_z.Prelude.Text.{Text}

-- VLessInboundFallback and TrojanInboundFallback, whose fields have the same names.
pub record Fallback : Type 0 where
  pub name : Text
  pub alpn : Text
  pub path : Text
  pub dest : Text
  pub xver : ℤ

-- The settings of the protocol, before they are marshalled. A vmess inbound and a trojan one without
-- fallbacks have empty settings.
pub data ProtocolSettings : Type 0 where
  vless : Text → Option (List Fallback) → ProtocolSettings
  trojan : List Fallback → ProtocolSettings
  shadowsocks : Text → Text → Text → Text → ProtocolSettings
  empty : ProtocolSettings

-- The settings of TCP or of WebSocket: what was decoded, and the flag that the code sets.
pub record ProxiedSettings : Type 0 where
  pub decoded : Option Text
  pub accept_proxy_protocol : Bool

pub record SocketConfig : Type 0 where
  pub accept_proxy_protocol : Bool
  pub tfo : Bool

pub record TlsConfig : Type 0 where
  pub cert_file : Text
  pub key_file : Text
  pub ocsp_stapling : ℕ
  pub reject_unknown_sni : Bool

pub record Reality : Type 0 where
  pub dest : Text
  pub xver : ℤ
  pub server_names : List Text
  pub private_key : Text
  pub min_client_ver : Text
  pub max_client_ver : Text
  pub max_time_diff : ℕ
  pub short_ids : List Text
  pub mldsa65_seed : Text

pub record StreamConfig : Type 0 where
  pub network : Text
  pub security : Text
  pub tcp_settings : Option ProxiedSettings
  pub ws_settings : Option ProxiedSettings
  pub grpc_settings : Option Text
  pub httpupgrade_settings : Option Text
  pub split_http_settings : Option Text
  pub socket_settings : Option SocketConfig
  pub tls_settings : Option TlsConfig
  pub reality_settings : Option Reality

pub record Inbound : Type 0 where
  pub protocol : Text
  pub settings : ProtocolSettings
  pub stream : StreamConfig
  pub port : ℕ
  pub listen_on : Text
  pub sniffing : Bool
  pub tag : Text

-- The functions of other packages: `trim_bytes` is bytes.TrimSpace, the decoders are json.Unmarshal
-- into the settings of a transport, `micros` is time.ParseDuration in microseconds, 0 if it fails,
-- `random_hex` the random password, and `build` is Build.
pub record Library (H : Type 0) : Type 0 where
  pub to_lower : Text → Text
  pub trim_space : Text → Text
  pub trim_bytes : Text → Text
  pub marshal : Text → Text
  pub base64 : Text → Text
  pub decode_tcp : Text → Result Text Text
  pub decode_ws : Text → Result Text Text
  pub decode_grpc : Text → Result Text Text
  pub decode_httpupgrade : Text → Result Text Text
  pub decode_xhttp : Text → Result Text Text
  pub micros : Text → ℤ
  pub random_hex : Result Text Text
  pub parse_address : Text → Text
  pub build : Inbound → Result Text H

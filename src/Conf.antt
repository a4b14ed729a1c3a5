-- ===== src/Conf.antt =====
-- conf/limit.go, conf/cert.go and conf/node.go: the configuration types that the controller reads.
pub mod Options
pub mod Xray
use v2b_z.Prelude.{Bool, false, Option, none, []}
use v2b_z.Prelude.Int.{ℤ}
use v2b_z.Prelude.Text.{Text, text}
use v2b_z.Prelude.GoMap.{GoMap}

pub record DynamicSpeedLimitConfig : Type 0 where
  pub periodic : ℤ
  pub traffic : ℤ
  pub speed_limit : ℤ
  pub expire_time : ℤ

-- The recorder fields of the source, which no code reads, are left out.
pub record LimitConfig : Type 0 where
  pub enable_realtime : Bool
  pub speed_limit : ℤ
  pub ip_limit : ℤ
  pub conn_limit : ℤ
  pub enable_ip_recorder : Bool
  pub enable_dynamic_speed_limit : Bool
  pub dynamic_speed_limit_config : Option DynamicSpeedLimitConfig

pub record CertConfig : Type 0 where
  pub cert_mode : Text
  pub reject_unknown_sni : Bool
  pub self_fallback : Bool
  pub cert_domain : Text
  pub cert_file : Text
  pub key_file : Text
  pub provider : Text
  pub email : Text
  pub dns_env : Option (GoMap Text Text)

unfoldable pub new_cert_config : CertConfig
new_cert_config = record {
  cert_mode = text "none";
  reject_unknown_sni = false;
  self_fallback = false;
  cert_domain = [];
  cert_file = [];
  key_file = [];
  provider = [];
  email = [];
  dns_env = none;
}

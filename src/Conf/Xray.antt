-- ===== src/Conf/Xray.antt =====
-- conf/xray.go: the options of a node on the xray core.
use v2b_z.Prelude.{Bool, false, List, Option, none}
use v2b_z.Prelude.Int.{ℤ}
use v2b_z.Prelude.Text.{Text, text}

pub record FallBackConfigForXray : Type 0 where
  pub sni : Text
  pub alpn : Text
  pub path : Text
  pub dest : Text
  pub proxy_protocol_ver : ℤ

-- A nil slice of fallbacks is `none`.
pub record XrayOptions : Type 0 where
  pub enable_proxy_protocol : Bool
  pub enable_dns : Bool
  pub dns_type : Text
  pub enable_uot : Bool
  pub enable_tfo : Bool
  pub disable_iv_check : Bool
  pub disable_sniffing : Bool
  pub enable_fallback : Bool
  pub fall_back_configs : Option (List FallBackConfigForXray)

unfoldable pub new_xray_options : XrayOptions
new_xray_options = record {
  enable_proxy_protocol = false;
  enable_dns = false;
  dns_type = text "AsIs";
  enable_uot = false;
  enable_tfo = false;
  disable_iv_check = false;
  disable_sniffing = false;
  enable_fallback = false;
  fall_back_configs = none;
}

-- ===== src/Panel/Tls.antt =====
-- api/panel/node.go: the TLS settings of a node, and the names that they serve.
use v2b_z.Prelude.{Bool, false, List, [], ◌∷◌, ◌==◌, if◌then◌else◌}
use v2b_z.Prelude.Int.{ℤ, pos}
use v2b_z.Prelude.Text.{Text, text_eq}

pub record TlsSettings : Type 0 where
  pub server_name : Text
  pub server_names : List Text
  pub dest : Text
  pub server_port : Text
  pub short_id : Text
  pub short_ids : List Text
  pub private_key : Text
  pub mldsa65_seed : Text
  pub xver : ℤ
  pub cert_mode : Text
  pub cert_file : Text
  pub key_file : Text
  pub provider : Text
  pub dns_env : Text
  pub self_fallback : Bool
  pub reject_unknown_sni : Bool
  pub has_self_fallback : Bool
  pub has_reject_unknown_sni : Bool
  pub has_cert_fields : Bool

abbrev pub zero_tls : TlsSettings
zero_tls = record {
  server_name = [];
  server_names = [];
  dest = [];
  server_port = [];
  short_id = [];
  short_ids = [];
  private_key = [];
  mldsa65_seed = [];
  xver = pos 0;
  cert_mode = [];
  cert_file = [];
  key_file = [];
  provider = [];
  dns_env = [];
  self_fallback = false;
  reject_unknown_sni = false;
  has_self_fallback = false;
  has_reject_unknown_sni = false;
  has_cert_fields = false;
}

unfoldable pub effective_server_names : TlsSettings → List Text
effective_server_names t = elim t.server_names [
  | n ∷ ns ↦ n ∷ ns
  | [] ↦ if t.server_name == [] then [] else t.server_name ∷ []
]

unfoldable pub primary_server_name : TlsSettings → Text
unfolding effective_server_names
primary_server_name t = elim (effective_server_names t) [ [] ↦ [] | n ∷ ns ↦ n ]

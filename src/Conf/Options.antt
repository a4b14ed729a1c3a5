-- ===== src/Conf/Options.antt =====
-- conf/node.go: the options of a node, and how they are read from JSON.
use v2b_z.Prelude.{◌==◌, [], Option, none, some, if◌then◌else◌}
use v2b_z.Prelude.Int.{ℤ}
use v2b_z.Prelude.Text.{Text, text, text_eq}
use v2b_z.Conf.{LimitConfig, CertConfig}

-- The options of the xray and sing cores are not read by the code that is modelled here: they stand
-- by the raw bytes that they are read from.
pub record Options : Type 0 where
  pub name : Text
  pub core : Text
  pub core_name : Text
  pub listen_ip : Text
  pub send_ip : Text
  pub device_online_min_traffic : ℤ
  pub report_min_traffic : ℤ
  pub limit_config : LimitConfig
  pub raw_options : Option Text
  pub xray_options : Option Text
  pub sing_options : Option Text
  pub hysteria2_config_path : Text
  pub cert_config : Option CertConfig

-- UnmarshalJSON: `decode` is encoding/json into the fields of the struct, and `decodes` whether the
-- bytes decode into the options of a core. The second result is `none` on success; on an error of the
-- second call the default options of the core stay.
unfoldable pub unmarshal_json :
    (Option Text → Options → Option Options)
    → (Option Text → Option Text)
    → Option Text
    → Options
    → Options × Option Text
unmarshal_json decode core_error raw o = elim (decode raw o) [
  | none ↦ (o, some (text "unmarshal error"))
  | some o' ↦
      if o'.core == text "xray"
      then (record o' { xray_options = raw }, core_error raw)
      else if o'.core == text "sing"
      then (record o' { sing_options = raw }, core_error raw)
      else if o'.core == text "hysteria2"
      then (record o' { raw_options = raw }, none)
      else (record o' { core = []; raw_options = raw }, none)
]

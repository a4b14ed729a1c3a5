-- ===== src/Panel/Certificate/Names.antt =====
-- api/panel/node.go: the domain and the files of the certificate configuration of the panel.
use v2b_z.Prelude.{◌≡◌, ◌≢◌, sym, ◌∙◌, List, [], ◌∷◌, Option, some, arith, is_empty, if◌then◌else◌}
use v2b_z.Prelude.Int.{ℤ}
use v2b_z.Prelude.Text.{Text, text}
use v2b_z.Prelude.GoMap.{GoMap}
use v2b_z.Conf.{CertConfig}
use v2b_z.Panel.Tls.{primary_server_name}
use v2b_z.Panel.Node.{CommonNode, NodeInfo, node_tls_settings}
use v2b_z.Panel.Certificate.{cert_domain, node_file, or_default, build_panel_cert_config}

unfoldable pub first_nonempty : List Text → Text
first_nonempty [] = []
first_nonempty (t ∷ ts) = let rest = first_nonempty ts in if is_empty t then rest else t

or_default-nonempty : (d t : Text) → d ≢ [] → or_default d t ≢ []
or_default-nonempty d [] h = h
or_default-nonempty d (c ∷ t) h = ground arith

node_file-nonempty : (node_id : ℤ) (extension : Text) → node_file node_id extension ≢ []
node_file-nonempty node_id extension = ground arith

module _ (trim_space : Text → Text) (decode_env : Text → Option (GoMap Text Text)) where
  -- A configuration that the panel makes is for the first of three trimmed names that is not empty:
  -- the primary server name of the TLS settings, the node's server name, and its host. It always
  -- has a certificate file and a key file.
  pub build_panel_cert_config-names :
      (node_id : ℤ) (node : NodeInfo) (cm : CommonNode) (c : CertConfig)
      → (build_panel_cert_config trim_space decode_env node_id node (some cm)).0 ≡ some c
      → (c.cert_domain
          ≡ first_nonempty (
              trim_space (primary_server_name (node_tls_settings node))
              ∷ trim_space cm.server_name
              ∷ trim_space cm.host
              ∷ []))
        × (c.cert_file ≢ [])
        × (c.key_file ≢ [])
  unfolding build_panel_cert_config cert_domain first_nonempty
  build_panel_cert_config-names node_id node cm c h =
      let tls = node_tls_settings node in
      let cer = node_file node_id (text ".cer") in
      let key = node_file node_id (text ".key") in
      let f : c.cert_file ≡ or_default cer (trim_space tls.cert_file) = ground arith in
      let g : c.key_file ≡ or_default key (trim_space tls.key_file) = ground arith in
      (
        ground arith,
        λ e.
            or_default-nonempty cer (trim_space tls.cert_file)
              (node_file-nonempty node_id (text ".cer")) (sym f ∙ e),
        λ e.
            or_default-nonempty key (trim_space tls.key_file)
              (node_file-nonempty node_id (text ".key")) (sym g ∙ e),
      )

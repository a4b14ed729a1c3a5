-- ===== src/Node/Options.antt =====
-- node/options.go: the options of a node, with the certificate settings that the panel sent. Go's
-- clones are values here. `trim_space` is strings.TrimSpace.
use v2b_z.Prelude.{◌⊎◌, ◌≢◌}
use v2b_z.Prelude.{◌≡◌, [], Option, none, some, arith, is_empty, if◌then◌else◌}
use v2b_z.Prelude.Text.{Text}
use v2b_z.Prelude.GoMap.{GoMap}
use v2b_z.Conf.{CertConfig, new_cert_config}
use v2b_z.Conf.Options.{Options}
use v2b_z.Panel.Node.{NodeInfo}

unfoldable pub clone_dns_env : Option (GoMap Text Text) → Option (GoMap Text Text)
clone_dns_env env = env

unfoldable pub clone_cert_config : Option CertConfig → Option CertConfig
unfolding clone_dns_env
clone_cert_config none = none
clone_cert_config (some cert) = some (record cert { dns_env = clone_dns_env cert.dns_env })

unfoldable pub clone_options : Options → Options
unfolding clone_cert_config
clone_options option = record option { cert_config = clone_cert_config option.cert_config }

abbrev or_new : Option CertConfig → CertConfig
or_new none = new_cert_config
or_new (some cert) = cert

module _ (trim_space : Text → Text) where
  -- The block under `panelMode != ""`.
  unfoldable pub take_panel_mode : CertConfig → CertConfig → CertConfig
  take_panel_mode panel cert = if is_empty (trim_space panel.cert_mode) then cert else record cert {
    cert_mode = trim_space panel.cert_mode;
    cert_domain = trim_space panel.cert_domain;
    cert_file = trim_space panel.cert_file;
    key_file = trim_space panel.key_file;
    email = trim_space panel.email;
    provider = trim_space panel.provider;
    dns_env = clone_dns_env panel.dns_env;
  }

  unfoldable pub effective_cert_config : Option CertConfig → NodeInfo → CertConfig
  unfolding take_panel_mode
  effective_cert_config local node =
      let cert = or_new (clone_cert_config local) in
      elim node.panel_cert_config [
        | none ↦ cert
        | some panel ↦
            let taken = take_panel_mode panel cert in
            record taken {
              self_fallback =
                  if node.panel_cert_self_fallback_set
                  then panel.self_fallback
                  else taken.self_fallback;
              reject_unknown_sni =
                  if node.panel_cert_reject_unknown_sni_set
                  then panel.reject_unknown_sni
                  else taken.reject_unknown_sni;
            }
      ]

  unfoldable pub options_for_node : Options → NodeInfo → Options
  unfolding effective_cert_config clone_options
  options_for_node option node = record (clone_options option) {
    cert_config = some (effective_cert_config option.cert_config node);
  }

  -- If the panel sent a certificate configuration and there is a local one, the mode, domain,
  -- files, provider and DNS variables all come from the panel, trimmed, if its trimmed mode is not
  -- empty, and else all from the local options.
  pub effective_cert_config_source :
      (local panel : CertConfig) (node : NodeInfo)
      → node.panel_cert_config ≡ some panel
      → let cert = effective_cert_config (some local) node in
        ((trim_space panel.cert_mode ≡ [])
          × (cert.cert_mode ≡ local.cert_mode)
          × (cert.cert_domain ≡ local.cert_domain)
          × (cert.cert_file ≡ local.cert_file)
          × (cert.key_file ≡ local.key_file)
          × (cert.provider ≡ local.provider)
          × (cert.dns_env ≡ local.dns_env))
        ⊎ ((trim_space panel.cert_mode ≢ [])
            × (cert.cert_mode ≡ trim_space panel.cert_mode)
            × (cert.cert_domain ≡ trim_space panel.cert_domain)
            × (cert.cert_file ≡ trim_space panel.cert_file)
            × (cert.key_file ≡ trim_space panel.key_file)
            × (cert.provider ≡ trim_space panel.provider)
            × (cert.dns_env ≡ panel.dns_env))
  unfolding effective_cert_config clone_cert_config clone_dns_env
  effective_cert_config_source local panel node e = ground arith

-- ===== src/Panel/Certificate.antt =====
-- api/panel/node.go: buildPanelCertConfig and parseDNSEnv. `trim_space` is strings.TrimSpace, and
-- `decode_env` decodes a JSON object of strings.
pub mod Names
use v2b_z.Prelude.{
  ℕ, Bool, false, ◌||◌, not, List, [], ◌∷◌, ◌++◌, Option, none, some, nat_beq, if◌then◌else◌,
  is_empty,
}
use v2b_z.Prelude.Int.{ℤ}
use v2b_z.Prelude.Text.{Text, text, text_eq, has_prefix, split_by}
use v2b_z.Prelude.GoMap.{GoMap, insert}
use v2b_z.Prelude.Decimal.{itoa}
use v2b_z.Conf.{CertConfig}
use v2b_z.Panel.Tls.{TlsSettings, primary_server_name}
use v2b_z.Panel.Node.{CommonNode, NodeInfo, node_tls_settings}

abbrev is_separator : ℕ → Bool
is_separator c = nat_beq c b',' || nat_beq c 0x0a || nat_beq c 0x0d

unfoldable drop_empty : List Text → List Text
drop_empty [] = []
drop_empty (t ∷ ts) = let rest = drop_empty ts in if is_empty t then rest else t ∷ rest

-- strings.FieldsFunc at the separators.
unfoldable pub env_fields : Text → List Text
unfolding drop_empty
env_fields value = drop_empty (split_by is_separator value)

-- strings.SplitN(env, "=", 2), if there are two parts.
unfoldable pub cut_equals : Text → Option (Text × Text)
cut_equals [] = none
cut_equals (c ∷ s) =
    let rest = cut_equals s in
    if nat_beq c b'='
    then some ([], s)
    else elim rest [ none ↦ none | some (k, v) ↦ some (c ∷ k, v) ]

-- filepath.Join("/etc/V2bZ", "node-" + id + extension)
abbrev pub node_file : ℤ → Text → Text
node_file node_id extension = text "/etc/V2bZ/node-" ++ itoa node_id ++ extension

abbrev pub or_default : Text → Text → Text
or_default d t = if is_empty t then d else t

module _ (trim_space : Text → Text) (decode_env : Text → Option (GoMap Text Text)) where
  unfoldable pub store_decoded : GoMap Text Text → GoMap Text Text → GoMap Text Text
  store_decoded [] result = result
  store_decoded ((k, v) ∷ m) result =
      store_decoded m (if is_empty (trim_space k) then result else insert (trim_space k) v result)

  unfoldable pub store_fields : List Text → GoMap Text Text → GoMap Text Text
  store_fields [] result = result
  store_fields (env ∷ envs) result = store_fields envs (elim (cut_equals env) [
    | none ↦ result
    | some (k, v) ↦
        if is_empty (trim_space k) then result else insert (trim_space k) (trim_space v) result
  ])

  unfoldable pub parse_dns_env : Text → GoMap Text Text
  parse_dns_env value =
      let value' = trim_space value in
      let fields = store_fields (env_fields value') [] in
      if is_empty value'
      then []
      else if has_prefix value' (text "{")
      then elim (decode_env value') [ none ↦ fields | some m ↦ store_decoded m [] ]
      else fields

  -- The domain: the first of three names that is not blank; `cm` is the pointer to the common part.
  unfoldable pub cert_domain : TlsSettings → Option CommonNode → Text
  cert_domain tls cm =
      let primary = trim_space (primary_server_name tls) in
      if is_empty primary
      then elim cm [
        | none ↦ primary
        | some c ↦
            if is_empty (trim_space c.server_name)
            then trim_space c.host
            else trim_space c.server_name
      ]
      else primary

  unfoldable pub build_panel_cert_config :
      ℤ → NodeInfo → Option CommonNode → Option CertConfig × Bool × Bool
  unfolding cert_domain parse_dns_env
  build_panel_cert_config node_id node cm =
      let tls = node_tls_settings node in
      if not tls.has_cert_fields then (none, false, false) else (
        some (record {
          cert_mode = trim_space tls.cert_mode;
          reject_unknown_sni = tls.reject_unknown_sni;
          self_fallback = tls.self_fallback;
          cert_domain = cert_domain tls cm;
          cert_file = or_default (node_file node_id (text ".cer")) (trim_space tls.cert_file);
          key_file = or_default (node_file node_id (text ".key")) (trim_space tls.key_file);
          provider = trim_space tls.provider;
          email = text "node@zicboard.local";
          dns_env = some (parse_dns_env tls.dns_env);
        }),
        tls.has_self_fallback,
        tls.has_reject_unknown_sni,
      )

-- ===== src/Node/Certs/Request.antt =====
-- node/cert.go: requestCert and the modes of a certificate. `node_id` is the number of the node, and
-- `meta_path` the path of its metadata.
pub mod Loaded
pub mod Ends
pub mod Kept
pub mod Mode
use v2b_z.Prelude.{
  Bool, true, false, not, ◌&&◌, ◌||◌, [], Option, none, some, ◌==◌, Result, ok, err, if◌then◌else◌,
  is_empty,
}
use v2b_z.Prelude.Text.{Text, text, text_eq}
use v2b_z.Conf.{CertConfig}
use v2b_z.Conf.Options.{Options}
use v2b_z.Node.Options.{clone_cert_config}
use v2b_z.Node.Certs.{
  CertError, empty_target, unsupported_mode, issue_failed, self_signed_failed, Certificate,
  CertMetadata, Library, Disk, Services, Host,
}
use v2b_z.Node.Certs.Action.{Stop, failed, panicked}
use v2b_z.Node.Certs.Files.{
  domain_renew_before, validate_cert_paths, renew_before, validate_auto_cert_target,
  normalize_cert_target, ensure_cert_files_exist, load_certificate, certificate_ready,
}
use v2b_z.Node.Certs.Metadata.{
  basic_cert_metadata, metadata_from_certificate, metadata_from_cert_file, write_cert_metadata,
}
use v2b_z.Node.Certs.Lego.Obtain.{issue_lego_cert, load_issued}
use v2b_z.Node.Certs.SelfSigned.{generate_self_ssl_certificate}

-- A nil result without an error; metadata, with an error or without; or a panic.
pub data Answer : Type 0 where
  nothing : Answer
  done : CertMetadata → Option CertError → Answer
  crashed : Answer

-- The options in force come before those of the configuration.
unfoldable pub current_cert_config : Option Options → Option CertConfig → Option CertConfig
unfolding clone_cert_config
current_cert_config none local = clone_cert_config local
current_cert_config (some active) local = elim active.cert_config [
  | none ↦ clone_cert_config local
  | some cert ↦ clone_cert_config (some cert)
]

module _ (lib : Library) where
  unfoldable pub managed_cert_source : Text → Text → Text
  managed_cert_source mode target =
      if mode == text "dns"
      then text "acme_dns"
      else elim (lib.parse_ip target) [ some _ ↦ text "acme_ip" | none ↦ text "acme_http" ]

  abbrev no_env : CertConfig → Bool
  no_env cert = elim cert.dns_env [ none ↦ true | some env ↦ is_empty env ]

  unfoldable pub auto_cert_challenge : CertConfig → Text × Text
  auto_cert_challenge cert = elim (lib.parse_ip cert.cert_domain) [
    | some _ ↦ (text "http", text "acme_ip")
    | none ↦
        if not (is_empty (lib.trim_space cert.provider)) && not (no_env cert)
        then (text "dns", text "acme_dns")
        else (text "http", text "acme_http")
  ]

  -- The configuration as the switch sees it.
  unfoldable pub normalized : CertConfig → CertConfig
  normalized cert = record cert {
    cert_mode = lib.to_lower (lib.trim_space cert.cert_mode);
    cert_domain = normalize_cert_target lib cert.cert_domain;
    email = if is_empty cert.email then text "node@zicboard.local" else cert.email;
  }

  module _ {D A : Type 0} (disk : Disk D) (services : Services A) where
    module _ (meta_path : Text) where
      unfoldable pub fail : CertConfig → Text → CertError → Host D A → Host D A × Answer
      fail cert source e h =
          (h, done (basic_cert_metadata (services.now h.services) cert source) (some e))

      -- The metadata are written, and an error of that is dropped.
      unfoldable pub finish : CertConfig → Text → Certificate → Host D A → Host D A × Answer
      finish cert source x h =
          let meta = metadata_from_certificate lib (services.now h.services) cert x source in
          ((write_cert_metadata lib disk meta_path meta h).0, done meta none)

      -- The certificate of the files is kept.
      unfoldable pub keep : CertConfig → Text → Host D A → Host D A × Answer
      keep cert source h =
          let (meta, e) =
            metadata_from_cert_file lib disk (services.now h.services) cert source h.disk in
          elim e [
            | some x ↦ (h, done meta (some x))
            | none ↦ ((write_cert_metadata lib disk meta_path meta h).0, done meta none)
          ]

      -- The end of a call whose error is an answer.
      unfoldable pub settle :
          (CertError → CertError)
          → CertConfig
          → Text
          → Host D A × Result Stop Certificate
          → Host D A × Answer
      unfolding fail finish
      settle f cert source (h, ok x) = finish cert source x h
      settle f cert source (h, err (failed e)) = fail cert source (f e) h
      settle f cert source (h, err panicked) = (h, crashed)

      -- The rest of generateAndStoreSelfCert: what was written is read back.
      unfoldable pub store_self_cert :
          CertConfig → Host D A × Result Stop (Unit {0}) → Host D A × Answer
      unfolding fail settle
      store_self_cert cert (h, err panicked) = (h, crashed)
      store_self_cert cert (h, err (failed e)) = fail cert (text "self") (self_signed_failed e) h
      store_self_cert cert (h, ok _) =
          settle (λ e. e) cert (text "self") (load_issued lib disk services cert h)

      unfoldable pub generate_and_store_self_cert : CertConfig → Host D A → Host D A × Answer
      unfolding store_self_cert generate_self_ssl_certificate
      generate_and_store_self_cert cert h = store_self_cert cert (
          generate_self_ssl_certificate lib disk services cert.cert_domain cert.cert_file
            cert.key_file h)

      unfoldable pub request_managed_cert :
          CertConfig → Text → Text → Bool → Host D A → Host D A × Answer
      unfolding fail keep settle
      request_managed_cert cert challenge_mode source allow_self_signed h =
          elim (validate_cert_paths cert) [
            | some e ↦ fail cert source e h
            | none ↦
                if is_empty cert.cert_domain
                then fail cert source (empty_target cert.cert_mode) h
                else elim (certificate_ready lib disk cert (renew_before lib cert.cert_domain)
                    allow_self_signed (services.now h.services) h.disk) [
                      | err e ↦ fail cert source e h
                      | ok true ↦ keep cert source h
                      | ok false ↦
                          settle issue_failed cert source
                            (issue_lego_cert lib disk services cert challenge_mode h)
                    ]
          ]

      -- ACME failed: a self-signed certificate, if it is allowed.
      unfoldable pub fall_back :
          CertConfig → Text → Host D A × Result Stop Certificate → Host D A × Answer
      unfolding fail finish generate_and_store_self_cert
      fall_back cert source (h, ok x) = finish cert source x h
      fall_back cert source (h, err (failed e)) =
          if not cert.self_fallback
          then fail cert source (issue_failed e) h
          else generate_and_store_self_cert cert h
      fall_back cert source (h, err panicked) = (h, crashed)

      unfoldable pub request_auto_cert : CertConfig → Host D A → Host D A × Answer
      unfolding fail keep fall_back
      request_auto_cert cert h = elim (validate_cert_paths cert) [
        | some e ↦ fail cert (text "auto") e h
        | none ↦ elim (validate_auto_cert_target lib cert.cert_domain) [
          | some e ↦ fail cert (text "auto") e h
          | none ↦
              let (challenge_mode, source) = auto_cert_challenge cert in
              elim (certificate_ready lib disk cert (renew_before lib cert.cert_domain) false
                (services.now h.services) h.disk) [
                  | err e ↦ fail cert source e h
                  | ok true ↦ keep cert source h
                  | ok false ↦
                      fall_back cert source
                        (issue_lego_cert lib disk services cert challenge_mode h)
                ]
        ]
      ]

      unfoldable pub request_self_cert : CertConfig → Host D A → Host D A × Answer
      unfolding fail keep generate_and_store_self_cert
      request_self_cert cert h = elim (validate_cert_paths cert) [
        | some e ↦ fail cert (text "self") e h
        | none ↦
            if is_empty cert.cert_domain
            then fail cert (text "self") (empty_target (text "self")) h
            else elim (certificate_ready lib disk cert domain_renew_before true
                (services.now h.services) h.disk) [
                  | err e ↦ fail cert (text "self") e h
                  | ok true ↦ keep cert (text "self") h
                  | ok false ↦ generate_and_store_self_cert cert h
                ]
      ]

      -- Mode "file": the files are there, and the certificate is read; nothing is written.
      unfoldable pub use_files : CertConfig → Host D A → Host D A × Answer
      unfolding fail
      use_files cert h = elim (validate_cert_paths cert) [
        | some e ↦ fail cert (text "file") e h
        | none ↦ elim (ensure_cert_files_exist lib disk cert h.disk) [
          | some e ↦ fail cert (text "file") e h
          | none ↦
              let (meta, e) =
                metadata_from_cert_file lib disk (services.now h.services) cert (text "file")
                  h.disk in
              (h, done meta e)
        ]
      ]

      unfoldable pub request_by_mode : CertConfig → Host D A → Host D A × Answer
      unfolding use_files request_managed_cert request_auto_cert request_self_cert fail
      request_by_mode cert h =
          if cert.cert_mode == text "none" || is_empty cert.cert_mode
          then (h, nothing)
          else if cert.cert_mode == text "file"
          then use_files cert h
          else if cert.cert_mode == text "dns" || cert.cert_mode == text "http"
          then request_managed_cert cert cert.cert_mode
              (managed_cert_source cert.cert_mode cert.cert_domain) false h
          else if cert.cert_mode == text "auto"
          then request_auto_cert cert h
          else if cert.cert_mode == text "self"
          then request_self_cert cert h
          else fail cert [] (unsupported_mode cert.cert_mode) h

      unfoldable pub request_cert : Option CertConfig → Host D A → Host D A × Answer
      unfolding request_by_mode normalized
      request_cert none h = (h, nothing)
      request_cert (some cert) h = request_by_mode (normalized cert) h

-- ===== src/Node/Certs/Request/Kept.antt =====
-- node/cert.go: a certificate that is ready is kept.
use v2b_z.Prelude.{
  ◌≡◌, ◌≢◌, ◌∙◌, Bool-cases, inl, inr, Result, err, refl, true, false, ok, arith, some, ==_iff,
}
use v2b_z.Prelude.Text.{Text, text, text_eq}
use v2b_z.Conf.{CertConfig}
use v2b_z.Node.Certs.{CertMetadata, Library, Disk, Services, Host}
use v2b_z.Node.Certs.Action.{Stop, ◌>>◌, on_disk}
use v2b_z.Node.Certs.Files.{is_exist, certificate_ready, renew_before, check_path}
use v2b_z.Node.Certs.Metadata.{write_cert_metadata}
use v2b_z.Node.Certs.Request.{
  fail, keep, request_managed_cert, request_auto_cert, use_files, normalized, request_by_mode,
  request_cert, auto_cert_challenge, managed_cert_source,
}

module _ (lib : Library) {D A : Type 0} (disk : Disk D) (services : Services A)
    (meta_path : Text) where
  check-services :
      (path : Text) (h : Host D A) → (check_path lib disk path h).0.services ≡ h.services
  unfolding check_path
  check-services path h = elim (Bool-cases (is_exist lib disk (lib.path_dir path) h.disk)) [
    | inl e ↦ rw (check_path, e) refl
    | inr e ↦ rw (check_path, e) refl
  ]

  write-services :
      (meta : CertMetadata) (h : Host D A)
      → (write_cert_metadata lib disk meta_path meta h).0.services ≡ h.services
  unfolding write_cert_metadata
  write-services meta h = written (check_path lib disk meta_path h) ∙ check-services meta_path h
    where
      written :
          (r : Host D A × Result Stop (Unit {0}))
          → (((λ _. r) >> on_disk (disk.write_file meta_path (lib.marshal_metadata meta)))
              r.0).0.services
            ≡ r.0.services
      written (h', ok _) = refl
      written (h', err e) = refl

  keep-services :
      (cert : CertConfig) (source : Text) (h : Host D A)
      → (keep lib disk services meta_path cert source h).0.services ≡ h.services
  unfolding keep
  keep-services cert source h = grind (arith, write-services)

  managed-services :
      (cert : CertConfig) (mode source : Text) (h : Host D A)
      → certificate_ready lib disk cert
          (renew_before lib cert.cert_domain)
          false
          (services.now h.services)
          h.disk
        ≡ ok true
      → (request_managed_cert lib disk services meta_path cert mode source false h).0.services
        ≡ h.services
  unfolding request_managed_cert fail
  managed-services cert mode source h e = ground (arith, e, keep-services cert source h)

  auto-services :
      (cert : CertConfig) (h : Host D A)
      → certificate_ready lib disk cert
          (renew_before lib cert.cert_domain)
          false
          (services.now h.services)
          h.disk
        ≡ ok true
      → (request_auto_cert lib disk services meta_path cert h).0.services ≡ h.services
  unfolding request_auto_cert fail
  auto-services cert h e = ground (arith, e, keep-services cert (auto_cert_challenge lib cert).1 h)

  -- In every mode but self, a request for a certificate that is ready for its target (there, valid
  -- for longer than the time before renewal, for this target, and not signed by itself) asks nothing
  -- of ACME, makes no key and no other certificate: the services are left as they are.
  pub request_cert-kept :
      (cert : CertConfig) (h : Host D A)
      → let c = normalized lib cert in
        certificate_ready lib disk c
            (renew_before lib c.cert_domain)
            false
            (services.now h.services)
            h.disk
          ≡ ok true
        → c.cert_mode ≢ text "self"
        → (request_cert lib disk services meta_path (some cert) h).0.services ≡ h.services
  unfolding request_cert request_by_mode use_files fail
  request_cert-kept cert h e n =
      let c = normalized lib cert in
      ground (
        arith,
        ==_iff c.cert_mode (text "self"),
        e,
        n,
        managed-services c c.cert_mode (managed_cert_source lib c.cert_mode c.cert_domain) h e,
        auto-services c h e,
      )

-- ===== src/Node/Certs/Request/Ends.antt =====
-- node/cert.go: how a certificate request ends, in every mode.
use mathlib.Core.Path.{subst, sym}
use v2b_z.Prelude.{
  ◌≡◌, refl, Bool, true, false, [], some, none, Option, Result, ok, err, is_empty, Result-cases,
  inl, inr, by_option, by_if, by_test, by_answer, ◌==◌, ◌||◌, not,
}
use v2b_z.Prelude.Text.{Text, text, text_eq}
use v2b_z.Conf.{CertConfig}
use v2b_z.Node.Certs.{
  CertError, Certificate, CertMetadata, Library, Disk, Services, Host, empty_target, issue_failed,
  self_signed_failed, unsupported_mode,
}
use v2b_z.Node.Certs.Action.{Stop, failed, panicked}
use v2b_z.Node.Certs.Files.{
  load_certificate, validate_cert_paths, validate_auto_cert_target, certificate_ready, renew_before,
  domain_renew_before, ensure_cert_files_exist,
}
use v2b_z.Node.Certs.Metadata.{
  metadata_from_cert_file, metadata_from_certificate, basic_cert_metadata,
}
use v2b_z.Node.Certs.Lego.Obtain.{load_issued}
use v2b_z.Node.Certs.Request.{
  Answer, done, store_self_cert, settle, fall_back, generate_and_store_self_cert, keep, fail,
  request_managed_cert, request_auto_cert, request_self_cert, use_files, normalized,
  request_by_mode, request_cert, auto_cert_challenge,
}
use v2b_z.Node.Certs.Request.Loaded.{
  IsLoaded, IsEnd, load_issued-IsLoaded, issue_lego_cert-IsLoaded, finish-IsEnd, fail-IsEnd,
  keep-IsEnd, settle-IsEnd,
}

module _ (lib : Library) {D A : Type 0} (disk : Disk D) (services : Services A)
    (meta_path : Text) where
  module _ (cert : CertConfig)
      (kept_by_write : (b : Text) (d : D)
        → disk.read_file cert.cert_file (disk.write_file meta_path b d).0
          ≡ disk.read_file cert.cert_file d)
      (kept_by_mkdir : (p : Text) (d : D)
        → disk.read_file cert.cert_file (disk.mkdir_all p d).0
          ≡ disk.read_file cert.cert_file d) where
    abbrev Ends : Host D A → Host D A × Answer → Type 0
    Ends = IsEnd lib disk services meta_path cert

    abbrev failing :
        (source : Text) (e : _) (h0 h : Host D A)
        → Ends h0 (fail lib disk services meta_path cert source e h)
    failing = fail-IsEnd lib disk services meta_path cert kept_by_write kept_by_mkdir

    abbrev keeping :
        (source : Text) (h0 h : Host D A) → Ends h0 (keep lib disk services meta_path cert source h)
    keeping = keep-IsEnd lib disk services meta_path cert kept_by_write kept_by_mkdir

    settling :
        (f : CertError → CertError) (source : Text) (h0 : Host D A)
        (r : Host D A × Result Stop Certificate)
        → IsLoaded lib disk services meta_path cert r
        → Ends h0 (settle lib disk services meta_path f cert source r)
    settling = settle-IsEnd lib disk services meta_path cert kept_by_write kept_by_mkdir

    file_metadata-IsEnd :
        (h : Host D A)
        → let (meta, e) =
            metadata_from_cert_file lib disk (services.now h.services) cert (text "file") h.disk in
          Ends h (h, done meta e)
    unfolding metadata_from_cert_file metadata_from_certificate basic_cert_metadata
    file_metadata-IsEnd h = elim (Result-cases (load_certificate lib disk cert h.disk)) [
      | inl (x, e) ↦ subst P (sym (read_ok x e)) (x, e, refl, refl, refl, refl)
      | inr (x, e) ↦ subst P (sym (read_err x e)) (refl, refl, refl, refl)
    ]
      where
        P : CertMetadata × Option CertError → Type 0
        P m = Ends h (h, done m.0 m.1)

        read_ok :
            (x : Certificate)
            → load_certificate lib disk cert h.disk ≡ ok x
            → metadata_from_cert_file lib disk (services.now h.services) cert (text "file") h.disk
              ≡ (metadata_from_certificate lib (services.now h.services) cert x (text "file"), none)
        read_ok x e = rw (metadata_from_cert_file, e) refl

        read_err :
            (x : CertError)
            → load_certificate lib disk cert h.disk ≡ err x
            → metadata_from_cert_file lib disk (services.now h.services) cert (text "file") h.disk
              ≡ (basic_cert_metadata (services.now h.services) cert (text "file"), some x)
        read_err x e = rw (metadata_from_cert_file, e) refl

    use_files-IsEnd : (h : Host D A) → Ends h (use_files lib disk services meta_path cert h)
    unfolding use_files
    use_files-IsEnd h =
        by_option (Ends h) (λ e. failing (text "file") e h h)
          (by_option (Ends h) (λ e. failing (text "file") e h h) (file_metadata-IsEnd h)
            (ensure_cert_files_exist lib disk cert h.disk))
          (validate_cert_paths cert)

    store_self-IsEnd :
        (h0 : Host D A) (r : Host D A × Result Stop (Unit {0}))
        → Ends h0 (store_self_cert lib disk services meta_path cert r)
    unfolding store_self_cert
    store_self-IsEnd h0 (h, err panicked) = tt
    store_self-IsEnd h0 (h, err (failed e)) = failing (text "self") (self_signed_failed e) h0 h
    store_self-IsEnd h0 (h, ok _) =
        settling (λ e. e) (text "self") h0 (load_issued lib disk services cert h)
          (load_issued-IsLoaded lib disk services meta_path cert h)

    self-IsEnd :
        (h0 h : Host D A)
        → Ends h0 (generate_and_store_self_cert lib disk services meta_path cert h)
    unfolding generate_and_store_self_cert
    self-IsEnd h0 h = store_self-IsEnd h0 _

    fall_back-IsEnd :
        (source : Text) (h0 : Host D A) (r : Host D A × Result Stop Certificate)
        → IsLoaded lib disk services meta_path cert r
        → Ends h0 (fall_back lib disk services meta_path cert source r)
    unfolding fall_back IsLoaded
    fall_back-IsEnd source h0 (h, ok x) e =
        finish-IsEnd lib disk services meta_path cert kept_by_write kept_by_mkdir source x h0 h e
    fall_back-IsEnd source h0 (h, err (failed e)) _ =
        by_if (Ends h0) (failing source (issue_failed e) h0 h) (self-IsEnd h0 h)
          (not cert.self_fallback)
    fall_back-IsEnd source h0 (h, err panicked) _ = tt

    managed-IsEnd :
        (mode source : Text) (b : Bool) (h : Host D A)
        → Ends h (request_managed_cert lib disk services meta_path cert mode source b h)
    unfolding request_managed_cert
    managed-IsEnd mode source b h =
        by_option (Ends h) (λ e. failing source e h h)
          (by_if (Ends h) (failing source (empty_target cert.cert_mode) h h)
            (by_answer (Ends h) (keeping source h h)
              (settling issue_failed source h _
                (issue_lego_cert-IsLoaded lib disk services meta_path cert mode h))
              (λ e. failing source e h h)
              (certificate_ready lib disk cert (renew_before lib cert.cert_domain) b
                (services.now h.services) h.disk))
            (is_empty cert.cert_domain))
          (validate_cert_paths cert)

    auto-IsEnd : (h : Host D A) → Ends h (request_auto_cert lib disk services meta_path cert h)
    unfolding request_auto_cert
    auto-IsEnd h =
        by_option (Ends h) (λ e. failing (text "auto") e h h)
          (by_option (Ends h) (λ e. failing (text "auto") e h h)
            (by_answer (Ends h) (keeping source h h)
              (fall_back-IsEnd source h _
                (issue_lego_cert-IsLoaded lib disk services meta_path cert mode h))
              (λ e. failing source e h h)
              (certificate_ready lib disk cert (renew_before lib cert.cert_domain) false
                (services.now h.services) h.disk))
            (validate_auto_cert_target lib cert.cert_domain))
          (validate_cert_paths cert)
      where
        mode : Text
        mode = (auto_cert_challenge lib cert).0

        source : Text
        source = (auto_cert_challenge lib cert).1

    own-IsEnd : (h : Host D A) → Ends h (request_self_cert lib disk services meta_path cert h)
    unfolding request_self_cert
    own-IsEnd h =
        by_option (Ends h) (λ e. failing (text "self") e h h)
          (by_if (Ends h) (failing (text "self") (empty_target (text "self")) h h)
            (by_answer (Ends h) (keeping (text "self") h h) (self-IsEnd h h)
              (λ e. failing (text "self") e h h)
              (certificate_ready lib disk cert domain_renew_before true (services.now h.services)
                h.disk))
            (is_empty cert.cert_domain))
          (validate_cert_paths cert)

    by_mode-IsEnd : (h : Host D A) → Ends h (request_by_mode lib disk services meta_path cert h)
    unfolding request_by_mode
    by_mode-IsEnd h =
        by_test (Ends h) (mode == text "none" || is_empty mode) (λ e. (refl, e))
          (λ _.
            by_if (Ends h) (use_files-IsEnd h)
              (by_if (Ends h) (managed-IsEnd mode _ false h)
                (by_if (Ends h) (auto-IsEnd h)
                  (by_if (Ends h) (own-IsEnd h) (failing [] (unsupported_mode mode) h h)
                    (mode == text "self"))
                  (mode == text "auto"))
                (mode == text "dns" || mode == text "http"))
              (mode == text "file"))
      where
        mode : Text
        mode = cert.cert_mode

  -- A request for a configuration ends, for the configuration with the mode and the target that it
  -- normalises, in one of four ways: a mode that is none or empty changes nothing; success means that
  -- the certificate file then holds a certificate, and the metadata are its hash and its end, with
  -- the target and the mode; an error comes with metadata that have neither; or the process panics.
  -- The condition is that a write to the metadata file, and a new directory, leave the certificate
  -- file as it is.
  pub request_cert-IsEnd :
      (cert : CertConfig) (h : Host D A)
      → ((b : Text) (d : D)
          → disk.read_file cert.cert_file (disk.write_file meta_path b d).0
            ≡ disk.read_file cert.cert_file d)
      → ((p : Text) (d : D)
          → disk.read_file cert.cert_file (disk.mkdir_all p d).0 ≡ disk.read_file cert.cert_file d)
      → IsEnd lib disk services meta_path
          (normalized lib cert)
          h
          (request_cert lib disk services meta_path (some cert) h)
  unfolding request_cert normalized
  request_cert-IsEnd cert h k k' = by_mode-IsEnd (normalized lib cert) k k' h

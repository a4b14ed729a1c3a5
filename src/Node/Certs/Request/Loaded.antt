-- ===== src/Node/Certs/Request/Loaded.antt =====
-- node/cert.go: how the steps of a certificate request end.
use mathlib.Core.Path.{subst}
use v2b_z.Prelude.{
  ◌≡◌, refl, sym, ◌∙◌, true, [], none, some, Result, ok, err, arith, is_empty, Result-cases, inl,
  inr, Bool-cases, ◌==◌, ◌||◌,
}
use v2b_z.Prelude.Int.{pos}
use v2b_z.Prelude.Text.{Text, text, text_eq}
use v2b_z.Conf.{CertConfig}
use v2b_z.Node.Options.{clone_dns_env}
use v2b_z.Node.Certs.{CertError, Certificate, CertMetadata, Library, Disk, Services, Host}
use v2b_z.Node.Certs.Action.{Action, Stop, failed, panicked, ◌>>=◌, ◌>>◌, with_text, on_disk}
use v2b_z.Node.Certs.Files.{load_certificate, check_path, is_exist}
use v2b_z.Node.Certs.Metadata.{
  basic_cert_metadata, metadata_from_certificate, metadata_from_cert_file, write_cert_metadata,
  cert_sha256, unix,
}
use v2b_z.Node.Certs.Lego.Obtain.{issue_lego_cert, load_issued, create_cert, new_lego}
use v2b_z.Node.Certs.Request.{Answer, nothing, done, crashed, fail, finish, keep, settle}

module _ (lib : Library) {D A : Type 0} (disk : Disk D) (services : Services A)
    (meta_path : Text) where
  -- The certificate of the file, where the call gave one.
  unfoldable pub IsLoaded : CertConfig → Host D A × Result Stop Certificate → Type 0
  IsLoaded cert (h, ok x) = load_certificate lib disk cert h.disk ≡ ok x
  IsLoaded cert (h, err e) = Unit {0}

  bind-IsLoaded :
      {Y : Type 0} (cert : CertConfig) (f : Y → Action (Host D A) Certificate)
      → ((y : Y) (h : Host D A) → IsLoaded cert (f y h))
      → (m : Action (Host D A) Y) (h : Host D A) → IsLoaded cert ((m >>= f) h)
  unfolding IsLoaded
  bind-IsLoaded {Y = Y} cert f all m h = split (m h)
    where
      split :
          (r : Host D A × Result Stop Y)
          → IsLoaded cert (elim r.1 [ ok y ↦ f y r.0 | err e ↦ (r.0, err e) ])
      split (h', ok y) = all y h'
      split (h', err e) = tt

  pub load_issued-IsLoaded :
      (cert : CertConfig) (h : Host D A) → IsLoaded cert (load_issued lib disk services cert h)
  unfolding load_issued IsLoaded
  load_issued-IsLoaded cert h = ground arith

  pub issue_lego_cert-IsLoaded :
      (cert : CertConfig) (mode : Text) (h : Host D A)
      → IsLoaded cert (issue_lego_cert lib disk services cert mode h)
  unfolding issue_lego_cert
  issue_lego_cert-IsLoaded cert mode h =
      bind-IsLoaded cert
        (λ l. create_cert lib disk services l >>= λ _. load_issued lib disk services cert)
        (λ l.
          bind-IsLoaded cert (λ _. load_issued lib disk services cert)
            (λ _. load_issued-IsLoaded cert) (create_cert lib disk services l))
        (with_text (text "create lego object error: ") (
          new_lego lib disk services
            (record cert { cert_mode = mode; dns_env = clone_dns_env cert.dns_env })))
        h

  -- How a request for `cert` ends: without a configuration to act on; with the certificate that the
  -- file holds; with an error, and metadata that name no certificate; or with a panic.
  abbrev pub IsEnd : CertConfig → Host D A → Host D A × Answer → Type 0
  IsEnd cert h (h', nothing) =
      (h' ≡ h) × ((cert.cert_mode == text "none" || is_empty cert.cert_mode) ≡ true)
  IsEnd cert h (h', done meta none) =
      (x : Certificate) × (load_certificate lib disk cert h'.disk ≡ ok x)
      × (meta.target ≡ cert.cert_domain)
      × (meta.mode ≡ cert.cert_mode)
      × (meta.sha256 ≡ cert_sha256 lib x)
      × (meta.not_after ≡ unix x.not_after)
  IsEnd cert h (h', done meta (some e)) =
      (meta.target ≡ cert.cert_domain)
      × (meta.mode ≡ cert.cert_mode)
      × (meta.sha256 ≡ [])
      × (meta.not_after ≡ pos 0)
  IsEnd cert h (h', crashed) = Unit {0}

  -- The file of the metadata is another one than that of the certificate.
  module _ (cert : CertConfig)
      (kept_by_write : (b : Text) (d : D)
        → disk.read_file cert.cert_file (disk.write_file meta_path b d).0
          ≡ disk.read_file cert.cert_file d)
      (kept_by_mkdir : (p : Text) (d : D)
        → disk.read_file cert.cert_file (disk.mkdir_all p d).0
          ≡ disk.read_file cert.cert_file d) where
    read-check_path :
        (path : Text) (h : Host D A)
        → disk.read_file cert.cert_file (check_path lib disk path h).0.disk
          ≡ disk.read_file cert.cert_file h.disk
    unfolding check_path
    read-check_path path h = elim (Bool-cases (is_exist lib disk (lib.path_dir path) h.disk)) [
      | inl e ↦ rw (check_path, e) refl
      | inr e ↦ rw (check_path, e) (kept_by_mkdir (lib.path_dir path) h.disk)
    ]

    read-write_cert_metadata :
        (meta : CertMetadata) (h : Host D A)
        → disk.read_file cert.cert_file (write_cert_metadata lib disk meta_path meta h).0.disk
          ≡ disk.read_file cert.cert_file h.disk
    unfolding write_cert_metadata
    read-write_cert_metadata meta h =
        written (check_path lib disk meta_path h) ∙ read-check_path meta_path h
      where
        written :
            (r : Host D A × Result Stop (Unit {0}))
            → disk.read_file cert.cert_file
                (((λ _. r) >> on_disk (disk.write_file meta_path (lib.marshal_metadata meta)))
                  r.0).0.disk
              ≡ disk.read_file cert.cert_file r.0.disk
        written (h', ok _) = kept_by_write (lib.marshal_metadata meta) h'.disk
        written (h', err e) = refl

    load-write_cert_metadata :
        (meta : CertMetadata) (h : Host D A)
        → load_certificate lib disk cert (write_cert_metadata lib disk meta_path meta h).0.disk
          ≡ load_certificate lib disk cert h.disk
    unfolding load_certificate
    load-write_cert_metadata meta h = rw (load_certificate, read-write_cert_metadata meta h) refl

    pub finish-IsEnd :
        (source : Text) (x : Certificate) (h0 h : Host D A)
        → load_certificate lib disk cert h.disk ≡ ok x
        → IsEnd cert h0 (finish lib disk services meta_path cert source x h)
    unfolding finish metadata_from_certificate
    finish-IsEnd source x h0 h e = (x, load-write_cert_metadata _ h ∙ e, refl, refl, refl, refl)

    pub fail-IsEnd :
        (source : Text) (e : CertError) (h0 h : Host D A)
        → IsEnd cert h0 (fail lib disk services meta_path cert source e h)
    unfolding fail basic_cert_metadata
    fail-IsEnd source e h0 h = (refl, refl, refl, refl)

    keep-finish :
        (source : Text) (x : Certificate) (h : Host D A)
        → load_certificate lib disk cert h.disk ≡ ok x
        → keep lib disk services meta_path cert source h
          ≡ finish lib disk services meta_path cert source x h
    unfolding keep finish metadata_from_cert_file
    keep-finish source x h e = ground (arith, e)

    keep-fail :
        (source : Text) (e : CertError) (h : Host D A)
        → load_certificate lib disk cert h.disk ≡ err e
        → keep lib disk services meta_path cert source h
          ≡ fail lib disk services meta_path cert source e h
    unfolding keep fail metadata_from_cert_file
    keep-fail source x h e = ground (arith, e)

    pub keep-IsEnd :
        (source : Text) (h0 h : Host D A)
        → IsEnd cert h0 (keep lib disk services meta_path cert source h)
    keep-IsEnd source h0 h = elim (Result-cases (load_certificate lib disk cert h.disk)) [
      | inl (x, e) ↦
          subst (IsEnd cert h0) (sym (keep-finish source x h e)) (finish-IsEnd source x h0 h e)
      | inr (x, e) ↦ subst (IsEnd cert h0) (sym (keep-fail source x h e)) (fail-IsEnd source x h0 h)
    ]

    pub settle-IsEnd :
        (f : CertError → CertError) (source : Text) (h0 : Host D A)
        (r : Host D A × Result Stop Certificate)
        → IsLoaded cert r
        → IsEnd cert h0 (settle lib disk services meta_path f cert source r)
    unfolding settle IsLoaded
    settle-IsEnd f source h0 (h, ok x) e = finish-IsEnd source x h0 h e
    settle-IsEnd f source h0 (h, err (failed e)) _ = fail-IsEnd source (f e) h0 h
    settle-IsEnd f source h0 (h, err panicked) _ = tt

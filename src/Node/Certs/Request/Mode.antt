-- ===== src/Node/Certs/Request/Mode.antt =====
-- node/cert.go and core/xray/inbound.go: the mode of a certificate as the two read it.
use v2b_z.Prelude.{◌≡◌, ◌≢◌, arith, [], Option, some, ok, ==_iff}
use v2b_z.Prelude.Text.{Text, text, text_eq}
use v2b_z.Conf.{CertConfig}
use v2b_z.Conf.Options.{Options}
use v2b_z.Conf.Xray.{XrayOptions}
use v2b_z.Panel.Node.{NodeInfo, tls_security}
use v2b_z.Core.Xray.Inbound.{Inbound}
use v2b_z.Core.Xray.Inbound as Xray
use v2b_z.Core.Xray.Inbound.Build.{inbound_of}
use v2b_z.Core.Xray.Inbound.Fits.{inbound_of-IsSecured}
use v2b_z.Node.Certs.{Library, Disk, Services, Host}
use v2b_z.Node.Certs.Request.{nothing, normalized, request_by_mode, request_cert}

module _ (lib : Library) {D A H : Type 0} (disk : Disk D) (services : Services A)
    (xlib : Xray.Library H) (meta_path : Text) where
  unread_mode :
      (cert : CertConfig) (h : Host D A)
      → lib.to_lower (lib.trim_space cert.cert_mode) ≡ text "none"
      → request_cert lib disk services meta_path (some cert) h ≡ (h, nothing)
  unfolding request_cert normalized request_by_mode
  unread_mode cert h e =
      ground (arith, e, ==_iff (lib.to_lower (lib.trim_space cert.cert_mode)) (text "none"))

  -- A mode of a certificate that is none only in lower case or without space around it makes the
  -- controller ask for no certificate, while the xray inbound of a TLS node that is made with it has
  -- TLS.
  pub request_cert-inbound_of :
      (cert : CertConfig) (h : Host D A) (option : Options) (xray : Option XrayOptions)
      (node : NodeInfo) (tag : Text) (i : Inbound)
      → lib.to_lower (lib.trim_space cert.cert_mode) ≡ text "none"
      → cert.cert_mode ≢ text "none"
      → cert.cert_mode ≢ []
      → option.cert_config ≡ some cert
      → node.security ≡ tls_security
      → inbound_of xlib option xray node tag ≡ ok i
      → (request_cert lib disk services meta_path (some cert) h ≡ (h, nothing))
        × (i.stream.security ≡ text "tls")
  request_cert-inbound_of cert h option xray node tag i e n n' o s b = (
    unread_mode cert h e,
    ground (
      arith,
      (inbound_of-IsSecured xlib option xray node tag i b).1,
      o,
      s,
      n,
      n',
      ==_iff cert.cert_mode (text "none"),
    ),
  )

-- ===== src/Node/Certs/SelfSigned.antt =====
-- node/cert.go: generateSelfSslCertificate.
use v2b_z.Prelude.{none, some}
use v2b_z.Prelude.Int.{ℤ, pos}
use v2b_z.Prelude.Text.{Text, text}
use v2b_z.Node.Certs.{Template, Library, Disk, Services, Host}
use v2b_z.Node.Certs.Action.{Action, ◌>>=◌, ◌>>◌, on_disk, from_services}
use v2b_z.Node.Certs.Files.{check_path}

module _ (lib : Library) where
  module _ {D A : Type 0} (disk : Disk D) (services : Services A) where
    -- The template of a certificate for 30 years.
    unfoldable pub self_template : Text → ℤ → Template
    self_template domain now = record {
      common_name = domain;
      not_before = now;
      not_after = lib.add_years now (pos 30);
      ip_addresses = lib.parse_ip domain;
      dns_names = elim (lib.parse_ip domain) [ some _ ↦ none | none ↦ some domain ];
    }

    unfoldable pub generate_self_ssl_certificate : Text → Text → Text → Action (Host D A) (Unit {0})
    unfolding check_path self_template
    generate_self_ssl_certificate domain cert_path key_path = do
      key ← from_services services.generate_rsa_key
      x ← λ h.
          from_services
            (services.create_certificate (self_template domain (services.now h.services)) key) h
      check_path lib disk cert_path
      on_disk (disk.create_file cert_path)
      on_disk (disk.write_open cert_path (lib.pem_encode (text "CERTIFICATE") x))
      check_path lib disk key_path
      on_disk (disk.create_file key_path)
      on_disk (
          disk.write_open key_path
            (lib.pem_encode (text "RSA PRIVATE KEY") (lib.marshal_rsa_key key)))

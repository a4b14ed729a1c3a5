-- ===== src/Node/Certs/Lego/Renew.antt =====
-- node/lego.go: RenewCert and CheckCert, which the controller does not call.
use v2b_z.Prelude.{Bool, true, false, none, some, Result, ok, err, if◌then◌else◌}
use v2b_z.Prelude.Int.{ℤ, pos, ltb_ℤ}
use v2b_z.Prelude.Text.{Text, text}
use v2b_z.Conf.{CertConfig}
use v2b_z.Node.Certs.{Library, Disk, Services, Host}
use v2b_z.Node.Certs.Action.{Action, pure, given, ◌>>=◌, ◌>>◌, value_of, with_text, from_services}
use v2b_z.Node.Certs.Files.{ip_renew_before, is_due}
use v2b_z.Node.Certs.Lego.Obtain.{Lego, create_cert, write_cert}

module _ (lib : Library) where
  -- Whether the certificate is to be renewed, where the clock shows `now`. The first result is false
  -- if there is an error, which is the second.
  unfoldable pub check_cert : CertConfig → ℤ → Text → Bool × Result Text (Unit {0})
  unfolding is_due
  check_cert config now file = elim (lib.parse_pem_certificate file) [
    | err e ↦ (false, err e)
    | ok x ↦ elim (lib.parse_ip config.cert_domain) [
      | some _ ↦ (is_due now ip_renew_before x.not_after, ok tt)
      | none ↦
          if ltb_ℤ (pos 30) (lib.days_until now x.not_after) then (false, ok tt) else (true, ok tt)
    ]
  ]

  module _ {D A : Type 0} (disk : Disk D) (services : Services A) where
    -- Renew and writeCert.
    unfoldable pub renew_due : Lego → Text → Action (Host D A) (Unit {0})
    renew_due l file = do
      r ← from_services (services.renew l.client l.config.cert_domain file)
      with_text (text "write certificate error: ") (write_cert lib disk services l.config r)

    -- The if with its else-if: the first result is looked at before the error.
    unfoldable pub renew_checked : Lego → Text → Action (Host D A) (Unit {0})
    unfolding check_cert renew_due
    renew_checked l file h =
        let (due, e) = check_cert l.config (services.now h.services) file in
        if due
        then (do with_text (text "check cert error: ") (given λ _. value_of e); renew_due l file) h
        else pure tt h

    unfoldable pub renew_cert : Lego → Action (Host D A) (Unit {0})
    unfolding renew_checked
    renew_cert l h = elim (lib.parse_ip l.config.cert_domain) [
      | some _ ↦ create_cert lib disk services l h
      | none ↦
          (do
            file ←
                with_text (text "read cert file error: ")
                  (λ h'. (h', value_of (disk.read_file l.config.cert_file h'.disk)))
            renew_checked l file)
            h
    ]

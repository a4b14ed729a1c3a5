-- ===== src/Node/Certs/Report.antt =====
-- node/cert.go: what follows a certificate request: the report to the panel and the reload of the node.
pub mod Lost
use v2b_z.Prelude.{Bool, true, false, ◌&&◌, [], Option, none, some, Result, ok, err, if◌then◌else◌}
use v2b_z.Prelude.Int.{ℤ}
use v2b_z.Prelude.Text.{Text, text}
use v2b_z.Conf.{CertConfig}
use v2b_z.Core.Types.{Core}
use v2b_z.Node.Controller.{World}
use v2b_z.Node.Certs.{CertError, CertMetadata, Library, Disk, Services, Host}
use v2b_z.Node.Certs.Metadata.{cert_metadata_changed, cert_metadata_path, read_cert_metadata}
use v2b_z.Node.Certs.Request.{Answer, nothing, done, crashed, request_cert, current_cert_config}

-- api/panel/user.go: the body that is sent to the panel.
pub record CertReport : Type 0 where
  pub status : Text
  pub target : Text
  pub mode : Text
  pub source : Text
  pub sha256 : Text
  pub not_after : ℤ
  pub error : Text

-- The report, if there is one; `message` is Error(). An error of the panel is only logged.
unfoldable pub report_cert_status :
    (CertError → Text) → Option CertMetadata → Option CertError → Option CertReport
report_cert_status message none issue_error = none
report_cert_status message (some meta) issue_error = some (record {
  status = elim issue_error [ none ↦ text "ok" | some _ ↦ text "error" ];
  target = meta.target;
  mode = meta.mode;
  source = meta.source;
  sha256 = meta.sha256;
  not_after = meta.not_after;
  error = elim issue_error [ none ↦ [] | some e ↦ message e ];
})

-- The state after a round, what the panel is sent, and the error; a panic is no error.
pub record Round (D A S : Type 0) : Type 0 where
  pub host : Host D A
  pub world : World S
  pub report : Option CertReport
  pub error : Option CertError
  pub has_crashed : Bool

module _ {S : Type 0} (server : Core S) where
  -- Of a controller that runs, so that none of its parts is nil.
  unfoldable pub reload_node_after_cert_change : World S → World S
  reload_node_after_cert_change w =
      let c = w.controller in
      let (s, deleted) = server.del_node c.tag w.server in
      elim deleted [
        | err e ↦ record w { server = s }
        | ok _ ↦
            let (s', option, added) = server.add_node c.tag c.info c.active_options s in
            let w' = record w { server = s'; controller = record c { active_options = option } } in
            elim added [
              | err e ↦ w'
              | ok _ ↦ record w' {
                server =
                    (server.add_users
                      (record { tag = c.tag; users = c.user_list; node_info = c.info }) s').0;
              }
            ]
      ]

  module _ (lib : Library) {D A : Type 0} (disk : Disk D) (services : Services A)
      (message : CertError → Text) where
    -- What requestCertAndReport does with the answer; `previous` are the metadata before the request.
    unfoldable pub conclude : Bool → Option CertMetadata → World S → Host D A × Answer → Round D A S
    unfolding report_cert_status reload_node_after_cert_change cert_metadata_changed
    conclude reload_on_change previous w (h, nothing) = record {
      host = h;
      world = w;
      report = none;
      error = none;
      has_crashed = false;
    }
    conclude reload_on_change previous w (h, done meta e) = record {
      host = h;
      world = elim e [
        | none ↦
            if reload_on_change && cert_metadata_changed previous (some meta)
            then reload_node_after_cert_change w
            else w
        | some _ ↦ w
      ];
      report = report_cert_status message (some meta) e;
      error = e;
      has_crashed = false;
    }
    conclude reload_on_change previous w (h, crashed) = record {
      host = h;
      world = w;
      report = none;
      error = none;
      has_crashed = true;
    }

    unfoldable pub request_cert_and_report : Bool → World S → Host D A → Round D A S
    unfolding conclude request_cert cert_metadata_path read_cert_metadata current_cert_config
    request_cert_and_report reload_on_change w h =
        let path = cert_metadata_path lib w.controller.info.id in
        conclude reload_on_change (read_cert_metadata lib disk path h.disk) w (
          request_cert lib disk services path
            (current_cert_config (some w.controller.active_options)
              w.controller.options.cert_config)
            h)

    -- The task logs the error.
    unfoldable pub renew_cert_task : World S → Host D A → Round D A S
    unfolding request_cert_and_report
    renew_cert_task = request_cert_and_report true

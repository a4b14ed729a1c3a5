-- ===== src/Node/Certs/Report/Lost.antt =====
-- node/cert.go: a node that is lost by the reload after a new certificate.
use v2b_z.Prelude.{◌≡◌, ok, err, arith}
use v2b_z.Prelude.Text.{Text}
use v2b_z.Panel.Node.{NodeInfo}
use v2b_z.Conf.Options.{Options}
use v2b_z.Core.Types.{Core, Failure}
use v2b_z.Node.Controller.{World}
use v2b_z.Node.Certs.Report.{reload_node_after_cert_change}

module _ {S : Type 0} (server : Core S) where
  -- If the core deletes the node for a new certificate and then fails to add it, and the core refuses
  -- to delete a node that it does not have, which changes nothing, then a further reload leaves
  -- everything as the first one left it: no later certificate brings the node back.
  pub reload_node_after_cert_change-lost :
      (w : World S) (e : Failure)
      → ((t : Text) (n : NodeInfo) (o : Options) (s : S) (e : Failure)
          → (server.del_node t s).1 ≡ ok tt
          → let (s', _, added) = server.add_node t n o (server.del_node t s).0 in
            added ≡ err e → (f : Failure) × (server.del_node t s' ≡ (s', err f)))
      → (server.del_node w.controller.tag w.server).1 ≡ ok tt
      → (server.add_node w.controller.tag w.controller.info w.controller.active_options
          (server.del_node w.controller.tag w.server).0).2
        ≡ err e
      → let w' = reload_node_after_cert_change server w in
        reload_node_after_cert_change server w' ≡ w'
  unfolding reload_node_after_cert_change
  reload_node_after_cert_change-lost w e gone deleted failed =
      let c = w.controller in
      ground (arith, gone c.tag c.info c.active_options w.server e deleted failed)

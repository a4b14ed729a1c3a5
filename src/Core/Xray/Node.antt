-- ===== src/Core/Xray/Node.antt =====
-- core/xray/node.go: AddNode and DelNode. The managers of xray are a state `M`; a configuration is made
-- a handler, which is added to the one for inbounds or to the one for outbounds.
pub mod Half
use v2b_z.Prelude.{Option, none, some, Result, ok, err}
use v2b_z.Prelude.Int.{ℤ, pos, mul64}
use v2b_z.Prelude.Text.{Text, text_eq}
use v2b_z.Prelude.GoMap.{GoMap, insert}
use v2b_z.Panel.Node.{NodeInfo}
use v2b_z.Conf.Options.{Options}
use v2b_z.Conf.Xray.{XrayOptions}
use v2b_z.Core.Types.{Failure, message}
use v2b_z.Core.Xray.Inbound as Xray
use v2b_z.Core.Xray.Inbound.Build.{build_inbound}
use v2b_z.Core.Xray.Outbound.{Outbound, build_outbound}
use v2b_z.Core.Xray.Dns as Dns
use v2b_z.Core.Xray.Dns.{DnsFile, update_dns_config}

-- `create` is core.CreateObject with the test of the type of the result; the tag of a handler is that
-- of its configuration.
pub record Managers (I O M : Type 0) : Type 0 where
  pub create_inbound : I → M → Result Text I
  pub add_inbound : I → M → M × Option Text
  pub create_outbound : O → M → Result Text O
  pub add_outbound : O → M → M × Option Text
  pub remove_inbound : Text → M → M × Option Text
  pub remove_outbound : Text → M → M × Option Text

-- What AddNode changes: the node, the file of the DNS settings, the handlers, and the table.
pub record State (D M : Type 0) : Type 0 where
  pub file : D
  pub handlers : M
  pub node_report_min_traffic_bytes : GoMap Text ℤ

abbrev failed : Option Text → Result Failure (Unit {0})
failed none = ok tt
failed (some e) = err (message e)

module _ {I O M : Type 0} (managers : Managers I O M) where
  unfoldable pub add_inbound : I → M → M × Result Failure (Unit {0})
  add_inbound config m = elim (managers.create_inbound config m) [
    | err e ↦ (m, err (message e))
    | ok h ↦ let (m', e) = managers.add_inbound h m in (m', failed e)
  ]

  unfoldable pub add_outbound : O → M → M × Result Failure (Unit {0})
  add_outbound config m = elim (managers.create_outbound config m) [
    | err e ↦ (m, err (message e))
    | ok h ↦ let (m', e) = managers.add_outbound h m in (m', failed e)
  ]

  unfoldable pub del_node : Text → M → M × Result Failure (Unit {0})
  del_node tag m =
      let (m', e) = managers.remove_inbound tag m in
      elim e [
        | some x ↦ (m', err (message x))
        | none ↦ let (m'', e') = managers.remove_outbound tag m' in (m'', failed e')
      ]

  module _ {D : Type 0} (dns : Dns.Library) (file : DnsFile D) (lib : Xray.Library I)
      (build : Outbound → Result Text O) where
    -- The part for the outbound.
    unfoldable pub add_node_outbound :
        Options → Option XrayOptions → Text → M → M × Result Failure (Unit {0})
    add_node_outbound config xray tag m = elim (build_outbound build config xray tag) [
      | err e ↦ (m, err e)
      | ok o ↦ add_outbound o m
    ]

    -- The part for the handlers.
    unfoldable pub add_node_handlers :
        Text → NodeInfo → Options → Option XrayOptions → M → M × Result Failure (Unit {0})
    add_node_handlers tag info config xray m = elim (build_inbound lib config xray info tag) [
      | err e ↦ (m, err e)
      | ok i ↦
          let (m', r) = add_inbound i m in
          elim r [ err e ↦ (m', err e) | ok _ ↦ add_node_outbound config xray tag m' ]
    ]

    -- The DNS settings of the node are changed in place.
    unfoldable pub add_node :
        Text
        → NodeInfo
        → Options
        → Option XrayOptions
        → State D M
        → NodeInfo × State D M × Result Failure (Unit {0})
    add_node tag info config xray s =
        let (raw, d, e) = update_dns_config dns file info.raw_dns s.file in
        let info' = record info { raw_dns = raw } in
        let s' = record s {
          file = d;
          node_report_min_traffic_bytes =
              insert tag (mul64 config.report_min_traffic (pos 1024))
                s.node_report_min_traffic_bytes;
        } in
        elim e [
          | some f ↦ (info', s', err f)
          | none ↦
              let (m, r) = add_node_handlers tag info' config xray s.handlers in
              (info', record s' { handlers = m }, r)
        ]

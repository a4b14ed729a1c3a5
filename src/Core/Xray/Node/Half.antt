-- ===== src/Core/Xray/Node/Half.antt =====
-- core/xray/node.go: a node of which only the inbound was added.
use v2b_z.Prelude.{◌≡◌, arith, Option, Result, ok, err, Result-cases, inl, inr}
use v2b_z.Prelude.Text.{Text}
use v2b_z.Panel.Node.{NodeInfo}
use v2b_z.Conf.Options.{Options}
use v2b_z.Conf.Xray.{XrayOptions}
use v2b_z.Core.Types.{Failure}
use v2b_z.Core.Xray.Inbound as Xray
use v2b_z.Core.Xray.Inbound.Build.{build_inbound}
use v2b_z.Core.Xray.Outbound.{Outbound, build_outbound}
use v2b_z.Core.Xray.Dns as Dns
use v2b_z.Core.Xray.Dns.{DnsFile}
use v2b_z.Core.Xray.Node.{Managers, add_inbound, add_outbound, add_node_handlers, add_node_outbound}

module _ {D I O M : Type 0} (managers : Managers I O M) (dns : Dns.Library) (file : DnsFile D)
    (lib : Xray.Library I) (build : Outbound → Result Text O) where
  abbrev handlers :
      Text → NodeInfo → Options → Option XrayOptions → M → M × Result Failure (Unit {0})
  handlers = add_node_handlers managers dns file lib build

  add_outbound-IsIn :
      (IsIn : M → Type 0)
      → ((o : O) (m : M) → IsIn m → IsIn (managers.add_outbound o m).0)
      → (config : Options) (xray : Option XrayOptions) (tag : Text) (m : M) → IsIn m
      → IsIn (add_node_outbound managers dns file lib build config xray tag m).0
  unfolding add_node_outbound add_outbound
  add_outbound-IsIn IsIn kept config xray tag m p =
      elim (Result-cases (build_outbound build config xray tag)) [
        | inr (e, r) ↦ rw (add_node_outbound, r) p
        | inl (o, r) ↦ elim (Result-cases (managers.create_outbound o m)) [
          | inr (e, q) ↦ rw (add_node_outbound, r, add_outbound, q) p
          | inl (c, q) ↦ rw (add_node_outbound, r, add_outbound, q) (kept c m p)
        ]
      ]

  -- If AddNode has added the inbound of a node, but then fails, adding the node again fails. The
  -- conditions are that the manager of inbounds has an inbound that it has added, also after it was
  -- asked to add an outbound, and refuses one that it has.
  pub add_node_handlers-again :
      (tag : Text) (info : NodeInfo) (config : Options) (xray : Option XrayOptions) (i : I) (m : M)
      (f : Failure) (IsIn : M → Type 0)
      → ((m : M) → (add_inbound managers i m).1 ≡ ok tt → IsIn (add_inbound managers i m).0)
      → ((o : O) (m : M) → IsIn m → IsIn (managers.add_outbound o m).0)
      → ((m : M) → IsIn m → (e : Failure) × ((add_inbound managers i m).1 ≡ err e))
      → build_inbound lib config xray info tag ≡ ok i
      → (add_inbound managers i m).1 ≡ ok tt
      → (handlers tag info config xray m).1 ≡ err f
      → (f' : Failure) × ((handlers tag info config xray (handlers tag info config xray m).0).1
          ≡ err f')
  unfolding add_node_handlers
  add_node_handlers-again tag info config xray i m f IsIn has kept refused b added h =
      let m1 = (add_inbound managers i m).0 in
      let m2 = (add_node_outbound managers dns file lib build config xray tag m1).0 in
      let there = add_outbound-IsIn IsIn kept config xray tag m1 (has m added) in
      let (e, again) = refused m2 there in
      let left : (handlers tag info config xray m).0 ≡ m2 = ground (arith, b, added) in
      (e, rw left (second m2 e again))
    where
      second :
          (m' : M) (e : Failure)
          → (add_inbound managers i m').1 ≡ err e
          → (handlers tag info config xray m').1 ≡ err e
      second m' e r = ground (arith, b, r)

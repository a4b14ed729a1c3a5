-- ===== src/Core/Selector/Routing.antt =====
-- core/selector.go: which core serves a node.
use v2b_z.Prelude.{
  ◌≡◌, Bool, List, Option, none, arith, ◌==◌, if◌then◌else◌, ok, err, Option-cases, inl, inr,
}
use v2b_z.Prelude.Text.{Text, text, text_eq}
use v2b_z.Prelude.GoMap.{lookup, lookup-insert, lookup-delete_self}
use v2b_z.Panel.{UserInfo}
use v2b_z.Panel.Node.{NodeInfo}
use v2b_z.Conf.Options.{Options}
use v2b_z.Core.Types.{Core, message, AddUsersParams}
use v2b_z.Core.Selector.{
  Selector, select_core, add_node_to, add_node, core_of, del_node, add_users, del_users,
  get_user_traffic_slice,
}

module _ {S : Type 0} (ops : Core S) where
  -- When a node is added, it is routed to the core that was chosen for it and every other node as
  -- before; when adding fails, every node is routed as before.
  pub add_node-routes :
      (decode : Option Text → Options → Option Options) (core_error : Option Text → Option Text)
      (tag other : Text) (info : NodeInfo) (option : Options) (s : Selector S)
      → lookup other (add_node ops decode core_error tag info option s).0.nodes
        ≡ elim (add_node ops decode core_error tag info option s).2 [
          | ok _ ↦
              if tag == other then select_core ops info option s.cores else lookup other s.nodes
          | err _ ↦ lookup other s.nodes
        ]
  unfolding add_node add_node_to
  add_node-routes decode core_error tag other info option s =
      elim (Option-cases (select_core ops info option s.cores)) [
        | inl e ↦ ground arith
        | inr (n, e) ↦ ground (arith, lookup-insert tag other n s.nodes)
      ]

  unrouted :
      (tag : Text) (s : Selector S)
      → (del_node ops tag s).1 ≡ ok tt
      → lookup tag (del_node ops tag s).0.nodes ≡ none
  unfolding del_node core_of
  unrouted tag s done = ground (arith, lookup-delete_self tag s.nodes)

  -- After a successful del_node every call for that node fails with the error of a missing node and
  -- changes nothing.
  pub del_node-unrouted :
      (tag : Text) (reset : Bool) (p : AddUsersParams) (users : List UserInfo) (info : NodeInfo)
      (s : Selector S)
      → (del_node ops tag s).1 ≡ ok tt
      → p.tag ≡ tag
      → let s' = (del_node ops tag s).0 in
        let e = message (text "the node is not have") in
        (add_users ops p s' ≡ (s', err e))
        × (get_user_traffic_slice ops tag reset s' ≡ (s', err e))
        × (del_users ops users tag info s' ≡ (s', err e))
        × (del_node ops tag s' ≡ (s', err e))
  unfolding del_node add_users del_users get_user_traffic_slice core_of
  del_node-unrouted tag reset p users info s done same =
      let n = unrouted tag s done in
      (ground (arith, n, same), ground (arith, n), ground (arith, n), ground (arith, n))

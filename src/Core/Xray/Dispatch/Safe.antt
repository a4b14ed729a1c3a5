-- ===== src/Core/Xray/Dispatch/Safe.antt =====
-- core/xray/app/dispatcher/default.go: which connections Dispatch hands to an outbound.
use v2b_z.Prelude.{
  ℕ, nat_eq, not, ◌&&◌, is_empty, ◌≡◌, refl, Bool, false, [], ◌∷◌, Option, none, some, ok, arith,
}
use v2b_z.Prelude.Int.{ℤ}
use v2b_z.Prelude.Text.{Text, text_eq}
use v2b_z.Prelude.GoMap.{lookup, lookup-insert_self}
use v2b_z.Limiter.Types.{Limiter}
use v2b_z.Limiter.Check.{check_limit}
use v2b_z.Limiter.Rules.{check_domain_rule, check_protocol_rule}
use v2b_z.Core.Xray.Dispatcher.{
  Reader, pipe_reader, Dispatcher, Pipes, Ends, Inbound, LinkManager, get_link, register, add_link,
}
use v2b_z.Core.Xray.Dispatch.{
  Address, Destination, SniffingRequest, SniffResult, Routing, refused_by_rule, address_text,
  routed_dispatch, seen, dispatch,
}

-- The links that are registered for a user.
unfoldable pub links_of : Text → Dispatcher → LinkManager
links_of user d = elim (lookup user d.link_managers) [ none ↦ [] | some m ↦ m ]

pub register-link :
    (tag email : Text) (w : ℕ) (r : Reader) (d : Dispatcher)
    → lookup w (links_of email (register tag email w r d)) ≡ some r
unfolding links_of register add_link
register-link tag email w r d =
    let old : LinkManager = elim (lookup email d.link_managers) [ none ↦ [] | some m ↦ m ] in
    rw (lookup-insert_self email (add_link w r old) d.link_managers, links_of)
      (lookup-insert_self w r old)

module _ (to_lower : Text → Text) (compiles : Text → Bool) (matches : Text → Text → Bool)
    (in_pool : Address → Bool) (parse : Text → Address) where
  -- A user's connection that is handed to an outbound has passed the limiter of its node, and no
  -- rule of this limiter refuses the destination and the protocol that are seen; its pipes are
  -- open, and its link is registered for the user.
  pub dispatch-handed :
      (routing : Routing) (email : Text) (inbound : Inbound) (destination : Destination)
      (request : SniffingRequest) (sniffed : Option SniffResult) (content : Text) (now : ℤ)
      (e : Ends) (l l' : Option Limiter) (d d' : Dispatcher) (p p' : Pipes) (h : Text)
      → is_empty email ≡ false
      → dispatch to_lower compiles matches in_pool parse routing
          (some email)
          inbound
          destination
          request
          sniffed
          content
          now
          e
          l
          (d, p)
        ≡ (l', (d', p'), ok (some h))
      → (m : Limiter) × (l ≡ some m)
        × ((check_limit email inbound.source_ip destination.tcp inbound.source_tcp now m).2 ≡ false)
        × (check_domain_rule matches
              (check_limit email inbound.source_ip destination.tcp inbound.source_tcp now m).0
              (address_text
                (seen to_lower compiles matches in_pool parse request sniffed content
                  destination).0.address)
            ≡ false)
        × ((not (
                is_empty
                  (seen to_lower compiles matches in_pool parse request sniffed content
                    destination).1)
              && check_protocol_rule
                  (check_limit email inbound.source_ip destination.tcp inbound.source_tcp now m).0
                  (seen to_lower compiles matches in_pool parse request sniffed content
                    destination).1)
            ≡ false)
        × (p' ≡ p)
        × (lookup e.uplink_writer (links_of email d') ≡ some (pipe_reader e.uplink_reader))
  unfolding dispatch get_link routed_dispatch refused_by_rule
  dispatch-handed routing [] inbound destination request sniffed content now e l l' d d' p p' h s
        g =
      absurd (cc)
  dispatch-handed routing (c ∷ email) inbound destination request sniffed content now e none l' d d'
        p p' h s g =
      absurd (cc)
  dispatch-handed routing (c ∷ email) inbound destination request sniffed content now e (some m) l'
        d d' p p' h s g =
      let registered =
        register-link inbound.tag (c ∷ email) e.uplink_writer (pipe_reader e.uplink_reader) d in
      (m, refl, ground arith, ground arith, ground arith, ground arith, ground arith)

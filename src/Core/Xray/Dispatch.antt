-- ===== src/Core/Xray/Dispatch.antt =====
-- core/xray/app/dispatcher/default.go: shouldOverride, routedDispatch and Dispatch. An outbound handler
-- is its tag; the router and the handlers are the library's, and so is what the sniffers found.
pub mod Link
pub mod Safe
pub mod Same
pub mod Shut
use v2b_z.Prelude.{
  ℕ, Bool, true, false, not, ◌&&◌, ◌||◌, List, [], ◌∷◌, Option, none, some, ◌==◌, if◌then◌else◌,
  is_empty, Result, ok, err,
}
use v2b_z.Prelude.Int.{ℤ}
use v2b_z.Prelude.Text.{Text, text, text_eq, has_prefix, drop_length}
use v2b_z.Limiter.Types.{Limiter}
use v2b_z.Limiter.Rules.{check_domain_rule, check_protocol_rule}
use v2b_z.Core.Xray.Dispatcher.{
  Reader, pipe_reader, interrupt, Dispatcher, Pipes, Ends, Inbound, LinkError, get_link,
}

-- An address is a domain or an IP, as it is printed; `tcp` says that the network is TCP.
pub data Address : Type 0 where
  domain ip : Text → Address

pub record Destination : Type 0 where
  pub address : Address
  pub tcp : Bool

pub record SniffingRequest : Type 0 where
  pub enabled : Bool
  pub route_only : Bool
  pub exclude_for_domain : List Text
  pub override_destination_for_protocol : List Text

-- What a sniffer found; a composite result has a protocol for its domain, too. `subset_of` is
-- IsProtoSubsetOf, false where the result has no such method.
pub record SniffResult : Type 0 where
  pub protocol : Text
  pub domain_name : Text
  pub protocol_for_domain : Option Text
  pub subset_of : Text → Bool

unfoldable pub domain_protocol : SniffResult → Text
domain_protocol r = elim r.protocol_for_domain [ none ↦ r.protocol | some p ↦ p ]

unfoldable pub address_text : Address → Text
address_text (domain d) = d
address_text (ip i) = i

-- The targets that a session has: of the outbound, and of the routing alone.
pub record Targets : Type 0 where
  pub target : Destination
  pub route_target : Option Destination

-- `compiles` and `matches` are the regular expressions, `in_pool` is the fake DNS engine's test of an
-- address that is an IP, false without such an engine.
module _ (to_lower : Text → Text) (compiles : Text → Bool) (matches : Text → Text → Bool)
    (in_pool : Address → Bool) where
  -- The first loop: a domain that is excluded.
  unfoldable pub is_excluded : Text → List Text → Bool
  is_excluded name [] = false
  is_excluded name (d ∷ ds) =
      let rest = is_excluded name ds in
      let pattern = drop_length d (text "regexp:") in
      if has_prefix d (text "regexp:")
      then (if compiles pattern && matches pattern name then true else rest)
      else if to_lower name == d
      then true
      else rest

  -- The second loop, over the protocols to override.
  unfoldable pub is_overridden : Text → SniffResult → Address → List Text → Bool
  is_overridden protocol r address [] = false
  is_overridden protocol r address (p ∷ ps) =
      let rest = is_overridden protocol r address ps in
      if has_prefix protocol p || has_prefix p protocol
      then true
      else if not (protocol == text "bittorrent") && p == text "fakedns" && in_pool address
      then true
      else if r.subset_of p
      then true
      else rest

  unfoldable pub should_override : SniffResult → SniffingRequest → Destination → Bool
  unfolding is_excluded is_overridden domain_protocol
  should_override r request destination =
      if is_empty r.domain_name
      then false
      else if is_excluded r.domain_name request.exclude_for_domain
      then false
      else is_overridden (domain_protocol r) r destination.address
          request.override_destination_for_protocol

  -- What Dispatch makes of a result: the destination, the content's protocol, and the targets.
  -- `parse` is net.ParseAddress, and `is_fake` its test of a fake address.
  unfoldable pub apply_sniff :
      (Address → Bool)
      → (Text → Address)
      → SniffingRequest
      → Option SniffResult
      → Text
      → Destination
      → Destination × Text × Targets
  unfolding should_override domain_protocol
  apply_sniff is_fake parse request none content destination =
      (destination, content, record { target = destination; route_target = none })
  apply_sniff is_fake parse request (some r) content destination =
      let found = record destination { address = parse r.domain_name } in
      let protocol = domain_protocol r in
      if should_override r request destination
      then (if request.route_only
            && not (protocol == text "fakedns")
            && not (protocol == text "fakedns+others")
            && not (is_fake destination.address)
          then (found, r.protocol, record { target = destination; route_target = some found })
          else (found, r.protocol, record { target = found; route_target = none }))
      else (destination, r.protocol, record { target = destination; route_target = none })

-- The rules that refuse a connection.
unfoldable pub refused_by_rule : (Text → Text → Bool) → Limiter → Destination → Text → Bool
unfolding address_text
refused_by_rule matches l destination protocol =
    check_domain_rule matches l (address_text destination.address)
    || not (is_empty protocol) && check_protocol_rule l protocol

-- The choice of the outbound: a forced tag, a route, or the default. `get_handler` says whether a tag
-- has a handler. Without a router `pick_route` is none.
unfoldable pub choose_handler :
    (Text → Bool) → Option Text → Text → Option (Option Text) → Option Text
choose_handler get_handler default forced pick_route =
    if not (is_empty forced)
    then (if get_handler forced then some forced else none)
    else elim pick_route [
      | some (some tag) ↦ if get_handler tag then some tag else none
      | some none ↦ default
      | none ↦ default
    ]

-- common.Close of the writer, and common.Interrupt of the reader of a link.
unfoldable pub shut_link : ℕ → Reader → Pipes → Pipes
unfolding interrupt
shut_link writer reader p = interrupt reader (record p { closed = writer ∷ p.closed })

-- The environment of a connection: the forced tag and the route, and the handlers.
pub record Routing : Type 0 where
  pub get_handler : Text → Bool
  pub default_handler : Option Text
  pub forced : Text
  pub pick_route : Option (Option Text)

-- `user` says that the session has one, `l` is the limiter of getLink, and `registered` what the table
-- has under the tag of the inbound. The result is the handler that gets the link, if any.
unfoldable pub routed_dispatch :
    (Text → Text → Bool)
    → Routing
    → Bool
    → Option Limiter
    → Option Limiter
    → Destination
    → Text
    → ℕ × Reader
    → Pipes
    → Pipes × Option Text
unfolding refused_by_rule choose_handler shut_link
routed_dispatch matches routing user l registered destination protocol (writer, reader) p =
    let limit : Option Limiter = elim l [ some l' ↦ some l' | none ↦ registered ] in
    let by_rule : Bool = elim limit [
      | none ↦ false
      | some l' ↦ refused_by_rule matches l' destination protocol
    ] in
    let refused = user && by_rule in
    let handler =
      choose_handler routing.get_handler routing.default_handler routing.forced
        routing.pick_route in
    if refused
    then (shut_link writer reader p, none)
    else elim handler [ none ↦ (shut_link writer reader p, none) | some h ↦ (p, some h) ]

module _ (to_lower : Text → Text) (compiles : Text → Bool) (matches : Text → Text → Bool)
    (in_pool : Address → Bool) (parse : Text → Address) where
  -- The destination and the protocol that the rules see.
  unfoldable pub seen :
      SniffingRequest → Option SniffResult → Text → Destination → Destination × Text × Targets
  unfolding apply_sniff
  seen request sniffed content destination =
      if request.enabled
      then apply_sniff to_lower compiles matches in_pool in_pool parse request sniffed content
          destination
      else (destination, [], record { target = destination; route_target = none })

  -- Dispatch: the limiter is what the table has under the tag of the inbound, `user` the email of the
  -- session's user. `ok none` says that the link was shut behind getLink.
  unfoldable pub dispatch :
      Routing
      → Option Text
      → Inbound
      → Destination
      → SniffingRequest
      → Option SniffResult
      → Text
      → ℤ
      → Ends
      → Option Limiter
      → Dispatcher × Pipes
      → Option Limiter × (Dispatcher × Pipes) × Result LinkError (Option Text)
  unfolding seen routed_dispatch
  dispatch routing user inbound destination request sniffed content now e l s =
      let email : Text = elim user [ none ↦ [] | some m ↦ m ] in
      let has_user : Bool = elim user [ none ↦ false | some m ↦ true ] in
      let (l', (d, p), linked) = get_link email inbound destination.tcp now e l s in
      elim linked [
        | err x ↦ (l', (d, p), err x)
        | ok bucket ↦
            let (target, protocol, targets) = seen request sniffed content destination in
            let (p', handler) =
              routed_dispatch matches routing has_user (if is_empty email then none else l') l'
                target protocol (e.downlink_writer, pipe_reader e.uplink_reader) p in
            (l', (d, p'), ok handler)
      ]

-- ===== src/Core/Sing/Hook/Counted.antt =====
-- core/sing/hook.go: which connections are counted.
use v2b_z.Prelude.{◌≡◌, Bool, true, false, not, ◌&&◌, ◌||◌, some, arith, is_empty}
use v2b_z.Prelude.Int.{ℤ}
use v2b_z.Prelude.Text.{Text, text_eq}
use v2b_z.Prelude.GoMap.{GoMap}
use v2b_z.Counter.{TrafficCounter}
use v2b_z.Limiter.Types.{Limiter, user_tag}
use v2b_z.Limiter.Rules.{check_domain_rule, check_protocol_rule}
use v2b_z.Limiter.Check.Device.{refused, check_limit-refused}
use v2b_z.Limiter.Check.Kept.{check_limit-rules}
use v2b_z.Core.Sing.Hook.{
  InboundContext, Routed, closed, counted, untouched, by_rule, routed_connection,
  routed_packet_connection,
}

abbrev pub is_closed : Routed → Bool
is_closed untouched = false
is_closed closed = true
is_closed (counted b) = false

abbrev key : InboundContext → Text
key m = user_tag m.inbound m.user

module _ (matches : Text → Text → Bool) where
  -- The rules of the limiter that refuse the destination, or the protocol if there is one.
  abbrev pub has_rule : Limiter → Text → Text → Bool
  has_rule l destination protocol =
      check_domain_rule matches l destination
      || not (is_empty protocol) && check_protocol_rule l protocol

  -- A routed connection of a node with a limiter is closed exactly if the limiter's device rule
  -- refuses it, or one of the limiter's rules its destination or its protocol. A packet connection
  -- is closed exactly if the user is unknown, or a rule refuses its destination or its network.
  pub routed_connection-closed :
      (m : InboundContext) (now : ℤ) (l : Limiter) (counter : GoMap Text TrafficCounter)
      → (is_closed (routed_connection matches m now (some l) counter).2
          ≡ (refused (key m) m.source true l || has_rule l m.destination m.protocol))
        × (is_closed (routed_packet_connection matches m now (some l) counter).2
            ≡ (refused (key m) m.source false l || has_rule l m.destination m.network))
  unfolding routed_connection routed_packet_connection by_rule check_domain_rule check_protocol_rule
  routed_connection-closed m now l counter =
      let k = check_limit-rules (key m) m.source true true now l in
      let k' = check_limit-rules (key m) m.source false false now l in
      let r = check_limit-refused (key m) m.source true true now l in
      let r' = check_limit-refused (key m) m.source false false now l in
      (ground arith, ground arith)

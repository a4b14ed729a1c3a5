-- ===== src/Core/Sing/Hook.antt =====
-- core/sing/hook.go: what becomes of a routed connection. The limiter is what the table has under the
-- tag of the inbound.
pub mod Counted
use v2b_z.Prelude.{
  Bool, true, false, not, ◌&&◌, ◌||◌, List, [], Option, none, some, ◌==◌, if◌then◌else◌, is_empty,
}
use v2b_z.Prelude.Int.{ℤ}
use v2b_z.Prelude.Text.{Text, text_eq}
use v2b_z.Prelude.GoMap.{GoMap, lookup, insert}
use v2b_z.Counter.{TrafficCounter, get_counter}
use v2b_z.Limiter.Types.{Limiter, Bucket, user_tag}
use v2b_z.Limiter.Rules.{check_domain_rule, check_protocol_rule}
use v2b_z.Limiter.Check.{check_limit}

-- The parts of the metadata that the hook reads; `network` is that of the destination.
pub record InboundContext : Type 0 where
  pub inbound : Text
  pub user : Text
  pub source : Text
  pub destination : Text
  pub network : Text
  pub protocol : Text

-- The connection that is returned: as it came in, closed, or counted, with the bucket of its rate limit.
pub data Routed : Type 0 where
  untouched closed : Routed
  counted : Option Bucket → Routed

-- The counter of a tag has an entry for the user from then on.
unfoldable pub count_user : Text → Text → GoMap Text TrafficCounter → GoMap Text TrafficCounter
count_user tag user m =
    let c : TrafficCounter = elim (lookup tag m) [ none ↦ [] | some c' ↦ c' ] in
    insert tag (get_counter user c).0 m

module _ (matches : Text → Text → Bool) where
  unfoldable pub by_rule : Limiter → Text → Text → Bool
  by_rule l destination protocol =
      check_domain_rule matches l destination
      || not (is_empty protocol) && check_protocol_rule l protocol

  unfoldable pub routed_connection :
      InboundContext
      → ℤ
      → Option Limiter
      → GoMap Text TrafficCounter
      → Option Limiter × GoMap Text TrafficCounter × Routed
  unfolding by_rule count_user
  routed_connection m now none counter = (none, counter, untouched)
  routed_connection m now (some l) counter =
      let (l', bucket, reject) = check_limit (user_tag m.inbound m.user) m.source true true now l in
      if reject
      then (some l', counter, closed)
      else if by_rule l' m.destination m.protocol
      then (some l', counter, closed)
      else (some l', count_user m.inbound m.user counter, counted bucket)

  -- The rule for protocols gets the network, and the bucket is not used.
  unfoldable pub routed_packet_connection :
      InboundContext
      → ℤ
      → Option Limiter
      → GoMap Text TrafficCounter
      → Option Limiter × GoMap Text TrafficCounter × Routed
  unfolding by_rule count_user
  routed_packet_connection m now none counter = (none, counter, untouched)
  routed_packet_connection m now (some l) counter =
      let (l', bucket, reject) =
        check_limit (user_tag m.inbound m.user) m.source false false now l in
      if reject
      then (some l', counter, closed)
      else if by_rule l' m.destination m.network
      then (some l', counter, closed)
      else (some l', count_user m.inbound m.user counter, counted none)

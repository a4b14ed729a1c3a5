-- ===== src/Tests/Hooks.antt =====
-- The theorem on the hooks of the sing core, on a connection to a banned destination.
use v2b_z.Prelude.{◌≡◌, true, false, ◌||◌, [], ◌∷◌, some}
use v2b_z.Prelude.Int.{pos}
use v2b_z.Prelude.Text.{text, text_beq}
use v2b_z.Limiter.Types.{Limiter, user_tag}
use v2b_z.Limiter.Users.{new_limiter}
use v2b_z.Limiter.Check.Device.{refused}
use v2b_z.Core.Sing.Hook.{InboundContext, routed_connection, routed_packet_connection}
use v2b_z.Core.Sing.Hook.Counted.{is_closed, has_rule, routed_connection-closed}
use v2b_z.Tests.Fixtures.{bob}

abbrev banning : Limiter
banning = record (new_limiter (text "n") (pos 0) (bob ∷ []) []) {
  domain_rules = text "b.example" ∷ [];
}

abbrev context : InboundContext
context = record {
  inbound = text "n";
  user = text "b";
  source = text "1.1.1.1";
  destination = text "b.example";
  network = text "udp";
  protocol = text "tls";
}

routed_connection-closed_example :
    (is_closed (routed_connection text_beq context (pos 9) (some banning) []).2 ≡ (
      refused (user_tag (text "n") (text "b")) (text "1.1.1.1") true banning
      || has_rule text_beq banning (text "b.example") (text "tls")))
    × (is_closed (routed_packet_connection text_beq context (pos 9) (some banning) []).2 ≡ (
        refused (user_tag (text "n") (text "b")) (text "1.1.1.1") false banning
        || has_rule text_beq banning (text "b.example") (text "udp")))
routed_connection-closed_example = routed_connection-closed text_beq context (pos 9) banning []

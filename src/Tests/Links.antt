-- ===== src/Tests/Links.antt =====
-- The theorems on the links of the xray core, on one connection of a known user.
use v2b_z.Prelude.{
  ℕ, nat_eq, is_empty, not, ◌&&◌, suc, ◌≡◌, refl, Bool, true, false, List, [], ◌∷◌, Option, none,
  some, Result, ok, err,
}
use v2b_z.Prelude.Int.{ℤ, pos}
use v2b_z.Prelude.Text.{Text, text, text_eq, text_beq}
use v2b_z.Prelude.GoMap.{lookup}
use v2b_z.Limiter.Types.{Limiter, user_tag}
use v2b_z.Limiter.Check.{check_limit}
use v2b_z.Limiter.Rules.{check_domain_rule, check_protocol_rule}
use v2b_z.Limiter.Users.{new_limiter}
use v2b_z.Core.Types.{Failure}
use v2b_z.Core.Xray.Dispatcher.{pipe_reader, Dispatcher, Pipes, Ends, Inbound, LinkError}
use v2b_z.Core.Xray.Users.{Xray, del_users}
use v2b_z.Core.Xray.Kick.{IsShut}
use v2b_z.Core.Xray.Dispatch.{
  Address, ip, domain, Destination, SniffingRequest, SniffResult, Routing, refused_by_rule,
  address_text, seen, dispatch,
}
use v2b_z.Core.Xray.Dispatch.Safe.{links_of, dispatch-handed}
use v2b_z.Core.Xray.Dispatch.Shut.{is_handed, dispatch-IsShut, dispatch-deleted}
use v2b_z.Core.Xray.Dispatch.Link.{Link}
use v2b_z.Tests.Fixtures.{bob}

abbrev key : Text
key = user_tag (text "n") (text "b")

abbrev limiter : Limiter
limiter = new_limiter (text "n") (pos 0) (bob ∷ []) []

abbrev banning : Limiter
banning = record limiter { domain_rules = text "b.example" ∷ [] }

abbrev routing : Routing
routing = record {
  get_handler = λ t. true;
  default_handler = some (text "direct");
  forced = [];
  pick_route = none;
}

abbrev inbound : Inbound
inbound = record { tag = text "n"; source_ip = text "1.1.1.1"; source_tcp = true }

abbrev target : Destination
target = record { address = ip (text "2.2.2.2"); tcp = true }

abbrev request : SniffingRequest
request = record {
  enabled = true;
  route_only = false;
  exclude_for_domain = [];
  override_destination_for_protocol = text "tls" ∷ [];
}

abbrev sniffed : SniffResult
sniffed = record {
  protocol = text "tls";
  domain_name = text "b.example";
  protocol_for_domain = none;
  subset_of = λ p. false;
}

abbrev ends : Ends
ends = record { uplink_reader = 1; uplink_writer = 2; downlink_reader = 3; downlink_writer = 4 }

abbrev xray : Xray
xray = record {
  uid_map = [];
  dispatcher = record { counter = []; link_managers = [] };
  pipes = record { closed = []; interrupted = [] };
  node_report_min_traffic_bytes = [];
}

abbrev dispatched : Limiter → Option Limiter × (Dispatcher × Pipes) × Result LinkError (Option Text)
dispatched l =
    dispatch (λ t. t) (λ r. true) text_beq (λ a. false) domain routing (some key) inbound target
      request (some sniffed) [] (pos 9) ends (some l) (xray.dispatcher, xray.pipes)

-- The destination that is seen is the sniffed domain.
banned : is_handed (dispatched banning).2 ≡ false
unfolding dispatch v2b_z.Core.Xray.Dispatcher.get_link user_tag check_limit lookup new_limiter
    v2b_z.Prelude.GoMap.insert text_beq v2b_z.Limiter.Check.admit v2b_z.Limiter.Check.check_device
    v2b_z.Limiter.Check.user_speed_limit v2b_z.Prelude.GoMap.get_or
    v2b_z.Limiter.Rules.check_domain_rule v2b_z.Limiter.Check.speed_bucket v2b_z.Prelude.Int.quot
    v2b_z.Prelude.Int.mul64 v2b_z.Core.Xray.Dispatch.routed_dispatch seen
    v2b_z.Core.Xray.Dispatcher.register v2b_z.Limiter.Rules.check_protocol_rule
    v2b_z.Core.Xray.Dispatch.choose_handler refused_by_rule v2b_z.Core.Xray.Dispatch.should_override
    v2b_z.Prelude.Text.trim_prefix v2b_z.Limiter.Speed.determine_speed_limit
banned = refl

abbrev after : Option Limiter × (Dispatcher × Pipes) × Result LinkError (Option Text)
after = dispatched limiter

handed : dispatched limiter ≡ (after.0, (after.1.0, after.1.1), ok (some (text "direct")))
unfolding dispatch v2b_z.Core.Xray.Dispatcher.get_link user_tag check_limit lookup new_limiter
    v2b_z.Prelude.GoMap.insert text_beq v2b_z.Limiter.Check.admit v2b_z.Limiter.Check.check_device
    v2b_z.Limiter.Check.user_speed_limit v2b_z.Prelude.GoMap.get_or
    v2b_z.Limiter.Rules.check_domain_rule v2b_z.Limiter.Check.speed_bucket v2b_z.Prelude.Int.quot
    v2b_z.Prelude.Int.mul64 v2b_z.Core.Xray.Dispatch.routed_dispatch seen
    v2b_z.Core.Xray.Dispatcher.register v2b_z.Limiter.Rules.check_protocol_rule
    v2b_z.Core.Xray.Dispatch.choose_handler refused_by_rule v2b_z.Core.Xray.Dispatch.should_override
    v2b_z.Prelude.Text.trim_prefix v2b_z.Limiter.Speed.determine_speed_limit
handed = refl

dispatch-handed_example :
    (m : Limiter) × (some limiter ≡ some m)
    × ((check_limit key inbound.source_ip true true (pos 9) m).2 ≡ false)
    × (check_domain_rule text_beq (check_limit key inbound.source_ip true true (pos 9) m).0 (
          address_text
            (seen
              (λ t. t)
              (λ r. true)
              text_beq
              (λ a. false)
              domain
              request
              (some sniffed)
              []
              target).0.address)
        ≡ false)
    × ((not (
            is_empty
              (seen
                (λ t. t)
                (λ r. true)
                text_beq
                (λ a. false)
                domain
                request
                (some sniffed)
                []
                target).1)
          && check_protocol_rule
              (check_limit key inbound.source_ip true true (pos 9) m).0
              (seen
                (λ t. t)
                (λ r. true)
                text_beq
                (λ a. false)
                domain
                request
                (some sniffed)
                []
                target).1)
        ≡ false)
    × (after.1.1 ≡ xray.pipes)
    × (lookup 2 (links_of key after.1.0) ≡ some (pipe_reader 1))
unfolding user_tag
dispatch-handed_example =
    dispatch-handed (λ t. t) (λ r. true) text_beq (λ a. false) domain routing key inbound target
      request (some sniffed) [] (pos 9) ends (some limiter) after.0 xray.dispatcher after.1.0
      xray.pipes after.1.1 (text "direct") refl handed

dispatch-IsShut_example : IsShut (dispatched banning).1.1 4 (pipe_reader 1)
dispatch-IsShut_example =
    dispatch-IsShut (λ t. t) (λ r. true) text_beq (λ a. false) domain routing (some key) inbound
      target request (some sniffed) [] (pos 9) ends (some banning) xray.dispatcher xray.pipes banned

abbrev linked : Xray
linked = record xray { dispatcher = after.1.0; pipes = after.1.1 }

-- A user manager that accepts each removal, and counts them.
abbrev has_manager : Text → ℕ → Bool
has_manager tag m = true

abbrev remove : Text → Text → ℕ → ℕ × Option Failure
remove tag user m = (suc m, none)

dispatch-deleted_example :
    (lookup key
        (del_users has_manager remove (bob ∷ []) (text "n") (linked, 0)).0.dispatcher.link_managers
      ≡ none)
    × IsShut
        (del_users has_manager remove (bob ∷ []) (text "n") (linked, 0)).0.pipes
        2
        (pipe_reader 1)
unfolding del_users text_beq
dispatch-deleted_example =
    dispatch-deleted (λ t. t) (λ r. true) text_beq (λ a. false) domain routing (text "n") (text "b")
      inbound target request (some sniffed) [] (pos 9) ends (some limiter) after.0 xray after.1.0
      after.1.1 (text "direct") has_manager remove (bob ∷ []) 0 handed refl refl

-- A link that the caller has, of the banned connection.
abbrev link : Link
link = record { writer = 5; reader = 6 }

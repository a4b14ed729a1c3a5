-- ===== src/Tests/Panels.antt =====
-- The theorems on the panel's client, on small answers.
use v2b_z.Prelude.{
  ℕ, ◌≡◌, ◌≢◌, refl, Bool, true, false, List, [], ◌∷◌, ◌++◌, Option, none, some, Result, ok, err,
  ◌↔◌, is_empty, get_elem?,
}
use v2b_z.Prelude.Int.{ℤ, pos, int_eq}
use v2b_z.Prelude.Text.{Text, text, text_eq, text_beq, has_prefix, trim_prefix}
use v2b_z.Prelude.GoMap.{GoMap, lookup}
use v2b_z.Limiter.Types.{Limiter}
use v2b_z.Limiter.Rules.{
  Rules, update_rule, check_domain_rule, check_protocol_rule, Matching, Named,
}
use v2b_z.Limiter.Users.{new_limiter}
use v2b_z.Conf.{CertConfig}
use v2b_z.Panel.{UserTraffic}
use v2b_z.Panel.Tls.{TlsSettings, zero_tls}
use v2b_z.Panel.Node.{CommonNode, NodeInfo, TuicNode, RawDns}
use v2b_z.Panel.Routes.{Route, one, parse_routes}
use v2b_z.Panel.Routes.Parsed.{blocked, protocols_of, expressions_of, check-parse_routes}
use v2b_z.Panel.Decode.{Decoders, ClientError, decode_failed}
use v2b_z.Panel.Client.{Client, Response, response, get_node_info, sum_traffic}
use v2b_z.Panel.Client.Caching.{get_node_info-again}
use v2b_z.Panel.Finish.{read_node}
use v2b_z.Tests.Fixtures.{node}

abbrev routes : List Route
routes =
    record {
      id = pos 1;
      match_value = one (text "protocol:bittorrent,regexp:ads,spam");
      action = text "block";
      action_value = [];
    }
    ∷ record {
      id = pos 2;
      match_value = one (text "a.example,b.example");
      action = text "dns";
      action_value = text "1.1.1.1";
    }
    ∷ []

abbrev no_rules : Rules
no_rules = record { regexp = []; protocol = [] }

abbrev no_dns : RawDns
no_dns = record { dns_map = []; dns_json = [] }

abbrev limiter : Limiter
limiter = new_limiter (text "n") (pos 0) [] []

abbrev with_rules : Limiter
with_rules = record limiter {
  domain_rules = text "ads" ∷ text "spam" ∷ [];
  protocol_rules = text "bittorrent" ∷ [];
}

check-parse_routes_example :
    ((check_domain_rule text_beq with_rules (text "ads") ≡ true)
      ↔ Matching text_beq (expressions_of (blocked routes)) (text "ads"))
    × ((check_protocol_rule with_rules (text "ads") ≡ true)
        ↔ Named (protocols_of (blocked routes)) (text "ads"))
unfolding update_rule parse_routes v2b_z.Panel.Routes.parse_route
    v2b_z.Panel.Routes.route_matches_to_strings v2b_z.Prelude.Text.split_by text_beq
    v2b_z.Panel.Routes.block_match has_prefix trim_prefix
check-parse_routes_example =
    check-parse_routes (λ r. true) text_beq routes no_dns limiter with_rules (text "ads") refl

-- A TUIC node, and decoders that know it alone.
abbrev tls : TlsSettings
tls = record zero_tls { has_cert_fields = true; cert_mode = text "http" }

abbrev common : CommonNode
common = record { host = text "h.example"; server_port = pos 443; server_name = text "s.example" }

abbrev tuic : TuicNode
tuic = record {
  common_node = common;
  tls_settings = tls;
  congestion_control = text "bbr";
  zero_rtt_handshake = false;
}

abbrev decoders : Decoders
decoders = record {
  vallss = λ b. none;
  shadowsocks = λ b. none;
  trojan = λ b. none;
  tuic = λ b. some (record {
    node = tuic;
    network_settings_back = none;
    tls_settings_back = none;
    routes = routes;
    base_config = none;
  });
  any_tls = λ b. none;
  hysteria = λ b. none;
  hysteria2 = λ b. none;
}

abbrev read : ℤ → Text → Text → Result ClientError NodeInfo
read = read_node (λ t. t) (λ t. pos 0) (λ t. none) decoders

abbrev value_of : Result ClientError NodeInfo → NodeInfo
value_of (ok n) = n
value_of (err e) = node

abbrev tuic_info : NodeInfo
tuic_info = value_of (read (pos 7) (text "tuic") (text "{}"))

abbrev tuic_node : NodeInfo
tuic_node = record node { type = text "tuic"; tuic = some tuic }

abbrev tuic_cert : CertConfig
tuic_cert = record {
  cert_mode = text "http";
  reject_unknown_sni = false;
  self_fallback = false;
  cert_domain = text "s.example";
  cert_file = text "/etc/V2bZ/node-7.cer";
  key_file = text "/etc/V2bZ/node-7.key";
  provider = [];
  email = text "node@zicboard.local";
  dns_env = some [];
}

abbrev client : Client
client = record {
  node_type = text "tuic";
  node_id = pos 7;
  node_etag = [];
  user_etag = [];
  response_body_hash = [];
  alive_map = [];
}

abbrev answer : Response
answer = record { status_code = pos 200; body = text "{"; etag = text "e" }

abbrev undecodable : ℤ → Text → Text → Result ClientError NodeInfo
undecodable node_id t body = err (decode_failed t)

-- The first answer is an error, the second one no change.
test_undecodable :
    (get_node_info (λ b. b) undecodable (response answer) client).1
    ≡ err (decode_failed (text "tuic"))
unfolding get_node_info text_beq
test_undecodable = refl

get_node_info-again_example :
    get_node_info
      (λ b. b)
      undecodable
      (response answer)
      (get_node_info (λ b. b) undecodable (response answer) client).0
    ≡ ((get_node_info (λ b. b) undecodable (response answer) client).0, ok none)
get_node_info-again_example = get_node_info-again (λ b. b) undecodable answer client refl

abbrev traffic : List UserTraffic
traffic =
    record { uid = pos 3; upload = pos 5; download = pos 6 }
    ∷ record { uid = pos 4; upload = pos 1; download = pos 1 }
    ∷ record { uid = pos 3; upload = pos 10; download = pos 20 }
    ∷ []

test_sums : lookup (pos 3) (sum_traffic traffic []) ≡ some (pos 15, pos 26)
unfolding lookup sum_traffic v2b_z.Panel.Client.add_traffic v2b_z.Prelude.GoMap.insert
    v2b_z.Prelude.Int.add64
test_sums = refl

-- ===== src/Panel/Finish.antt =====
-- api/panel/node.go: what GetNodeInfo does behind the switch on the protocol: rules, DNS, intervals and
-- the settings of the certificate. `atoi` is strconv.Atoi without its error.
pub mod Protocol
use v2b_z.Prelude.{Option, none, some, Result, ok, err, ◌>>=◌}
use v2b_z.Prelude.Int.{ℤ, pos, mul64}
use v2b_z.Prelude.Text.{Text}
use v2b_z.Prelude.GoMap.{GoMap}
use v2b_z.Panel.Node.{NodeInfo}
use v2b_z.Panel.Routes.{parse_routes}
use v2b_z.Panel.Certificate.{build_panel_cert_config}
use v2b_z.Panel.Decode.{
  Interval, nil, other_type, int, float64, string, BaseConfig, ClientError, panicked, Parts,
  Decoders, decode_protocol,
}
use v2b_z.Panel.Client.{Client, Answer, get_node_info}

module _ (atoi : Text → ℤ) where
  -- In nanoseconds; `none` is the panic of reflect.
  unfoldable pub interval_to_time : Interval → Option ℤ
  interval_to_time nil = some (pos 60000000000)
  interval_to_time (int i) = some (mul64 i (pos 1000000000))
  interval_to_time (string s) = some (mul64 (atoi s) (pos 1000000000))
  interval_to_time (float64 i) = some (mul64 i (pos 1000000000))
  interval_to_time other_type = none

  unfoldable pub intervals : Option BaseConfig → Option (ℤ × ℤ)
  unfolding interval_to_time
  intervals none = some (pos 60000000000, pos 60000000000)
  intervals (some b) = elim (interval_to_time b.push_interval) [
    | none ↦ none
    | some push ↦ elim (interval_to_time b.pull_interval) [
      | none ↦ none
      | some pull ↦ some (push, pull)
    ]
  ]

  module _ (trim_space : Text → Text) (decode_env : Text → Option (GoMap Text Text)) where
    -- The node with the intervals, the rules, the DNS settings and the certificate's settings.
    unfoldable pub settle_node : ℤ → Parts → ℤ × ℤ → NodeInfo
    settle_node node_id (node, cm, routes, base_config) (push, pull) =
        let (rules, dns) = parse_routes 0 routes (node.rules, node.raw_dns) in
        let node' = record node {
          rules = rules;
          raw_dns = dns;
          push_interval = push;
          pull_interval = pull;
          common = some cm;
        } in
        let (cert, self_fallback, reject_unknown_sni) =
          build_panel_cert_config trim_space decode_env node_id node' (some cm) in
        record node' {
          panel_cert_config = cert;
          panel_cert_self_fallback_set = self_fallback;
          panel_cert_reject_unknown_sni_set = reject_unknown_sni;
        }

    -- What follows the switch.
    unfoldable pub finish_node : ℤ → Parts → Result ClientError NodeInfo
    unfolding intervals settle_node
    finish_node node_id p = elim (intervals p.3) [
      | none ↦ err panicked
      | some i ↦ ok (settle_node node_id p i)
    ]

module _ (trim_space : Text → Text) (atoi : Text → ℤ) (decode_env : Text → Option (GoMap Text Text))
    (decoders : Decoders) where
  -- The switch and what follows it.
  unfoldable pub read_node : ℤ → Text → Text → Result ClientError NodeInfo
  read_node node_id node_type body =
      decode_protocol trim_space decoders node_id node_type body
      >>= finish_node atoi trim_space decode_env node_id

  -- GetNodeInfo, whole.
  unfoldable pub fetch_node_info :
      (Text → Text) → Answer → Client → Client × Result ClientError (Option NodeInfo)
  unfolding read_node
  fetch_node_info sha256 = get_node_info sha256 read_node

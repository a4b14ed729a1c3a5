-- ===== src/Panel/Routes.antt =====
-- api/panel/node.go: the routes of a node, which GetNodeInfo turns into rules and DNS settings.
pub mod Dns
pub mod Parsed
use v2b_z.Prelude.{
  ℕ, suc, Bool, true, false, List, [], ◌∷◌, ◌++◌, Option, none, some, nat_beq, ◌==◌, if◌then◌else◌,
  is_empty,
}
use v2b_z.Prelude.Int.{ℤ, pos}
use v2b_z.Prelude.Text.{Text, text, text_eq, has_prefix, trim_prefix, split_by}
use v2b_z.Prelude.GoMap.{insert}
use v2b_z.Prelude.Decimal.{itoa}
use v2b_z.Limiter.Rules.{Rules}
use v2b_z.Panel.Node.{RawDns}

-- The dynamic types of `match`: of an item of a list only the string counts.
pub data MatchValue : Type 0 where
  nil other_type : MatchValue
  one : Text → MatchValue
  strings : List Text → MatchValue
  items : List (Option Text) → MatchValue

pub record Route : Type 0 where
  pub id : ℤ
  pub match_value : MatchValue
  pub action : Text
  pub action_value : Text

-- strings.Split(value, ",")
abbrev pub split_comma : Text → List Text
split_comma t = split_by (λ c. nat_beq c b',') t

unfoldable pub text_items : List (Option Text) → List Text
text_items [] = []
text_items (none ∷ is) = text_items is
text_items (some t ∷ is) = let rest = text_items is in if is_empty t then rest else t ∷ rest

unfoldable pub route_matches_to_strings : MatchValue → List Text
unfolding text_items
route_matches_to_strings nil = []
route_matches_to_strings (one t) = if is_empty t then [] else split_comma t
route_matches_to_strings (strings ts) = ts
route_matches_to_strings (items is) = text_items is
route_matches_to_strings other_type = []

-- One match of a route that blocks.
unfoldable pub block_match : Text → Rules → Rules
block_match v rules =
    if has_prefix v (text "protocol:")
    then record rules { protocol = rules.protocol ++ trim_prefix v (text "protocol:") ∷ [] }
    else record rules { regexp = rules.regexp ++ trim_prefix v (text "regexp:") ∷ [] }

unfoldable pub block_matches : List Text → Rules → Rules
block_matches [] rules = rules
block_matches (v ∷ vs) rules = block_matches vs (block_match v rules)

-- strings.Join(ss, "")
abbrev pub join : List Text → Text
join [] = []
join (t ∷ ts) = t ++ join ts

-- A route for DNS, with the index of the route and its matches.
unfoldable pub dns_route : ℕ → Text → Text → List Text → RawDns → RawDns
dns_route i address v vs dns =
    if v == text "main" then record dns { dns_json = join vs } else record dns {
      dns_map =
          insert (itoa (pos i)) (record { address = address; domains = v ∷ vs; port = none })
            dns.dns_map;
    }

unfoldable pub parse_route : ℕ → Route → Rules × RawDns → Rules × RawDns
unfolding block_matches dns_route
parse_route i r (rules, dns) = elim (route_matches_to_strings r.match_value) [
  | [] ↦ (rules, dns)
  | v ∷ vs ↦
      if r.action == text "block"
      then (block_matches (v ∷ vs) rules, dns)
      else if r.action == text "dns"
      then (rules, dns_route i r.action_value v vs dns)
      else (rules, dns)
]

-- The loop over the routes; `i` is the index of the first.
unfoldable pub parse_routes : ℕ → List Route → Rules × RawDns → Rules × RawDns
parse_routes i [] s = s
parse_routes i (r ∷ rs) s = parse_routes (suc i) rs (parse_route i r s)

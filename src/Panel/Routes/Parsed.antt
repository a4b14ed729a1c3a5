-- ===== src/Panel/Routes/Parsed.antt =====
-- api/panel/node.go: the rules and the DNS settings that the routes of a node give.
use v2b_z.Prelude.{
  ℕ, suc, ◌≡◌, sym, ap, ◌∙◌, Bool, true, List, [], ◌∷◌, ◌++◌, some, ◌==◌, ◌↔◌, arith, Bool-cases,
  inl, inr, if◌then◌else◌,
}
use mathlib.Core.List.{append-nil, append_assoc}
use v2b_z.Prelude.Text.{Text, text, text_eq, has_prefix, trim_prefix}
use v2b_z.Limiter.Types.{Limiter}
use v2b_z.Limiter.Rules.{
  Rules, update_rule, check_domain_rule, check_protocol_rule, Matching, Named, check-update_rule,
}
use v2b_z.Panel.Node.{RawDns}
use v2b_z.Panel.Routes.{
  Route, route_matches_to_strings, block_match, block_matches, parse_route, parse_routes,
}

-- The matches of all routes that block, in order.
abbrev blocked_by : Route → List Text
blocked_by r = if r.action == text "block" then route_matches_to_strings r.match_value else []

unfoldable pub blocked : List Route → List Text
blocked [] = []
blocked (r ∷ rs) = blocked_by r ++ blocked rs

-- The names of protocols among matches, and the expressions.
unfoldable pub protocols_of : List Text → List Text
protocols_of [] = []
protocols_of (v ∷ vs) =
    let rest = protocols_of vs in
    if has_prefix v (text "protocol:") then trim_prefix v (text "protocol:") ∷ rest else rest

unfoldable pub expressions_of : List Text → List Text
expressions_of [] = []
expressions_of (v ∷ vs) =
    let rest = expressions_of vs in
    if has_prefix v (text "protocol:") then rest else trim_prefix v (text "regexp:") ∷ rest

unfoldable pub with_matches : List Text → Rules → Rules
unfolding protocols_of expressions_of
with_matches vs rules = record {
  regexp = rules.regexp ++ expressions_of vs;
  protocol = rules.protocol ++ protocols_of vs;
}

with_matches-step :
    (v : Text) (vs : List Text) (rules : Rules)
    → with_matches vs (block_match v rules) ≡ with_matches (v ∷ vs) rules
unfolding with_matches block_match
with_matches-step v vs rules = elim (Bool-cases (has_prefix v (text "protocol:"))) [
  | inl e ↦ rw e (simp append_assoc)
  | inr e ↦ rw e (simp append_assoc)
]

with_matches-nil : (rules : Rules) → with_matches [] rules ≡ rules
unfolding with_matches
with_matches-nil rules = simp append-nil

block_matches_lem :
    (vs : List Text) (rules : Rules) → block_matches vs rules ≡ with_matches vs rules
unfolding block_matches with_matches
block_matches_lem [] rules = sym (with_matches-nil rules)
block_matches_lem (v ∷ vs) rules =
    block_matches_lem vs (block_match v rules) ∙ with_matches-step v vs rules

with_matches-append :
    (us vs : List Text) (rules : Rules)
    → with_matches (us ++ vs) rules ≡ with_matches vs (with_matches us rules)
with_matches-append [] vs rules = ap (with_matches vs) (sym (with_matches-nil rules))
with_matches-append (u ∷ us) vs rules =
    sym (with_matches-step u (us ++ vs) rules)
    ∙ with_matches-append us vs (block_match u rules)
    ∙ ap (with_matches vs) (with_matches-step u us rules)

parse_route-rules :
    (i : ℕ) (r : Route) (s : Rules × RawDns)
    → (parse_route i r s).0 ≡ with_matches (blocked_by r) s.0
unfolding parse_route
parse_route-rules i r s =
    ground
      (arith, with_matches-nil s.0, block_matches_lem (route_matches_to_strings r.match_value) s.0)

-- The rules of a node are, behind those that it had, the matches of the routes that block, in order: a
-- match with the prefix protocol: is the name of a protocol, any other one an expression.
pub parse_routes-rules :
    (i : ℕ) (rs : List Route) (s : Rules × RawDns)
    → (parse_routes i rs s).0 ≡ with_matches (blocked rs) s.0
unfolding parse_routes blocked
parse_routes-rules i [] s = sym (with_matches-nil s.0)
parse_routes-rules i (r ∷ rs) s =
    parse_routes-rules (suc i) rs (parse_route i r s)
    ∙ ap (with_matches (blocked rs)) (parse_route-rules i r s)
    ∙ sym (with_matches-append (blocked_by r) (blocked rs) s.0)

module _ (compiles : Text → Bool) (matches : Text → Text → Bool) where
  -- Once a limiter has taken over the rules that the routes of a new node give, it rejects a
  -- destination exactly when an expression among the matches of the routes that block matches it,
  -- and a protocol exactly when it is a name of a protocol among them.
  pub check-parse_routes :
      (rs : List Route) (dns : RawDns) (l l' : Limiter) (d : Text)
      → update_rule compiles (parse_routes 0 rs (record { regexp = []; protocol = [] }, dns)).0 l
        ≡ some l'
      → ((check_domain_rule matches l' d ≡ true) ↔ Matching matches (expressions_of (blocked rs)) d)
        × ((check_protocol_rule l' d ≡ true) ↔ Named (protocols_of (blocked rs)) d)
  unfolding with_matches
  check-parse_routes rs dns l l' d h =
      let start : Rules = record { regexp = []; protocol = [] } in
      let e = ap (λ rules. update_rule compiles rules l) (parse_routes-rules 0 rs (start, dns)) in
      check-update_rule compiles matches (with_matches (blocked rs) start) l l' d (sym e ∙ h)

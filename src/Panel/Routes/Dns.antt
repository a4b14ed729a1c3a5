-- ===== src/Panel/Routes/Dns.antt =====
-- api/panel/node.go: the DNS entries that the routes of a node give.
use v2b_z.Prelude.{
  ℕ, zero, suc, ◌+◌, ◌≤◌, ◌≡◌, refl, ap, ◌∙◌, false, not, ◌&&◌, List, [], ◌∷◌, Option, none, some,
  ◌==◌, ◌≢◌, arith, if◌then◌else◌, get_elem?, Bool-cases, inl, inr, ==_refl, ==_iff,
}
use v2b_z.Prelude.Int.{pos}
use v2b_z.Prelude.Text.{Text, text, text_eq, text_beq_iff}
use v2b_z.Prelude.GoMap.{lookup, lookup-insert}
use v2b_z.Prelude.Decimal.{itoa, itoa_injective}
use v2b_z.Limiter.Rules.{Rules}
use v2b_z.Panel.Node.{RawDns, DnsEntry}
use v2b_z.Panel.Routes.{Route, route_matches_to_strings, dns_route, parse_route, parse_routes}

-- The entry of a route: a route for DNS has one, unless its first match is main.
unfoldable pub dns_entry : Option Route → Option DnsEntry
dns_entry none = none
dns_entry (some r) = elim (route_matches_to_strings r.match_value) [
  | [] ↦ none
  | v ∷ vs ↦
      if r.action == text "dns" && not (v == text "main")
      then some (record { address = r.action_value; domains = v ∷ vs; port = none })
      else none
]

abbrev pub or_else {ℓ} : {A : Type ℓ} → Option A → Option A → Option A
or_else none b = b
or_else (some a) b = some a

abbrev pub entry_at : ℕ → Rules × RawDns → Option DnsEntry
entry_at i s = lookup (itoa (pos i)) s.1.dns_map

pos_injective : {i j : ℕ} → pos i ≡ pos j → i ≡ j
pos_injective e = cc

itoa_eqb : (i j : ℕ) → i ≢ j → (itoa (pos i) == itoa (pos j)) ≡ false
itoa_eqb i j h = elim (Bool-cases (itoa (pos i) == itoa (pos j))) [
  | inl e ↦ absurd (
      h (
        pos_injective
          (itoa_injective (pos i) (pos j) ((==_iff (itoa (pos i)) (itoa (pos j))).0 e))))
  | inr e ↦ e
]

dns_route-at :
    (i j : ℕ) (a v : Text) (vs : List Text) (dns : RawDns)
    → lookup (itoa (pos j)) (dns_route i a v vs dns).dns_map ≡ (
        if not (v == text "main") && itoa (pos i) == itoa (pos j)
        then some (record { address = a; domains = v ∷ vs; port = none })
        else lookup (itoa (pos j)) dns.dns_map)
unfolding dns_route
dns_route-at i j a v vs dns = elim (Bool-cases (v == text "main")) [
  | inl e ↦ rw e
  | inr e ↦ rw e (
      lookup-insert (itoa (pos i)) (itoa (pos j))
        (record { address = a; domains = v ∷ vs; port = none }) dns.dns_map)
]

parse_route-own :
    (i : ℕ) (r : Route) (s : Rules × RawDns)
    → entry_at i (parse_route i r s) ≡ or_else (dns_entry (some r)) (entry_at i s)
unfolding parse_route dns_entry
parse_route-own i r s = grind (
  arith,
  dns_route-at,
  ==_refl (itoa (pos i)),
  text_beq_iff r.action (text "block"),
  text_beq_iff r.action (text "dns"),
)

parse_route-other :
    (i j : ℕ) (r : Route) (s : Rules × RawDns)
    → i ≢ j
    → entry_at j (parse_route i r s) ≡ entry_at j s
unfolding parse_route
parse_route-other i j r s h = grind (arith, dns_route-at, itoa_eqb i j h)

-- The routes before the first one change no entry of its index or behind.
parse_routes-before :
    (i j : ℕ) (rs : List Route) (s : Rules × RawDns)
    → suc j ≤ i
    → entry_at j (parse_routes i rs s) ≡ entry_at j s
unfolding parse_routes
parse_routes-before i j [] s h = refl
parse_routes-before i j (r ∷ rs) s h =
    parse_routes-before (suc i) j rs (parse_route i r s) (omega arith)
    ∙ parse_route-other i j r s (λ e. absurd (omega (arith, e)))

parse_routes-entry :
    (i n : ℕ) (rs : List Route) (s : Rules × RawDns)
    → entry_at (i + n) (parse_routes i rs s)
      ≡ or_else (dns_entry (get_elem? rs n)) (entry_at (i + n) s)
unfolding parse_routes dns_entry
parse_routes-entry i n [] s = refl
parse_routes-entry i zero (r ∷ rs) s =
    let e : i + 0 ≡ i = omega arith in
    rw e
      (parse_routes-before (suc i) i rs (parse_route i r s) (omega arith) ∙ parse_route-own i r s)
parse_routes-entry i (suc n) (r ∷ rs) s =
    let e : i + suc n ≡ suc i + n = omega arith in
    rw e (
      parse_routes-entry (suc i) n rs (parse_route i r s)
      ∙ ap (or_else (dns_entry (get_elem? rs n)))
          (parse_route-other i (suc i + n) r s (λ z. absurd (omega (arith, z)))))

or_else-none : {A : Type 0} (o : Option A) → or_else o none ≡ o
or_else-none none = refl
or_else-none (some a) = refl

-- Where there were no entries, the DNS settings have an entry under the index of a route exactly if
-- it is a route for DNS with a match, the first of which is not main; it has the address and the
-- matches.
pub parse_routes-dns :
    (n : ℕ) (rs : List Route) (rules : Rules) (json : Text)
    → entry_at n (parse_routes 0 rs (rules, record { dns_map = []; dns_json = json }))
      ≡ dns_entry (get_elem? rs n)
unfolding dns_entry lookup
parse_routes-dns n rs rules json =
    let start : Rules × RawDns = (rules, record { dns_map = []; dns_json = json }) in
    let e : n ≡ 0 + n = omega arith in
    ap (λ k. entry_at k (parse_routes 0 rs start)) e
    ∙ parse_routes-entry 0 n rs start
    ∙ or_else-none (dns_entry (get_elem? rs n))

-- ===== src/Core/Hy2/Outbound.antt =====
-- core/hy2/config.go and serverConfig.go: getOutboundConfig, the chain Resolver(ACL(Outbounds...)). `O` are
-- the outbounds of the hysteria library, and `Library` its constructors.
pub mod Resolved
use v2b_z.Prelude.{
  Bool, true, false, not, ◌&&◌, ◌||◌, List, [], ◌∷◌, ◌++◌, Option, none, some, ◌==◌, if◌then◌else◌,
  is_empty, Result, ok, err, ◌>>=◌,
}
use v2b_z.Prelude.Int.{ℤ}
use v2b_z.Prelude.Text.{Text, text, text_eq}

pub data Mode : Type 0 where
  auto mode64 mode46 mode6 mode4 : Mode

pub record OutboundDirect : Type 0 where
  pub mode : Text
  pub bind_ipv4 : Text
  pub bind_ipv6 : Text
  pub bind_device : Text

pub record OutboundSocks5 : Type 0 where
  pub addr : Text
  pub username : Text
  pub password : Text

pub record OutboundHttp : Type 0 where
  pub url : Text
  pub insecure : Bool

pub record OutboundEntry : Type 0 where
  pub name : Text
  pub type : Text
  pub direct : OutboundDirect
  pub socks5 : OutboundSocks5
  pub http : OutboundHttp

pub record Acl : Type 0 where
  pub file : Text
  pub inline : List Text
  pub geoip : Text
  pub geosite : Text
  pub geo_update_interval : ℤ

-- A resolver over TCP or UDP has no name and no flag.
pub record ResolverServer : Type 0 where
  pub addr : Text
  pub timeout : ℤ
  pub sni : Text
  pub insecure : Bool

pub record Resolver : Type 0 where
  pub type : Text
  pub tcp : ResolverServer
  pub udp : ResolverServer
  pub tls : ResolverServer
  pub https : ResolverServer

-- Of an ACL engine the Acl gives the geo data; an IP is an address that net.ParseIP accepts.
pub record Library (O Ip : Type 0) : Type 0 where
  pub parse_ip : Text → Option Ip
  pub direct_simple : Mode → O
  pub direct_ips : Mode → Option Ip → Option Ip → Result Text O
  pub direct_device : Mode → Text → Result Text O
  pub socks5 : Text → Text → Text → O
  pub http : Text → Bool → Result Text O
  pub acl_from_file : Acl → Text → List (Text × O) → Result Text O
  pub acl_from_string : Acl → Text → List (Text × O) → Result Text O
  pub system_resolver : O → O
  pub tcp_resolver : Text → ℤ → O → O
  pub udp_resolver : Text → ℤ → O → O
  pub tls_resolver : Text → ℤ → Text → Bool → O → O
  pub doh_resolver : Text → ℤ → Text → Bool → O → O

-- strings.Join(lines, "\n")
unfoldable pub join_lines : List Text → Text
join_lines [] = []
join_lines (l ∷ []) = l
join_lines (l ∷ m ∷ ls) = l ++ 0x0a ∷ join_lines (m ∷ ls)

module _ {O Ip : Type 0} (lib : Library O Ip) (to_lower : Text → Text) where
  unfoldable pub direct_mode : Text → Result Text Mode
  direct_mode m =
      let mode = to_lower m in
      if is_empty mode || mode == text "auto"
      then ok auto
      else if mode == text "64"
      then ok mode64
      else if mode == text "46"
      then ok mode46
      else if mode == text "6"
      then ok mode6
      else if mode == text "4"
      then ok mode4
      else err (text "outbounds.direct.mode unsupported mode")

  abbrev is_none : Option Ip → Bool
  is_none none = true
  is_none (some i) = false

  unfoldable pub direct_outbound : OutboundDirect → Result Text O
  unfolding direct_mode
  direct_outbound c = direct_mode c.mode >>= λ mode.
      (let bind_ip = not (is_empty c.bind_ipv4) || not (is_empty c.bind_ipv6) in
        let bind_device = not (is_empty c.bind_device) in
        let ip4 = lib.parse_ip c.bind_ipv4 in
        let ip6 = lib.parse_ip c.bind_ipv6 in
        if bind_ip && bind_device
        then err (text "outbounds.direct cannot bind both IP and device")
        else if bind_ip
        then (if not (is_empty c.bind_ipv4) && is_none ip4
            then err (text "outbounds.direct.bindIPv4 invalid IPv4 address")
            else if not (is_empty c.bind_ipv6) && is_none ip6
            then err (text "outbounds.direct.bindIPv6 invalid IPv6 address")
            else lib.direct_ips mode ip4 ip6)
        else if bind_device
        then lib.direct_device mode c.bind_device
        else ok (lib.direct_simple mode))

  unfoldable pub socks5_outbound : OutboundSocks5 → Result Text O
  socks5_outbound c =
      if is_empty c.addr
      then err (text "outbounds.socks5.addr empty socks5 address")
      else ok (lib.socks5 c.addr c.username c.password)

  unfoldable pub http_outbound : OutboundHttp → Result Text O
  http_outbound c =
      if is_empty c.url
      then err (text "outbounds.http.url empty http address")
      else lib.http c.url c.insecure

  unfoldable pub entry_outbound : OutboundEntry → Result Text O
  unfolding direct_outbound socks5_outbound http_outbound
  entry_outbound e =
      if to_lower e.type == text "direct"
      then direct_outbound e.direct
      else if to_lower e.type == text "socks5"
      then socks5_outbound e.socks5
      else if to_lower e.type == text "http"
      then http_outbound e.http
      else err (text "outbounds.type unsupported outbound type")

  -- The loop over the entries.
  unfoldable pub entries : List OutboundEntry → Result Text (List (Text × O))
  unfolding entry_outbound
  entries [] = ok []
  entries (e ∷ es) =
      let rest = entries es in
      if is_empty e.name
      then err (text "empty outbound name")
      else entry_outbound e >>= λ o. (rest >>= λ os. ok ((e.name, o) ∷ os))

  -- There is at least one outbound: the first one and the others.
  unfoldable pub outbounds : List OutboundEntry → Result Text (List (Text × O))
  unfolding entries
  outbounds [] = ok ((text "default", lib.direct_simple auto) ∷ [])
  outbounds (e ∷ es) = entries (e ∷ es)

  unfoldable pub has_acl : Acl → Bool
  has_acl a = not (is_empty a.file) || not (is_empty a.inline)

  -- The ACL engine, or the first outbound; `none` is the panic of an empty list.
  unfoldable pub unified : Acl → List (Text × O) → Option (Result Text O)
  unfolding join_lines
  unified a obs =
      if not (is_empty a.file) && not (is_empty a.inline)
      then some (err (text "cannot set both acl.file and acl.inline"))
      else if not (is_empty a.file)
      then some (lib.acl_from_file a a.file obs)
      else if not (is_empty a.inline)
      then some (lib.acl_from_string a (join_lines a.inline) obs)
      else elim obs [ [] ↦ none | (n, o) ∷ _ ↦ some (ok o) ]

  unfoldable pub server_of : ResolverServer → (ResolverServer → O) → Result Text O
  server_of s make = if is_empty s.addr then err (text "empty resolver address") else ok (make s)

  -- The resolver in front of an outbound.
  unfoldable pub with_resolver : Resolver → Bool → O → Result Text O
  unfolding server_of
  with_resolver r acl o =
      let type = to_lower r.type in
      if is_empty type || type == text "system"
      then ok (if acl then lib.system_resolver o else o)
      else if type == text "tcp"
      then server_of r.tcp (λ s. lib.tcp_resolver s.addr s.timeout o)
      else if type == text "udp"
      then server_of r.udp (λ s. lib.udp_resolver s.addr s.timeout o)
      else if type == text "tls" || type == text "tcp-tls"
      then server_of r.tls (λ s. lib.tls_resolver s.addr s.timeout s.sni s.insecure o)
      else if type == text "https" || type == text "http"
      then server_of r.https (λ s. lib.doh_resolver s.addr s.timeout s.sni s.insecure o)
      else err (text "unsupported resolver type")

  unfoldable pub get_outbound_config : List OutboundEntry → Acl → Resolver → Option (Result Text O)
  unfolding outbounds unified has_acl with_resolver
  get_outbound_config es a r = elim (outbounds es) [
    | err e ↦ some (err e)
    | ok obs ↦ elim (unified a obs) [
      | none ↦ none
      | some (err e) ↦ some (err e)
      | some (ok o) ↦ some (with_resolver r (has_acl a) o)
    ]
  ]

-- ===== src/Tests/Outbounds.antt =====
-- The theorem on the outbounds of hysteria, with texts that show the chain as the library.
use v2b_z.Prelude.{◌≡◌, refl, false, [], ◌∷◌, ◌++◌, some, ok, err}
use v2b_z.Prelude.Int.{pos}
use v2b_z.Prelude.Text.{Text, text, text_beq}
use v2b_z.Core.Hy2.Outbound.{
  Library, OutboundEntry, Acl, ResolverServer, Resolver, get_outbound_config,
}
use v2b_z.Core.Hy2.Outbound.Resolved.{Ends, get_outbound_config-Ends}

abbrev library : Library Text Text
library = record {
  parse_ip = λ t. some t;
  direct_simple = λ m. text "direct";
  direct_ips = λ m v4 v6. ok (text "bound");
  direct_device = λ m d. ok d;
  socks5 = λ a u p. a;
  http = λ u i. ok u;
  acl_from_file = λ a f obs. err (text "no file");
  acl_from_string = λ a s obs. ok (text "acl");
  system_resolver = λ o. text "system>" ++ o;
  tcp_resolver = λ a t o. text "tcp>" ++ o;
  udp_resolver = λ a t o. text "udp>" ++ o;
  tls_resolver = λ a t s i o. text "tls>" ++ o;
  doh_resolver = λ a t s i o. text "doh>" ++ o;
}

abbrev entry : OutboundEntry
entry = record {
  name = text "out";
  type = text "direct";
  direct = record { mode = []; bind_ipv4 = []; bind_ipv6 = []; bind_device = [] };
  socks5 = record { addr = []; username = []; password = [] };
  http = record { url = []; insecure = false };
}

abbrev acl : Acl
acl = record {
  file = [];
  inline = text "reject(all)" ∷ [];
  geoip = [];
  geosite = [];
  geo_update_interval = pos 0;
}

abbrev nowhere : ResolverServer
nowhere = record { addr = []; timeout = pos 0; sni = []; insecure = false }

abbrev resolver : Resolver
resolver = record { type = []; tcp = nowhere; udp = nowhere; tls = nowhere; https = nowhere }

-- The system resolver is put in front of the ACL.
test_chain :
    get_outbound_config library (λ t. t) (entry ∷ []) acl resolver ≡ some (ok (text "system>acl"))
unfolding get_outbound_config text_beq
test_chain = refl

get_outbound_config-Ends_example :
    Ends library
      (λ t. t)
      (entry ∷ [])
      acl
      (get_outbound_config library (λ t. t) (entry ∷ []) acl resolver)
get_outbound_config-Ends_example =
    get_outbound_config-Ends library (λ t. t) (entry ∷ []) acl resolver

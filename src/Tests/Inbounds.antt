-- ===== src/Tests/Inbounds.antt =====
-- The inbound, the DNS settings and the handlers of a node on xray, on small inputs.
use v2b_z.Prelude.{
  ◌≡◌, ◌≢◌, refl, true, false, List, [], ◌∷◌, none, some, ok, err, arith, ◌==◌, ==_iff,
  if◌then◌else◌, inl,
}
use v2b_z.Prelude.Int.{pos, int_eq, to_word}
use v2b_z.Prelude.Text.{Text, text, text_eq, text_beq}
use v2b_z.Conf.{CertConfig, new_cert_config}
use v2b_z.Conf.Options.{Options}
use v2b_z.Conf.Xray.{new_xray_options}
use v2b_z.Panel.Node.{NodeInfo, CommonNode}
use v2b_z.Panel.Tls.{zero_tls}
use v2b_z.Core.Types.{Failure, message}
use v2b_z.Core.Xray.Inbound as Xray
use v2b_z.Core.Xray.Inbound.{Inbound, StreamConfig}
use v2b_z.Core.Xray.Inbound.Normal.{normalize_trojan_network, normalize_network_settings}
use v2b_z.Core.Xray.Inbound.Protocols.{build_trojan, trojan_settings, new_stream}
use v2b_z.Core.Xray.Inbound.Build.{
  inbound_of, build_inbound, build_protocol, complete, set_security, set_tls, set_proxy_protocol,
}
use v2b_z.Core.Xray.Inbound.Bare.{is_supported_for}
use v2b_z.Core.Xray.Inbound.Fits.{IsSecured, inbound_of-IsSecured}
use v2b_z.Core.Xray.Dns as Dns
use v2b_z.Core.Xray.Dns.{
  DnsFile, save_dns_config, split_entries, split_entry, has_port, contains_byte, number_or_zero,
}
use v2b_z.Core.Xray.Dns.Again.{split_entries-again, IsIpv6}
use v2b_z.Core.Xray.Outbound.{build_outbound}
use v2b_z.Core.Xray.Node.{Managers, add_inbound, add_outbound, add_node_handlers, add_node_outbound}
use v2b_z.Core.Xray.Node.Half.{add_node_handlers-again}
use v2b_z.Node.Certs.Request.{request_cert, nothing}
use v2b_z.Node.Certs.Request.Mode.{request_cert-inbound_of}
use v2b_z.Tests.Fixtures.{node, options, is_node}
use v2b_z.Tests.Hosts.{library, files, acme}

abbrev xlib : Xray.Library Text
xlib = record {
  to_lower = λ s. s;
  trim_space = λ s. s;
  trim_bytes = λ s. s;
  marshal = λ s. s;
  base64 = λ s. s;
  decode_tcp = λ s. ok s;
  decode_ws = λ s. ok s;
  decode_grpc = λ s. ok s;
  decode_httpupgrade = λ s. ok s;
  decode_xhttp = λ s. ok s;
  micros = λ s. pos 0;
  random_hex = ok (text "0f");
  parse_address = λ s. s;
  build = λ i. ok i.tag;
}

abbrev common : CommonNode
common = record { host = text "h"; server_port = pos 443; server_name = [] }

abbrev trojan_node : NodeInfo
trojan_node = record node {
  common = some common;
  trojan = some (record {
    common_node = common;
    network = text "ws";
    network_settings = none;
    tls_settings = zero_tls;
  });
}

-- The mode is not in lower case.
abbrev odd : CertConfig
odd = record new_cert_config { cert_mode = text "None"; cert_file = text "c"; key_file = text "k" }

abbrev odd_options : Options
odd_options = record options { cert_config = some odd }

abbrev stream : StreamConfig
stream = record {
  network = text "ws";
  security = text "tls";
  tcp_settings = none;
  ws_settings = some (record { decoded = none; accept_proxy_protocol = false });
  grpc_settings = none;
  httpupgrade_settings = none;
  split_http_settings = none;
  socket_settings = none;
  tls_settings = some (record {
    cert_file = text "c";
    key_file = text "k";
    ocsp_stapling = 3600;
    reject_unknown_sni = false;
  });
  reality_settings = none;
}

abbrev inbound : Inbound
inbound = record {
  protocol = text "trojan";
  settings = Xray.empty;
  stream = stream;
  port = 443;
  listen_on = [];
  sniffing = true;
  tag = text "n";
}

made : inbound_of xlib odd_options (some new_xray_options) trojan_node (text "n") ≡ ok inbound
unfolding inbound_of build_protocol text_beq build_trojan trojan_settings new_xray_options
    normalize_trojan_network normalize_network_settings complete set_security set_tls to_word
    set_proxy_protocol new_cert_config new_stream
made = refl

inbound_of-IsSecured_example :
    (is_supported_for xlib (text "trojan") (text "ws") ≡ true)
    × IsSecured xlib (some odd) trojan_node stream
inbound_of-IsSecured_example =
    inbound_of-IsSecured xlib odd_options (some new_xray_options) trojan_node (text "n") inbound
      made

apart : (s t : Text) → text_beq s t ≡ false → s ≢ t
apart s t f e = ground (arith, f, ==_iff s t, e)

request_cert-inbound_of_example :
    (request_cert
        (record library { to_lower = λ s. text "none" })
        files
        acme
        (text "m")
        (some odd)
        (record { disk = []; services = 0 })
      ≡ (record { disk = []; services = 0 }, nothing))
    × (text "tls" ≡ text "tls")
unfolding text_beq
request_cert-inbound_of_example =
    request_cert-inbound_of (record library { to_lower = λ s. text "none" }) files acme xlib
      (text "m") odd (record { disk = []; services = 0 }) odd_options (some new_xray_options)
      trojan_node (text "n") inbound refl (apart (text "None") (text "none") refl)
      (apart (text "None") [] refl) refl refl made

-- A host is what stands before the last colon, and it has none itself but in brackets.
abbrev dns_library : Dns.Library
dns_library = record {
  split_host_port = λ s.
      if s == text "[::1]:53" then ok (text "::1", text "53") else err (text "too many colons");
  parse_uint16 = λ s. some 53;
  marshal = λ es. ok (text "dns");
  indent = λ s. ok s;
  decodes = λ s. none;
  builds = λ s. none;
}

split_entries-again_example :
    (f : Failure) × ((split_entries dns_library
        ((text "0", record { address = text "::1"; domains = []; port = some 53 }) ∷ [])).1
      ≡ err f)
unfolding split_entries IsIpv6 has_port contains_byte text_beq split_entry number_or_zero
split_entries-again_example =
    split_entries-again dns_library
      ((text "0", record { address = text "[::1]:53"; domains = []; port = none }) ∷ [])
      (record { address = text "::1"; domains = []; port = some 53 } ∷ [])
      (inl (text "::1", text "53", text "too many colons", refl, refl, refl, refl)) refl

-- A file that cannot be written: it stays empty.
abbrev read_only : DnsFile Text
read_only = record {
  read_file = λ d. ok d;
  truncate = λ d. ([], none);
  write_file = λ s d. (d, some (text "no space"));
}

-- Inbounds by their tags, and no room for an outbound.
abbrev managers : Managers Text Text (List Text)
managers = record {
  create_inbound = λ i m. ok i;
  add_inbound = λ i m. if is_node i m then (m, some (text "existing tag")) else (i ∷ m, none);
  create_outbound = λ o m. ok o;
  add_outbound = λ o m. (m, some (text "full"));
  remove_inbound = λ t m. (m, none);
  remove_outbound = λ t m. (m, none);
}

made_handler :
    build_inbound xlib odd_options (some new_xray_options) trojan_node (text "n") ≡ ok (text "n")
unfolding build_inbound inbound_of build_protocol text_beq build_trojan trojan_settings
    new_xray_options normalize_trojan_network normalize_network_settings complete set_security
    set_tls to_word set_proxy_protocol new_cert_config new_stream
made_handler = refl

add_node_handlers-again_example :
    (f : Failure) × ((add_node_handlers managers dns_library read_only xlib
        (λ o. ok o.tag)
        (text "n")
        trojan_node
        odd_options
        (some new_xray_options)
        (text "n" ∷ [])).1
      ≡ err f)
unfolding add_node_handlers add_node_outbound add_inbound add_outbound build_inbound build_outbound
    inbound_of build_protocol text_beq build_trojan trojan_settings new_xray_options
    normalize_trojan_network normalize_network_settings complete set_security set_tls to_word
    set_proxy_protocol new_cert_config new_stream
add_node_handlers-again_example =
    add_node_handlers-again managers dns_library read_only xlib (λ o. ok o.tag) (text "n")
      trojan_node odd_options (some new_xray_options) (text "n") [] (message (text "full"))
      (λ m. is_node (text "n") m ≡ true) (λ m h. ground (arith, h)) (λ o m h. h)
      (λ m h. (message (text "existing tag"), ground (arith, h))) made_handler refl refl

-- ===== src/Core/Xray/Inbound/Bare.antt =====
-- core/xray/inbound.go: the transport of an inbound.
use v2b_z.Prelude.{
  ◌≡◌, arith, inl, inr, Bool, true, false, [], Option, none, ok, ◌==◌, ◌||◌, is_empty,
  if◌then◌else◌, ◌&&◌, Option-cases, ==_iff,
}
use v2b_z.Prelude.Int.{int_eq}
use v2b_z.Prelude.Text.{Text, text, text_eq}
use v2b_z.Conf.Xray.{XrayOptions}
use v2b_z.Panel.Node.{NodeInfo, VAllssNode}
use v2b_z.Core.Xray.Inbound.{StreamConfig, Library}
use v2b_z.Core.Xray.Inbound.Normal.{
  normalize_trojan_network, normalize_network_settings, normalize_transport_network,
}
use v2b_z.Core.Xray.Inbound.Protocols.{
  Built, new_stream, v2ray_stream, is_v2ray_network, build_vallss, build_v2ray, trojan_stream,
  build_trojan, build_shadowsocks,
}
use v2b_z.Core.Xray.Inbound.Build.{build_protocol}

-- A stream of a network without TLS and without Reality.
abbrev pub IsBare : Text → StreamConfig → Type 0
IsBare n stream =
    (stream.network ≡ n)
    × (stream.security ≡ [])
    × (stream.tls_settings ≡ none)
    × (stream.reality_settings ≡ none)

-- The networks that the code supports for a type of node.
unfoldable pub is_supported_for : {H : Type 0} → Library H → Text → Text → Bool
is_supported_for lib type n =
    if type == text "vmess" || type == text "vless"
    then is_v2ray_network lib n
    else if type == text "trojan"
    then n == text "tcp" || n == text "ws" || n == text "grpc"
    else type == text "shadowsocks" && n == text "tcp"

module _ {H : Type 0} (lib : Library H) where
  v2ray_stream-IsBare :
      (network s : Text) (stream : StreamConfig)
      → v2ray_stream lib network s ≡ ok stream
      → IsBare network stream
  unfolding v2ray_stream new_stream
  v2ray_stream-IsBare network s stream h = ground (arith, h)

  trojan_stream-IsBare :
      (network s : Text) (stream : StreamConfig)
      → trojan_stream lib network s ≡ ok stream
      → IsBare network stream
  unfolding trojan_stream new_stream
  trojan_stream-IsBare network s stream h = ground (arith, h)

  chosen-IsBare :
      (n s : Text) (b : Bool) (stream : StreamConfig)
      → (if b then ok (new_stream n) else v2ray_stream lib n s) ≡ ok stream
      → IsBare n stream
  unfolding new_stream
  chosen-IsBare n s true stream h = ground (arith, h)
  chosen-IsBare n s false stream h = v2ray_stream-IsBare n s stream h

  build_vallss-IsBare :
      (xray : Option XrayOptions) (type : Text) (v : VAllssNode) (b : Built)
      → build_vallss lib xray type v ≡ ok b
      → IsBare b.network b.stream × (is_v2ray_network lib b.network ≡ true)
  unfolding build_vallss
  build_vallss-IsBare xray type v b h =
      let n = normalize_transport_network lib.to_lower lib.trim_space v.network in
      let s = normalize_network_settings lib.trim_bytes v.network_settings in
      ground (arith, h, chosen-IsBare n s (is_empty s) b.stream)

  build_v2ray-IsBare :
      (xray : Option XrayOptions) (node : NodeInfo) (b : Built)
      → build_v2ray lib xray node ≡ ok b
      → IsBare b.network b.stream × (is_v2ray_network lib b.network ≡ true)
  unfolding build_v2ray
  build_v2ray-IsBare xray node b h = elim (Option-cases node.vallss) [
    | inl e ↦ absurd (ground (arith, h, e))
    | inr (v, e) ↦ build_vallss-IsBare xray node.type v b (ground (arith, h, e))
  ]

  build_trojan-IsBare :
      (xray : Option XrayOptions) (node : NodeInfo) (b : Built)
      → build_trojan lib xray node ≡ ok b
      → let n = b.network in
        IsBare n b.stream × ((n == text "tcp" || n == text "ws" || n == text "grpc") ≡ true)
  unfolding build_trojan new_stream normalize_trojan_network
  build_trojan-IsBare xray node b h = grind (arith, h, trojan_stream-IsBare)

  build_shadowsocks-IsBare :
      (node : NodeInfo) (b : Built)
      → build_shadowsocks lib node ≡ ok b
      → IsBare b.network b.stream × ((b.network == text "tcp") ≡ true)
  unfolding build_shadowsocks new_stream
  build_shadowsocks-IsBare node b h = ground (arith, h, ==_iff b.network (text "tcp"))

  pub build_protocol-IsBare :
      (xray : Option XrayOptions) (node : NodeInfo) (b : Built)
      → build_protocol lib xray node ≡ ok b
      → IsBare b.network b.stream × (is_supported_for lib node.type b.network ≡ true)
  unfolding build_protocol is_supported_for
  build_protocol-IsBare xray node b h = ground (
    arith,
    h,
    build_v2ray-IsBare xray node b,
    build_trojan-IsBare xray node b,
    build_shadowsocks-IsBare node b,
  )

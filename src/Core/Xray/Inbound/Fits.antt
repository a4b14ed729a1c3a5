-- ===== src/Core/Xray/Inbound/Fits.antt =====
-- core/xray/inbound.go: the transport and the security of an inbound.
use mathlib.Core.Path.{subst}
use v2b_z.Prelude.{
  ◌≡◌, ◌≢◌, ◌⊎◌, arith, inl, inr, true, false, [], Option, none, some, ok, ◌==◌, ◌||◌, is_empty,
  Result-cases, Option-cases, Bool-cases, ==_iff,
}
use v2b_z.Prelude.Int.{int_eq}
use v2b_z.Prelude.Text.{Text, text, text_eq}
use v2b_z.Conf.{CertConfig}
use v2b_z.Conf.Options.{Options}
use v2b_z.Conf.Xray.{XrayOptions}
use v2b_z.Panel.Node.{NodeInfo, tls_security}
use v2b_z.Core.Xray.Inbound.{StreamConfig, Inbound, Library}
use v2b_z.Core.Xray.Inbound.Normal.{normalize_transport_network}
use v2b_z.Core.Xray.Inbound.Protocols.{}
use v2b_z.Core.Xray.Inbound.Build.{
  reality_security, set_tls, set_security, set_proxy_protocol, build_protocol, complete, inbound_of,
}
use v2b_z.Core.Xray.Inbound.Bare.{IsBare, is_supported_for, build_protocol-IsBare}

module _ {H : Type 0} (lib : Library H) where
  -- The outcome of the switch on the security: TLS, with the files of a certificate that is
  -- configured, if its mode is neither none nor empty; Reality; or nothing.
  abbrev pub IsSecured : Option CertConfig → NodeInfo → StreamConfig → Type 0
  IsSecured cert node stream =
      (node.security ≡ tls_security)
        × ((c : CertConfig) × (cert ≡ some c)
            × ((((c.cert_mode == text "none" || is_empty c.cert_mode) ≡ true)
                  × (stream.security ≡ [])
                  × (stream.tls_settings ≡ none))
                ⊎ (((c.cert_mode == text "none" || is_empty c.cert_mode) ≡ false)
                    × (stream.security ≡ text "tls")
                    × (stream.tls_settings
                        ≡ some (record {
                          cert_file = c.cert_file;
                          key_file = c.key_file;
                          ocsp_stapling = 3600;
                          reject_unknown_sni = c.reject_unknown_sni;
                        })))))
      ⊎ (node.security ≡ reality_security)
        × (stream.security ≡ text "reality")
        × (stream.tls_settings ≡ none)
      ⊎ (node.security ≢ tls_security)
        × (node.security ≢ reality_security)
        × (stream.security ≡ [])
        × (stream.tls_settings ≡ none)

  set_proxy_protocol-IsBare :
      (n network : Text) (o : XrayOptions) (stream : StreamConfig)
      → IsBare n stream
      → IsBare n (set_proxy_protocol network o stream)
  unfolding set_proxy_protocol
  set_proxy_protocol-IsBare n network o stream h = ground (arith, h)

  set_tls-network :
      (c : CertConfig) (stream : StreamConfig) → (set_tls c stream).network ≡ stream.network
  unfolding set_tls
  set_tls-network c stream = ground arith

  set_tls-IsSecured :
      (c : CertConfig) (n : Text) (stream : StreamConfig)
      → IsBare n stream
      → let s = set_tls c stream in
        (s.network ≡ n)
        × ((((c.cert_mode == text "none" || is_empty c.cert_mode) ≡ true)
              × (s.security ≡ [])
              × (s.tls_settings ≡ none))
            ⊎ (((c.cert_mode == text "none" || is_empty c.cert_mode) ≡ false)
                × (s.security ≡ text "tls")
                × (s.tls_settings
                    ≡ some (record {
                      cert_file = c.cert_file;
                      key_file = c.key_file;
                      ocsp_stapling = 3600;
                      reject_unknown_sni = c.reject_unknown_sni;
                    }))))
  unfolding set_tls
  set_tls-IsSecured c n stream bare =
      elim (Bool-cases (c.cert_mode == text "none" || is_empty c.cert_mode)) [
        | inl e ↦ ground (arith, e, bare)
        | inr e ↦ ground (arith, e, bare)
      ]

  set_security-IsSecured :
      (cert : Option CertConfig) (node : NodeInfo) (n : Text) (stream stream' : StreamConfig)
      → IsBare n stream
      → set_security lib cert node stream ≡ ok stream'
      → (stream'.network ≡ n) × IsSecured cert node stream'
  unfolding set_security
  set_security-IsSecured cert node n stream stream' bare h =
      elim (Bool-cases (node.security == tls_security)) [
        | inl t ↦ elim (Option-cases cert) [
          | inl e ↦ absurd (ground (arith, h, t, e))
          | inr (c, e) ↦
              let (same, sec) = set_tls-IsSecured c n stream bare in
              let taken : set_tls c stream ≡ stream' = ground (arith, h, t, e) in
              subst (λ s. (s.network ≡ n) × IsSecured cert node s) taken
                (same, inl ((==_iff node.security tls_security).0 t, (c, e, sec)))
        ]
        | inr t ↦ elim (Bool-cases (node.security == reality_security)) [
          | inl r ↦ elim (Option-cases node.vallss) [
            | inl e ↦ absurd (ground (arith, h, t, r, e))
            | inr (v, e) ↦ (
              ground (arith, h, t, r, e, bare),
              inr (
                  inl (
                    (==_iff node.security reality_security).0 r,
                    ground (arith, h, t, r, e),
                    ground (arith, h, t, r, e, bare),
                  )),
            )
          ]
          | inr r ↦
              let same : stream ≡ stream' = ground (arith, h, t, r) in
              subst (λ s. (s.network ≡ n) × IsSecured cert node s) same
                (
                  bare.0,
                  inr (
                      inr (
                        λ e. ground (arith, t, (==_iff node.security tls_security).1 e),
                        λ e. ground (arith, r, (==_iff node.security reality_security).1 e),
                        bare.1,
                        bare.2,
                      )),
                )
        ]
      ]

  -- An inbound that is made has a network that is supported for the type of the node: tcp, ws, grpc,
  -- httpupgrade, splithttp or xhttp for vmess and vless, tcp, ws or grpc for trojan, and tcp for
  -- shadowsocks. Its security is TLS with the certificate's files exactly if the node asks for TLS
  -- and the mode of the certificate, which is then configured, is neither none nor empty; it is
  -- Reality exactly if the node asks for that; and else there is none.
  pub inbound_of-IsSecured :
      (option : Options) (xray : Option XrayOptions) (node : NodeInfo) (tag : Text) (i : Inbound)
      → inbound_of lib option xray node tag ≡ ok i
      → (is_supported_for lib node.type i.stream.network ≡ true)
        × IsSecured option.cert_config node i.stream
  unfolding inbound_of complete
  inbound_of-IsSecured option xray node tag i h =
      elim (Result-cases (build_protocol lib xray node)) [
        | inr (x, e) ↦ absurd (ground (arith, h, e))
        | inl (b, e) ↦ elim (Option-cases node.common) [
          | inl c ↦ absurd (ground (arith, h, e, c))
          | inr (common, c) ↦ elim (Option-cases xray) [
            | inl o ↦ absurd (ground (arith, h, e, c, o))
            | inr (xo, o) ↦
                let n = normalize_transport_network lib.to_lower lib.trim_space b.network in
                let stream = set_proxy_protocol n xo b.stream in
                let (bare, fits) = build_protocol-IsBare lib xray node b e in
                let kept : set_security lib option.cert_config node stream ≡ ok i.stream =
                  ground (arith, h, e, c, o) in
                let (same, sec) =
                  set_security-IsSecured option.cert_config node b.network stream i.stream
                    (set_proxy_protocol-IsBare b.network n xo b.stream bare) kept in
                (rw same fits, sec)
          ]
        ]
      ]

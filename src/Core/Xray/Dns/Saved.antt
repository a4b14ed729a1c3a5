-- ===== src/Core/Xray/Dns/Saved.antt =====
-- core/xray/dns.go: the file of the DNS settings after a call that reports success.
use v2b_z.Prelude.{
  ◌≡◌, ◌⊎◌, inl, inr, arith, Result-cases, Bool-cases, Option-cases, none, ok, ◌==◌, ==_iff,
}
use v2b_z.Prelude.Text.{Text, text_eq}
use v2b_z.Core.Xray.Dns.{Library, DnsFile, save_dns_config}

module _ (lib : Library) {D : Type 0} (file : DnsFile D) where
  -- saveDnsConfig reports success exactly if the file can be read, and either holds these settings
  -- already and is left alone, or they can be decoded and built. They are then truncated and written,
  -- and success is reported whatever these two calls answer.
  pub save_dns_config_lem :
      (dns : Text) (d d' : D)
      → save_dns_config lib file dns d ≡ (d', none)
      → (current : Text) × (file.read_file d ≡ ok current)
        × (((current ≡ dns) × (d' ≡ d))
            ⊎ ((lib.decodes dns ≡ none)
                × (lib.builds dns ≡ none)
                × (d' ≡ (file.write_file dns (file.truncate d).0).0)))
  unfolding save_dns_config
  save_dns_config_lem dns d d' h = elim (Result-cases (file.read_file d)) [
    | inr (e, r) ↦ absurd (ground (arith, h, r))
    | inl (current, r) ↦ elim (Bool-cases (current == dns)) [
      | inl same ↦ (current, r, inl ((==_iff current dns).0 same, ground (arith, h, r, same)))
      | inr new ↦ elim (Option-cases (lib.builds dns)) [
        | inr (e, b) ↦ absurd (ground (arith, h, r, new, b))
        | inl b ↦ elim (Option-cases (lib.decodes dns)) [
          | inr (e, c) ↦ absurd (ground (arith, h, r, new, b, c))
          | inl c ↦ (current, r, inr (c, b, ground (arith, h, r, new, b, c)))
        ]
      ]
    ]
  ]

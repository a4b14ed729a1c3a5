-- ===== src/Core/Xray/Dns/Again.antt =====
-- core/xray/dns.go: the DNS settings of a node that is added a second time.
use v2b_z.Prelude.{◌≡◌, arith, true, List, [], ◌∷◌, ok, err, Result-cases, inl, inr, ◌⊎◌}
use v2b_z.Prelude.Text.{Text}
use v2b_z.Prelude.GoMap.{GoMap}
use v2b_z.Panel.Node.{DnsEntry}
use v2b_z.Core.Types.{Failure, message}
use v2b_z.Core.Xray.Dns.{Library, has_port, split_entry, split_entries}

module _ (lib : Library) where
  -- An address with a port whose host is an IPv6 address: alone, the host is no address with a port.
  unfoldable pub IsIpv6 : Text → Type 0
  IsIpv6 address =
      (host : Text) × (port : Text) × (x : Text) × (has_port address ≡ true)
      × (lib.split_host_port address ≡ ok (host, port))
      × (has_port host ≡ true)
      × (lib.split_host_port host ≡ err x)

  -- The entries have one with such an address.
  abbrev pub HasIpv6 : GoMap Text DnsEntry → Type 0
  HasIpv6 [] = ⊥
  HasIpv6 ((k, e) ∷ m) = IsIpv6 e.address ⊎ HasIpv6 m

  split_again :
      (e e' : DnsEntry)
      → IsIpv6 e.address
      → split_entry lib e ≡ ok e'
      → (f : Failure) × (split_entry lib e' ≡ err f)
  unfolding IsIpv6 split_entry
  split_again e e' (host, port, x, p, r, p', r') h =
      let moved : e'.address ≡ host = ground (arith, h, p, r) in
      (message x, ground (arith, moved, p', r'))

  first_again :
      (k : Text) (e : DnsEntry) (m : GoMap Text DnsEntry) (f : Failure)
      → split_entry lib e ≡ err f
      → (split_entries lib ((k, e) ∷ m)).1 ≡ err f
  unfolding split_entries
  first_again k e m f h = ground (arith, h)

  later_again :
      (k : Text) (e : DnsEntry) (m : GoMap Text DnsEntry) (f : Failure)
      → (split_entries lib m).1 ≡ err f
      → (f' : Failure) × ((split_entries lib ((k, e) ∷ m)).1 ≡ err f')
  unfolding split_entries
  later_again k e m f h = elim (Result-cases (split_entry lib e)) [
    | inl (e', r) ↦ (f, ground (arith, h, r))
    | inr (x, r) ↦ (x, ground (arith, h, r))
  ]

  -- If the entries have an address that is an IPv6 address with a port, and the loop over them
  -- succeeds, then the loop over what it has left of them fails.
  pub split_entries-again :
      (m : GoMap Text DnsEntry) (es : List DnsEntry)
      → HasIpv6 m
      → (split_entries lib m).1 ≡ ok es
      → (f : Failure) × ((split_entries lib (split_entries lib m).0).1 ≡ err f)
  unfolding split_entries
  split_entries-again [] es ip h = elim ip [ ]
  split_entries-again ((k, e) ∷ m) es ip h = elim (Result-cases (split_entry lib e)) [
    | inr (x, r) ↦ absurd (ground (arith, h, r))
    | inl (e', r) ↦ elim (Result-cases (split_entries lib m).1) [
      | inr (x, q) ↦ absurd (ground (arith, h, r, q))
      | inl (es', q) ↦
          let left : (split_entries lib ((k, e) ∷ m)).0 ≡ (k, e') ∷ (split_entries lib m).0 =
            ground (arith, r) in
          elim ip [
            | inl here ↦
                let (f, again) = split_again e e' here r in
                (f, rw left (first_again k e' (split_entries lib m).0 f again))
            | inr there ↦
                let (f, again) = split_entries-again m es' there q in
                let (f', result) = later_again k e' (split_entries lib m).0 f again in
                (f', rw left result)
          ]
    ]
  ]

-- ===== src/Core/Xray/Dns.antt =====
-- core/xray/dns.go: the DNS settings of a node, which are written to the file of xray.
pub mod Again
pub mod Saved
use v2b_z.Prelude.{
  ℕ, Bool, true, false, not, ◌&&◌, ◌||◌, List, [], ◌∷◌, Option, none, some, Result, ok, err,
  is_empty, if◌then◌else◌, nat_beq, ◌==◌,
}
use v2b_z.Prelude.Text.{Text, text_eq}
use v2b_z.Prelude.GoMap.{GoMap}
use v2b_z.Panel.Node.{RawDns, DnsEntry}
use v2b_z.Core.Types.{Failure, message}

-- `split_host_port` is net.SplitHostPort, `parse_uint16` strconv.ParseUint of 16 bits, `marshal` the
-- JSON of the settings with these servers after the two that are always there, `indent` json.Indent,
-- and `decodes` and `builds` are the errors of the two steps that test the settings.
pub record Library : Type 0 where
  pub split_host_port : Text → Result Text (Text × Text)
  pub parse_uint16 : Text → Option ℕ
  pub marshal : List DnsEntry → Result Text Text
  pub indent : Text → Result Text Text
  pub decodes : Text → Option Text
  pub builds : Text → Option Text

-- The file at XRAY_DNS_PATH.
pub record DnsFile (D : Type 0) : Type 0 where
  pub read_file : D → Result Text Text
  pub truncate : D → D × Option Text
  pub write_file : Text → D → D × Option Text

-- strings.Contains with one byte.
unfoldable pub contains_byte : ℕ → Text → Bool
contains_byte b [] = false
contains_byte b (c ∷ s) = nat_beq c b || contains_byte b s

unfoldable pub has_port : Text → Bool
has_port address = contains_byte b':' address && not (contains_byte b'/' address)

unfoldable pub number_or_zero : Option ℕ → ℕ
number_or_zero none = 0
number_or_zero (some n) = n

module _ (lib : Library) where
  -- The body of the loop; the address of the entry is changed in place.
  unfoldable pub split_entry : DnsEntry → Result Failure DnsEntry
  split_entry e =
      if has_port e.address
      then elim (lib.split_host_port e.address) [
        | err x ↦ err (message x)
        | ok hp ↦
            ok (record e { address = hp.0; port = some (number_or_zero (lib.parse_uint16 hp.1)) })
      ]
      else ok e

  -- The loop: what it leaves of the entries, and the servers. It ends at the first error.
  unfoldable pub split_entries :
      GoMap Text DnsEntry → GoMap Text DnsEntry × Result Failure (List DnsEntry)
  split_entries [] = ([], ok [])
  split_entries ((k, e) ∷ m) = elim (split_entry e) [
    | err x ↦ ((k, e) ∷ m, err x)
    | ok e' ↦
        let (m', r) = split_entries m in
        ((k, e') ∷ m', elim r [ err x ↦ err x | ok es ↦ ok (e' ∷ es) ])
  ]

  module _ {D : Type 0} (file : DnsFile D) where
    -- What is written when the settings differ and can be built. The errors of these two calls are
    -- stored in a variable of the block.
    unfoldable pub overwrite : Text → D → D
    overwrite dns d = (file.write_file dns (file.truncate d).0).0

    abbrev failed_if : Option Text → Option Failure
    failed_if none = none
    failed_if (some e) = some (message e)

    -- The error that is returned after a write is that of the decoder.
    unfoldable pub save_dns_config : Text → D → D × Option Failure
    unfolding overwrite
    save_dns_config dns d = elim (file.read_file d) [
      | err e ↦ (d, some (message e))
      | ok current ↦ if current == dns then (d, none) else elim (lib.builds dns) [
        | some e ↦ (d, some (message e))
        | none ↦ (overwrite dns d, failed_if (lib.decodes dns))
      ]
    ]

    -- The error of a save of the entries is stored in a variable of their block, and is lost.
    unfoldable pub update_dns_config : RawDns → D → RawDns × D × Option Failure
    update_dns_config dns d =
        if not (is_empty dns.dns_json)
        then elim (lib.indent dns.dns_json) [
          | err e ↦ (dns, d, some (message e))
          | ok json ↦ let (d', e) = save_dns_config json d in (dns, d', e)
        ]
        else if not (is_empty dns.dns_map)
        then (let (m, servers) = split_entries dns.dns_map in
            let dns' = record dns { dns_map = m } in
            elim servers [
              | err e ↦ (dns', d, some e)
              | ok es ↦ elim (lib.marshal es) [
                | err e ↦ (dns', d, some (message e))
                | ok json ↦ (dns', (save_dns_config json d).0, none)
              ]
            ])
        else (dns, d, none)

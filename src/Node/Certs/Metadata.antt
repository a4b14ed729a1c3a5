-- ===== src/Node/Certs/Metadata.antt =====
-- node/cert.go: what is remembered of a certificate, and the file that remembers it.
use v2b_z.Prelude.{
  ℕ, ◌+◌, ◌-◌, ◌/◌, ◌%◌, ◌^◌, Bool, true, false, not, ◌||◌, List, [], ◌∷◌, ◌++◌, Option, none, some,
  ◌==◌, ok, err, if◌then◌else◌, ltb,
}
use v2b_z.Prelude.Int.{ℤ, pos, negsuc, int_eq}
use v2b_z.Prelude.Text.{Text, text, text_eq}
use v2b_z.Prelude.Decimal.{itoa}
use v2b_z.Conf.{CertConfig}
use v2b_z.Node.Certs.{Certificate, CertMetadata, CertError, Library, Disk, Host}
use v2b_z.Node.Certs.Action.{Action, ◌>>◌, on_disk}
use v2b_z.Node.Certs.Files.{check_path, load_certificate}

-- Time.Unix: whole seconds, rounded down.
unfoldable pub unix : ℤ → ℤ
unix (pos n) = pos (n / 10 ^ 9)
unix (negsuc n) = negsuc (n / 10 ^ 9)

-- fmt.Sprintf("%02X", b), for a byte.
unfoldable pub hex_digit : ℕ → ℕ
hex_digit n = if ltb n 10 then b'0' + n else b'A' + n - 10

unfoldable pub hex_byte : ℕ → Text
unfolding hex_digit
hex_byte b = hex_digit (b / 16) ∷ hex_digit (b % 16) ∷ []

-- strings.Join of the bytes with colons.
unfoldable pub join_hex : List ℕ → Text
unfolding hex_byte
join_hex [] = []
join_hex (b ∷ []) = hex_byte b
join_hex (b ∷ c ∷ bs) = hex_byte b ++ (b':' ∷ join_hex (c ∷ bs))

-- A missing next value is never a change, a missing previous one always.
unfoldable pub cert_metadata_changed : Option CertMetadata → Option CertMetadata → Bool
cert_metadata_changed _ none = false
cert_metadata_changed none (some next) = true
cert_metadata_changed (some previous) (some next) =
    not (previous.target == next.target)
    || not (previous.mode == next.mode)
    || not (previous.source == next.source)
    || not (previous.sha256 == next.sha256)
    || not (previous.not_after == next.not_after)

unfoldable pub basic_cert_metadata : ℤ → CertConfig → Text → CertMetadata
unfolding unix
basic_cert_metadata now cert source = record {
  target = cert.cert_domain;
  mode = cert.cert_mode;
  source = source;
  sha256 = [];
  not_after = pos 0;
  updated_at = unix now;
}

-- The number of the node that the controller runs.
unfoldable pub cert_metadata_path : Library → ℤ → Text
cert_metadata_path lib node_id =
    lib.path_join (text "/etc/V2bZ") (text "node-" ++ (itoa node_id ++ text ".certmeta.json"))

module _ (lib : Library) where
  unfoldable pub cert_sha256 : Certificate → Text
  unfolding join_hex
  cert_sha256 x = join_hex (lib.sum256 x.raw)

  unfoldable pub metadata_from_certificate : ℤ → CertConfig → Certificate → Text → CertMetadata
  unfolding cert_sha256 unix
  metadata_from_certificate now cert x source = record {
    target = cert.cert_domain;
    mode = cert.cert_mode;
    source = source;
    sha256 = cert_sha256 x;
    not_after = unix x.not_after;
    updated_at = unix now;
  }

  module _ {D : Type 0} (disk : Disk D) where
    -- With an error the metadata are the basic ones.
    unfoldable pub metadata_from_cert_file :
        ℤ → CertConfig → Text → D → CertMetadata × Option CertError
    unfolding basic_cert_metadata metadata_from_certificate
    metadata_from_cert_file now cert source d = elim (load_certificate lib disk cert d) [
      | err e ↦ (basic_cert_metadata now cert source, some e)
      | ok x ↦ (metadata_from_certificate now cert x source, none)
    ]

    -- The path is that of the node, and the callers drop the error.
    unfoldable pub write_cert_metadata :
        {A : Type 0} → Text → CertMetadata → Action (Host D A) (Unit {0})
    unfolding check_path
    write_cert_metadata path meta = do
      check_path lib disk path
      on_disk (disk.write_file path (lib.marshal_metadata meta))

    unfoldable pub read_cert_metadata : Text → D → Option CertMetadata
    read_cert_metadata path d = elim (disk.read_file path d) [
      | err e ↦ none
      | ok bytes ↦ lib.unmarshal_metadata bytes
    ]

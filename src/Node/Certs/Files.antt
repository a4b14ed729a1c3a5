-- ===== src/Node/Certs/Files.antt =====
-- node/cert.go and node/lego.go: the certificate file, the target of a certificate, and checkPath.
use v2b_z.Prelude.{
  ℕ, ◌*◌, ◌^◌, Bool, true, false, not, ◌&&◌, ◌||◌, [], ◌∷◌, Option, none, some, Result, ok, err,
  if◌then◌else◌, is_empty, nat_beq,
}
use v2b_z.Prelude.Int.{ℤ, pos, ◌+ℤ◌, ltb_ℤ, leb_ℤ}
use v2b_z.Prelude.Text.{Text, text, text_eq, trim_prefix}
use v2b_z.Conf.{CertConfig}
use v2b_z.Node.Certs.{
  not_exist, other, CertError, missing_paths, bad_auto_target, no_cert_file, no_key_file,
  unreadable, unparsable, no_pem_block, Certificate, Library, Disk, Host,
}
use v2b_z.Node.Certs.Action.{Action, pure, on_disk, with_text}

-- 72 hours, and 30 times 24 hours.
abbrev pub ip_renew_before : ℤ
ip_renew_before = pos (72 * 3600 * 10 ^ 9)

abbrev pub domain_renew_before : ℤ
domain_renew_before = pos (720 * 3600 * 10 ^ 9)

-- time.Until(t) <= d, where the clock shows `now`.
unfoldable pub is_due : ℤ → ℤ → ℤ → Bool
unfolding ◌+ℤ◌
is_due now d t = leb_ℤ t (now +ℤ d)

unfoldable pub validate_cert_paths : CertConfig → Option CertError
validate_cert_paths cert =
    if is_empty cert.cert_file || is_empty cert.key_file then some missing_paths else none

-- errors.Is(err, fs.ErrNotExist)
unfoldable pub is_not_exist : CertError → Bool
is_not_exist (no_cert_file _ not_exist) = true
is_not_exist (no_key_file _ not_exist) = true
is_not_exist _ = false

-- strings.TrimSuffix with a suffix of one byte.
unfoldable pub trim_last : ℕ → Text → Text
trim_last b [] = []
trim_last b (c ∷ []) = if nat_beq c b then [] else c ∷ []
trim_last b (c ∷ d ∷ s) = c ∷ trim_last b (d ∷ s)

-- strings.ContainsAny
unfoldable pub contains_any : (ℕ → Bool) → Text → Bool
contains_any p [] = false
contains_any p (c ∷ s) = p c || contains_any p s

module _ (lib : Library) where
  unfoldable pub renew_before : Text → ℤ
  renew_before target = elim (lib.parse_ip target) [
    | some _ ↦ ip_renew_before
    | none ↦ domain_renew_before
  ]

  unfoldable pub is_public_ip : Text → Bool
  is_public_ip ip =
      lib.is_global_unicast ip
      && not (lib.is_private ip)
      && not (lib.is_loopback ip)
      && not (lib.is_unspecified ip)
      && not (lib.is_link_local_unicast ip)
      && not (lib.is_link_local_multicast ip)

  unfoldable pub validate_auto_cert_target : Text → Option CertError
  unfolding is_public_ip contains_any
  validate_auto_cert_target target =
      if is_empty target then some (bad_auto_target target) else elim (lib.parse_ip target) [
        | some ip ↦ if not (is_public_ip ip) then some (bad_auto_target target) else none
        | none ↦
            if lib.equal_fold target (text "localhost")
              || not (contains_any (λ c. nat_beq c b'.') target)
            then some (bad_auto_target target)
            else if contains_any (λ c. nat_beq c b'/' || nat_beq c b'\\') target
            then some (bad_auto_target target)
            else none
      ]

  -- The host of an address that is a URL, or of one with a port.
  unfoldable pub target_host : Text → Text
  target_host value = elim (lib.url_hostname value) [
    | some (c ∷ s) ↦ c ∷ s
    | _ ↦ elim (lib.split_host value) [ some host ↦ host | none ↦ value ]
  ]

  unfoldable pub normalize_cert_target : Text → Text
  unfolding target_host trim_last
  normalize_cert_target value =
      let trimmed = lib.trim_space value in
      if is_empty trimmed
      then []
      else lib.trim_space (trim_prefix (trim_last b']' (target_host trimmed)) (text "["))

  unfoldable pub is_self_signed_certificate : Certificate → Bool
  is_self_signed_certificate x = lib.check_signature_from x x

  module _ {D : Type 0} (disk : Disk D) where
    unfoldable pub is_exist : Text → D → Bool
    is_exist path d = elim (disk.stat path d) [
      | none ↦ true
      | some not_exist ↦ false
      | some (other _) ↦ true
    ]

    unfoldable pub ensure_cert_files_exist : CertConfig → D → Option CertError
    ensure_cert_files_exist cert d = elim (disk.stat cert.cert_file d) [
      | some e ↦ some (no_cert_file cert.cert_file e)
      | none ↦ elim (disk.stat cert.key_file d) [
        | some e ↦ some (no_key_file cert.key_file e)
        | none ↦ none
      ]
    ]

    unfoldable pub load_certificate : CertConfig → D → Result CertError Certificate
    load_certificate cert d = elim (disk.read_file cert.cert_file d) [
      | err e ↦ err (unreadable e)
      | ok bytes ↦ elim (lib.pem_block bytes) [
        | none ↦ err no_pem_block
        | some block ↦ elim (lib.parse_certificate block) [
          | err e ↦ err (unparsable e)
          | ok x ↦ ok x
        ]
      ]
    ]

    -- The tests on a certificate that was loaded.
    unfoldable pub is_usable : CertConfig → ℤ → Bool → ℤ → Certificate → Bool
    unfolding is_due is_self_signed_certificate
    is_usable cert min_validity allow_self_signed now x =
        not (ltb_ℤ now x.not_before || is_due now min_validity x.not_after)
        && (is_empty cert.cert_domain || lib.verify_hostname x cert.cert_domain)
        && (allow_self_signed || not (is_self_signed_certificate x))

    -- The certificate that is returned with the answer is used by no caller.
    unfoldable pub certificate_ready : CertConfig → ℤ → Bool → ℤ → D → Result CertError Bool
    unfolding is_usable
    certificate_ready cert min_validity allow_self_signed now d =
        elim (ensure_cert_files_exist cert d) [
          | some e ↦ if is_not_exist e then ok false else err e
          | none ↦ elim (load_certificate cert d) [
            | err e ↦ ok false
            | ok x ↦ ok (is_usable cert min_validity allow_self_signed now x)
          ]
        ]

    -- The directory of a file is made if it is not there.
    unfoldable pub check_path : {A : Type 0} → Text → Action (Host D A) (Unit {0})
    unfolding is_exist
    check_path path h =
        if is_exist (lib.path_dir path) h.disk
        then pure tt h
        else with_text (text "create dir error: ") (on_disk (disk.mkdir_all (lib.path_dir path))) h

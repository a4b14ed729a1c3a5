-- ===== src/Node/Certs.antt =====
-- node/cert.go and node/lego.go: the certificate of a node. What lies outside is a parameter: the
-- library functions that only compute (`Library`), the file system (`Disk`), and the clock, the
-- random keys and the ACME client (`Services`).
pub mod Action
pub mod Files
pub mod Lego
pub mod Metadata
pub mod SelfSigned
pub mod Request
pub mod Report
use v2b_z.Prelude.{Bool, Option, Result}
use v2b_z.Prelude.Int.{ℤ}
use v2b_z.Prelude.Text.{Text}

-- os.Stat fails because there is no such file, or for another reason.
pub data StatError : Type 0 where
  not_exist : StatError
  other : Text → StatError

-- The errors of this package; `wrapped` is fmt.Errorf with a text in front of an error, `external` an
-- error of a library.
pub data CertError : Type 0 where
  missing_paths : CertError
  empty_target : Text → CertError
  unsupported_mode : Text → CertError
  bad_auto_target : Text → CertError
  no_cert_file : Text → StatError → CertError
  no_key_file : Text → StatError → CertError
  unreadable : Text → CertError
  unparsable : Text → CertError
  no_pem_block : CertError
  issue_failed : CertError → CertError
  self_signed_failed : CertError → CertError
  wrapped : Text → CertError → CertError
  external : Text → CertError

-- What x509.ParseCertificate gives. Times are nanoseconds since 1970.
pub record Certificate : Type 0 where
  pub not_before : ℤ
  pub not_after : ℤ
  pub raw : Text

pub record CertMetadata : Type 0 where
  pub target : Text
  pub mode : Text
  pub source : Text
  pub sha256 : Text
  pub not_after : ℤ
  pub updated_at : ℤ

-- An ACME account. A private key and a registration stand by the bytes that represent them.
pub record User : Type 0 where
  pub email : Text
  pub registration : Option Text
  pub key : Option Text
  pub key_encoded : Text

pub record ObtainRequest : Type 0 where
  pub domain : Text
  pub profile : Text

-- The certificate and the key that ACME gives.
pub record Resource : Type 0 where
  pub certificate : Text
  pub private_key : Text

-- The certificate that is to be signed with its own key.
pub record Template : Type 0 where
  pub common_name : Text
  pub not_before : ℤ
  pub not_after : ℤ
  pub ip_addresses : Option Text
  pub dns_names : Option Text

-- `url_hostname` is Hostname() of the result of url.Parse, `split_host` the host of
-- net.SplitHostPort, `pem_block` the bytes of the first block, `add_years` is AddDate, `days_until`
-- the hours from the first time to the second divided by 24 and cut, in floating point, and
-- `parse_pem_certificate` that of certcrypto.
pub record Library : Type 0 where
  pub to_lower : Text → Text
  pub trim_space : Text → Text
  pub equal_fold : Text → Text → Bool
  pub parse_ip : Text → Option Text
  pub is_global_unicast : Text → Bool
  pub is_private : Text → Bool
  pub is_loopback : Text → Bool
  pub is_unspecified : Text → Bool
  pub is_link_local_unicast : Text → Bool
  pub is_link_local_multicast : Text → Bool
  pub url_hostname : Text → Option Text
  pub split_host : Text → Option Text
  pub path_dir : Text → Text
  pub path_join : Text → Text → Text
  pub pem_block : Text → Option Text
  pub pem_encode : Text → Text → Text
  pub parse_certificate : Text → Result Text Certificate
  pub verify_hostname : Certificate → Text → Bool
  pub check_signature_from : Certificate → Certificate → Bool
  pub sum256 : Text → Text
  pub add_years : ℤ → ℤ → ℤ
  pub days_until : ℤ → ℤ → ℤ
  pub parse_pem_certificate : Text → Result Text Certificate
  pub marshal_metadata : CertMetadata → Text
  pub unmarshal_metadata : Text → Option CertMetadata
  pub marshal_user : Text → Option Text → Text → Result Text Text
  pub unmarshal_user : Text → Result Text (Text × Option Text × Text)
  pub marshal_ec_key : Text → Option Text
  pub parse_ec_key : Text → Result Text Text
  pub marshal_rsa_key : Text → Text

-- The file system, by what the code calls of package os; an error leaves a state behind, too.
-- `create_file` is OpenFile that creates and truncates, `write_open` a write to the file opened by it.
pub record Disk (D : Type 0) : Type 0 where
  pub stat : Text → D → Option StatError
  pub read_file : Text → D → Result Text Text
  pub write_file : Text → Text → D → D × Option Text
  pub create_file : Text → D → D × Option Text
  pub write_open : Text → Text → D → D × Option Text
  pub mkdir_all : Text → D → D × Option Text

-- The state has the challenge provider that was set last, and the variables of the environment.
pub record Services (A : Type 0) : Type 0 where
  pub now : A → ℤ
  pub generate_ec_key : A → A × Result Text Text
  pub generate_rsa_key : A → A × Result Text Text
  pub create_certificate : Template → Text → A → A × Result Text Text
  pub new_client : User → A → A × Option Text
  pub register : User → A → A × Result Text Text
  pub set_http01_provider : A → A × Option Text
  pub set_env : Text → Text → A → A
  pub dns_provider : Text → A → A × Result Text Text
  pub set_dns01_provider : Text → A → A × Option Text
  pub obtain : User → ObtainRequest → A → A × Result Text Resource
  pub renew : User → Text → Text → A → A × Result Text Resource

pub record Host (D A : Type 0) : Type 0 where
  pub disk : D
  pub services : A

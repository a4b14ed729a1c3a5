-- ===== src/Node/Certs/Lego/Obtain.antt =====
-- node/lego.go: NewLego, SetProvider, CreateCert, parseParams and writeCert; node/cert.go:
-- issueLegoCert.
use v2b_z.Prelude.{
  ℕ, zero, suc, true, false, ◌||◌, [], ◌∷◌, ◌++◌, Option, none, some, ◌==◌, ok, err, if◌then◌else◌,
}
use v2b_z.Prelude.Text.{Text, text, text_eq, has_prefix}
use v2b_z.Prelude.GoMap.{GoMap}
use v2b_z.Conf.{CertConfig}
use v2b_z.Node.Options.{clone_dns_env}
use v2b_z.Node.Certs.{Certificate, User, Resource, Library, Disk, Services, Host}
use v2b_z.Node.Certs.Action.{
  Action, failed, pure, stop, ◌>>=◌, ◌>>◌, with_text, on_disk, on_services, from_services,
}
use v2b_z.Node.Certs.Files.{check_path, load_certificate}
use v2b_z.Node.Certs.Lego.Account.{new_lego_user}

pub record Lego : Type 0 where
  pub client : User
  pub config : CertConfig

-- The rest of a path behind `skip` bytes of a parameter that was replaced.
unfoldable pub replace_params : Text → Text → Text → ℕ → Text
replace_params domain email [] skip = []
replace_params domain email (c ∷ s) skip =
    let rest = replace_params domain email s in
    elim skip [
      | suc k ↦ rest k
      | zero ↦ elim (has_prefix (c ∷ s) (text "{domain}")) [
        | true ↦ domain ++ rest 7
        | false ↦ elim (has_prefix (c ∷ s) (text "{email}")) [
          | true ↦ email ++ rest 6
          | false ↦ c ∷ rest 0
        ]
      ]
    ]

unfoldable pub parse_params : CertConfig → Text → Text
unfolding replace_params
parse_params config path = replace_params config.cert_domain config.email path 0

-- The loop over the variables of the DNS provider.
unfoldable pub set_envs : {A : Type 0} → Services A → GoMap Text Text → A → A
set_envs services [] a = a
set_envs services ((k, v) ∷ env) a = set_envs services env (services.set_env k v a)

abbrev pub env_or_empty : Option (GoMap Text Text) → GoMap Text Text
env_or_empty none = []
env_or_empty (some env) = env

module _ (lib : Library) where
  module _ {D A : Type 0} (disk : Disk D) (services : Services A) where
    -- The case "dns" of SetProvider.
    unfoldable pub set_dns_provider : CertConfig → Action (Host D A) (Unit {0})
    unfolding set_envs
    set_dns_provider config = do
      on_services (λ a. (set_envs services (env_or_empty config.dns_env) a, none))
      p ←
          with_text (text "create dns challenge provider error: ")
            (from_services (services.dns_provider config.provider))
      with_text (text "set dns provider error: ") (on_services (services.set_dns01_provider p))

    unfoldable pub set_provider : CertConfig → Action (Host D A) (Unit {0})
    unfolding set_dns_provider
    set_provider config =
        if config.cert_mode == text "auto" || config.cert_mode == text "http"
        then on_services services.set_http01_provider
        else if config.cert_mode == text "dns"
        then set_dns_provider config
        else pure tt

    -- The file of an account stands beside the certificate.
    unfoldable pub user_path : CertConfig → Text
    user_path config =
        lib.path_join (lib.path_join (lib.path_dir config.cert_file) (text "user"))
          (text "user-" ++ (config.email ++ text ".json"))

    -- NewLego up to the struct that it returns.
    unfoldable pub new_client_of : CertConfig → Action (Host D A) User
    unfolding new_lego_user set_provider user_path
    new_client_of config = do
      user ←
          with_text (text "create user error: ")
            (new_lego_user lib disk services (user_path config) config.email)
      on_services (services.new_client user)
      with_text (text "set provider error: ") (set_provider config)
      pure user

    unfoldable pub new_lego : CertConfig → Action (Host D A) Lego
    unfolding new_client_of
    new_lego config = do
      user ← new_client_of config
      pure (record { client = user; config = config })

    -- The directory that is made is that of the path before its parameters are replaced.
    unfoldable pub write_cert : CertConfig → Resource → Action (Host D A) (Unit {0})
    unfolding check_path parse_params
    write_cert config r = do
      with_text (text "check path error: ") (check_path lib disk config.cert_file)
      on_disk (disk.write_file (parse_params config config.cert_file) r.certificate)
      with_text (text "check path error: ") (check_path lib disk config.key_file)
      on_disk (disk.write_file (parse_params config config.key_file) r.private_key)

    unfoldable pub create_cert : Lego → Action (Host D A) (Unit {0})
    unfolding write_cert
    create_cert l = do
      let profile : Text = elim (lib.parse_ip l.config.cert_domain) [
        | some _ ↦ text "shortlived"
        | none ↦ []
      ]
      r ← with_text (text "obtain certificate error: ") (
          from_services (
            services.obtain l.client (record { domain = l.config.cert_domain; profile = profile })))
      with_text (text "write certificate error: ") (write_cert l.config r)

    -- The end of issueLegoCert: what was written is read back.
    unfoldable pub load_issued : CertConfig → Action (Host D A) Certificate
    load_issued cert h = elim (load_certificate lib disk cert h.disk) [
      | err e ↦ stop (failed e) h
      | ok x ↦ pure x h
    ]

    unfoldable pub issue_lego_cert : CertConfig → Text → Action (Host D A) Certificate
    unfolding new_lego create_cert clone_dns_env load_issued
    issue_lego_cert cert challenge_mode = do
      l ← with_text (text "create lego object error: ") (
          new_lego
            (record cert { cert_mode = challenge_mode; dns_env = clone_dns_env cert.dns_env }))
      create_cert l
      load_issued cert

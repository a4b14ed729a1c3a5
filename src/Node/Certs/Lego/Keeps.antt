-- ===== src/Node/Certs/Lego/Keeps.antt =====
-- node/lego.go: no call makes a file at a path that it does not write to.
use v2b_z.Prelude.{
  ◌≡◌, [], Option, none, some, Result, ok, err, by_option, by_if, Bool-cases, inl, inr, ◌==◌, ◌||◌,
}
use v2b_z.Prelude.Text.{Text, text, text_eq}
use v2b_z.Conf.{CertConfig}
use v2b_z.Node.Certs.{not_exist, User, Resource, Library, Disk, Services, Host}
use v2b_z.Node.Certs.Action.{
  Action, Stop, panicked, pure, given, stop, ◌>>=◌, with_text, on_disk, on_services, from_services,
  value_of,
}
use v2b_z.Node.Certs.Files.{check_path, is_exist}
use v2b_z.Node.Certs.Lego.Account.{
  save, load, register_keyed, register_user, with_email, new_lego_user, decode_private,
  encode_private, new_user,
}
use v2b_z.Node.Certs.Lego.Obtain.{
  Lego, parse_params, user_path, set_provider, new_client_of, set_dns_provider, env_or_empty,
  new_lego, write_cert, create_cert, set_envs,
}

-- A call that keeps a property of the disk, whatever it returns.
unfoldable pub Keeps : {D A X : Type 0} → (D → Type 0) → Action (Host D A) X → Type 0
Keeps {D = D} {A = A} P m = (h : Host D A) → P h.disk → P (m h).0.disk

module _ {D A : Type 0} (P : D → Type 0) where
  pub bind-Keeps :
      {X Y : Type 0} (m : Action (Host D A) X) (f : X → Action (Host D A) Y)
      → Keeps P m
      → ((x : X) → Keeps P (f x))
      → Keeps P (m >>= f)
  unfolding Keeps
  bind-Keeps {X = X} {Y = Y} m f one all h p = go (m h) (one h p)
    where
      go :
          (r : Host D A × Result Stop X) → P r.0.disk → P (((λ (_ : Host D A). r) >>= f) r.0).0.disk
      go (h', ok x) q = all x h' q
      go (h', err e) q = q

  pub text-Keeps :
      {X : Type 0} (t : Text) (m : Action (Host D A) X) → Keeps P m → Keeps P (with_text t m)
  unfolding Keeps
  text-Keeps t m k = k

-- os.Stat finds no file at the path. Below, `IsWithin` holds for the names of that path and of those
-- below it, and an operation on another path makes no file there.
abbrev pub Missing : {D : Type 0} → Disk D → Text → D → Type 0
Missing disk p d = disk.stat p d ≡ some not_exist

module _ (lib : Library) {D A : Type 0} (disk : Disk D) (services : Services A) (p : Text)
    (IsWithin : Text → Type 0)
    (write : (q b : Text) (d : D)
      → ¬ (IsWithin q)
      → Missing disk p d
      → Missing disk p (disk.write_file q b d).0)
    (create : (q : Text) (d : D)
      → ¬ (IsWithin q)
      → Missing disk p d
      → Missing disk p (disk.create_file q d).0)
    (write_open : (q b : Text) (d : D)
      → ¬ (IsWithin q)
      → Missing disk p d
      → Missing disk p (disk.write_open q b d).0)
    (mkdir : (q : Text) (d : D)
      → ¬ (IsWithin q)
      → Missing disk p d
      → Missing disk p (disk.mkdir_all q d).0) where
  abbrev IsMissing : D → Type 0
  IsMissing = Missing disk p

  abbrev IsGone : {X : Type 0} → Host D A × Result Stop X → Type 0
  IsGone r = IsMissing r.0.disk

  abbrev K : {X : Type 0} → Action (Host D A) X → Type 0
  K = Keeps IsMissing

  check_path-Keeps : (q : Text) → ¬ (IsWithin (lib.path_dir q)) → K (check_path lib disk q)
  unfolding check_path Keeps
  check_path-Keeps q a h m =
      by_if IsGone m (mkdir (lib.path_dir q) h.disk a m) (is_exist lib disk (lib.path_dir q) h.disk)

  key-Keeps :
      (u : User) → K {X = Text} (λ h. elim u.key [ none ↦ stop panicked h | some k ↦ pure k h ])
  unfolding Keeps
  key-Keeps u h m = by_option IsGone (λ _. m) m u.key

  create-Keeps : (q : Text) → ¬ (IsWithin q) → K (on_disk (disk.create_file q))
  unfolding Keeps
  create-Keeps q n h m = create q h.disk n m

  write_open-Keeps : (q b : Text) → ¬ (IsWithin q) → K (on_disk (disk.write_open q b))
  unfolding Keeps
  write_open-Keeps q b n h m = write_open q b h.disk n m

  write-Keeps : (q b : Text) → ¬ (IsWithin q) → K (on_disk (disk.write_file q b))
  unfolding Keeps
  write-Keeps q b n h m = write q b h.disk n m

  pure-Keeps : {X : Type 0} (x : X) → K (pure x)
  unfolding Keeps
  pure-Keeps x h m = m

  given-Keeps : {X : Type 0} (f : Host D A → Result Stop X) → K (given f)
  unfolding Keeps
  given-Keeps f h m = m

  services-Keeps : (f : A → A × Option Text) → K (on_services f)
  unfolding Keeps
  services-Keeps f h m = m

  from_services-Keeps : {X : Type 0} (f : A → A × Result Text X) → K (from_services f)
  unfolding Keeps
  from_services-Keeps f h m = m

  save-Keeps :
      (q : Text) (u : User)
      → ¬ (IsWithin q)
      → ¬ (IsWithin (lib.path_dir q))
      → K (save lib disk services q u)
  unfolding save
  save-Keeps q u n a =
      bind-Keeps IsMissing _ _ (text-Keeps IsMissing _ _ (check_path-Keeps q a)) (λ _.
        bind-Keeps IsMissing _ _ (key-Keeps u) (λ k.
          bind-Keeps IsMissing _ _ (create-Keeps q n) (λ _.
            bind-Keeps IsMissing _ _
              (text-Keeps IsMissing (text "marshal json error: ") _ (
                given-Keeps
                  (λ _. value_of (lib.marshal_user u.email u.registration (encode_private lib k)))))
              (λ j.
                bind-Keeps IsMissing _ _
                  (text-Keeps IsMissing (text "marshal json error: ") _ (write_open-Keeps q j n))
                  (λ _. pure-Keeps (record u { key_encoded = [] }))))))

  register_keyed-Keeps :
      (q : Text) (u : User)
      → ¬ (IsWithin q)
      → ¬ (IsWithin (lib.path_dir q))
      → K (register_keyed lib disk services q u)
  unfolding register_keyed
  register_keyed-Keeps q u n a =
      bind-Keeps IsMissing _ _ (text-Keeps IsMissing _ _ (services-Keeps (services.new_client u)))
        (λ _.
          bind-Keeps IsMissing _ _ (from_services-Keeps (services.register u))
            (λ r. text-Keeps IsMissing _ _ (save-Keeps q (record u { registration = some r }) n a)))

  register-Keeps :
      (q : Text) (u : User)
      → ¬ (IsWithin q)
      → ¬ (IsWithin (lib.path_dir q))
      → K (register_user lib disk services q u)
  unfolding register_user
  register-Keeps q u n a =
      bind-Keeps IsMissing _ _
        (text-Keeps IsMissing _ _ (from_services-Keeps services.generate_ec_key))
        (λ k. register_keyed-Keeps q (record u { key = some k }) n a)

  with_email-Keeps :
      (q email : Text) (u : User)
      → ¬ (IsWithin q)
      → ¬ (IsWithin (lib.path_dir q))
      → K (with_email lib disk services q email u)
  unfolding with_email
  with_email-Keeps q email u n a =
      by_if K (pure-Keeps u)
        (register-Keeps q (record u { registration = none; email = email }) n a) (u.email == email)

  load-Keeps : (q : Text) → K (load lib disk services q)
  unfolding load
  load-Keeps q =
      bind-Keeps IsMissing _ _
        (text-Keeps IsMissing _ _ (given-Keeps (λ h. value_of (disk.read_file q h.disk))))
        (λ j.
          bind-Keeps IsMissing _ _
            (text-Keeps IsMissing _ _ (given-Keeps (λ _. value_of (lib.unmarshal_user j))))
            (λ f.
              bind-Keeps IsMissing _ _
                (text-Keeps IsMissing _ _ (given-Keeps (λ _. decode_private lib f.2)))
                (λ _. pure-Keeps _)))

  new_lego_user-Keeps :
      (q email : Text)
      → ¬ (IsWithin q)
      → ¬ (IsWithin (lib.path_dir q))
      → K (new_lego_user lib disk services q email)
  unfolding new_lego_user Keeps
  new_lego_user-Keeps q email n a h m = elim (Bool-cases (is_exist lib disk q h.disk)) [
    | inl e ↦
        rw (new_lego_user, e)
          (bind-Keeps IsMissing (load lib disk services q) (with_email lib disk services q email)
            (load-Keeps q) (λ u. with_email-Keeps q email u n a) h m)
    | inr e ↦ rw (new_lego_user, e) (register-Keeps q (record new_user { email = email }) n a h m)
  ]

  set_dns_provider-Keeps : (c : CertConfig) → K (set_dns_provider lib disk services c)
  unfolding set_dns_provider
  set_dns_provider-Keeps c =
      bind-Keeps IsMissing _ _
        (services-Keeps (λ a. (set_envs services (env_or_empty c.dns_env) a, none)))
        (λ _.
          bind-Keeps IsMissing _ _
            (text-Keeps IsMissing (text "create dns challenge provider error: ") _
              (from_services-Keeps (services.dns_provider c.provider)))
            (λ q.
              text-Keeps IsMissing (text "set dns provider error: ") _
                (services-Keeps (services.set_dns01_provider q))))

  set_provider-Keeps : (c : CertConfig) → K (set_provider lib disk services c)
  unfolding set_provider
  set_provider-Keeps c =
      by_if K (services-Keeps services.set_http01_provider)
        (by_if K (set_dns_provider-Keeps c) (pure-Keeps tt) (c.cert_mode == text "dns"))
        (c.cert_mode == text "auto" || c.cert_mode == text "http")

  new_client-Keeps :
      (c : CertConfig)
      → ¬ (IsWithin (user_path lib disk services c))
      → ¬ (IsWithin (lib.path_dir (user_path lib disk services c)))
      → K (new_client_of lib disk services c)
  unfolding new_client_of
  new_client-Keeps c n a =
      bind-Keeps IsMissing _ _
        (text-Keeps IsMissing _ _ (new_lego_user-Keeps (user_path lib disk services c) c.email n a))
        (λ u. bind-Keeps IsMissing _ _ (services-Keeps (services.new_client u)) (λ _.
          bind-Keeps IsMissing _ _ (text-Keeps IsMissing _ _ (set_provider-Keeps c))
            (λ _. pure-Keeps u)))

  pub new_lego-Keeps :
      (c : CertConfig)
      → ¬ (IsWithin (user_path lib disk services c))
      → ¬ (IsWithin (lib.path_dir (user_path lib disk services c)))
      → K (new_lego lib disk services c)
  unfolding new_lego
  new_lego-Keeps c n a =
      bind-Keeps IsMissing _ _ (new_client-Keeps c n a)
        (λ u. pure-Keeps (record { client = u; config = c }))

  write_cert-Keeps :
      (c : CertConfig) (r : Resource)
      → ¬ (IsWithin (parse_params c c.cert_file))
      → ¬ (IsWithin (parse_params c c.key_file))
      → ¬ (IsWithin (lib.path_dir c.cert_file))
      → ¬ (IsWithin (lib.path_dir c.key_file))
      → K (write_cert lib disk services c r)
  unfolding write_cert
  write_cert-Keeps c r n n' a a' =
      bind-Keeps IsMissing _ _ (text-Keeps IsMissing _ _ (check_path-Keeps c.cert_file a)) (λ _.
        bind-Keeps IsMissing _ _ (write-Keeps _ _ n) (λ _.
          bind-Keeps IsMissing _ _ (text-Keeps IsMissing _ _ (check_path-Keeps c.key_file a'))
            (λ _. write-Keeps _ _ n')))

  pub create_cert-Keeps :
      (l : Lego)
      → ¬ (IsWithin (parse_params l.config l.config.cert_file))
      → ¬ (IsWithin (parse_params l.config l.config.key_file))
      → ¬ (IsWithin (lib.path_dir l.config.cert_file))
      → ¬ (IsWithin (lib.path_dir l.config.key_file))
      → K (create_cert lib disk services l)
  unfolding create_cert
  create_cert-Keeps l n n' a a' =
      bind-Keeps IsMissing _ _ (text-Keeps IsMissing _ _ (from_services-Keeps _))
        (λ r. text-Keeps IsMissing _ _ (write_cert-Keeps l.config r n n' a a'))

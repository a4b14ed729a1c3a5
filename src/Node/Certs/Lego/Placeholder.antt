-- ===== src/Node/Certs/Lego/Placeholder.antt =====
-- node/lego.go and node/cert.go: a certificate file whose path has a parameter.
use mathlib.Core.Path.{subst, sym}
use v2b_z.Prelude.{◌≡◌, refl, Result, ok, err, arith}
use v2b_z.Prelude.Text.{Text, text, text_eq}
use v2b_z.Conf.{CertConfig}
use v2b_z.Node.Options.{clone_dns_env}
use v2b_z.Node.Certs.{unreadable, Library, Disk, Services, Host}
use v2b_z.Node.Certs.Action.{Action, Stop, failed, ◌>>=◌, with_text}
use v2b_z.Node.Certs.Files.{load_certificate}
use v2b_z.Node.Certs.Lego.Obtain.{
  Lego, parse_params, user_path, new_lego, create_cert, load_issued, issue_lego_cert,
}
use v2b_z.Node.Certs.Lego.Keeps.{Keeps, Missing, text-Keeps, new_lego-Keeps, create_cert-Keeps}

module _ (lib : Library) {D A : Type 0} (disk : Disk D) (services : Services A) (p : Text)
    (IsWithin : Text → Type 0)
    (write : (q b : Text) (d : D)
      → ¬ (IsWithin q)
      → Missing disk p d
      → Missing disk p (disk.write_file q b d).0)
    (create : (q : Text) (d : D)
      → ¬ (IsWithin q)
      → Missing disk p d
      → Missing disk p (disk.create_file q d).0)
    (write_open : (q b : Text) (d : D)
      → ¬ (IsWithin q)
      → Missing disk p d
      → Missing disk p (disk.write_open q b d).0)
    (mkdir : (q : Text) (d : D)
      → ¬ (IsWithin q)
      → Missing disk p d
      → Missing disk p (disk.mkdir_all q d).0) where
  abbrev IsMissing : D → Type 0
  IsMissing = Missing disk p

  abbrev IsGone : {X : Type 0} → Host D A × Result Stop X → Type 0
  IsGone r = IsMissing r.0.disk

  abbrev K : {X : Type 0} → Action (Host D A) X → Type 0
  K = Keeps IsMissing

  -- A call gives no value where the file is missing.
  abbrev Fails : {X : Type 0} → Host D A × Result Stop X → Type 0
  Fails r = (s : Stop) × (r.1 ≡ err s)

  bind-Fails :
      {X Y : Type 0} (m : Action (Host D A) X) (f : X → Action (Host D A) Y) (h : Host D A)
      → K m
      → ((x : X) (h' : Host D A) → (m h).1 ≡ ok x → IsMissing h'.disk → Fails (f x h'))
      → IsMissing h.disk
      → Fails ((m >>= f) h)
  unfolding Keeps
  bind-Fails {X = X} {Y = Y} m f h k all q = go (m h).1 refl
    where
      go : (r : Result Stop X) → (m h).1 ≡ r → Fails (((λ (_ : Host D A). ((m h).0, r)) >>= f) h)
      go (ok x) e = all x (m h).0 e (k h q)
      go (err s) e = (s, refl)

  load_issued-Fails :
      (c : CertConfig) (h : Host D A)
      → ((d : D) → IsMissing d → (e : Text) × (disk.read_file p d ≡ err e))
      → c.cert_file ≡ p
      → IsMissing h.disk
      → Fails (load_issued lib disk services c h)
  unfolding load_issued load_certificate
  load_issued-Fails c h unread e m =
      let (t, r) = unread h.disk m in (failed (unreadable t), ground (arith, r, e))

  new_lego-config :
      (c : CertConfig) (t : Text) (l : Lego) (h : Host D A)
      → (with_text t (new_lego lib disk services c) h).1 ≡ ok l
      → l.config ≡ c
  unfolding new_lego
  new_lego-config c t l h e = ground (arith, e)

  -- If parameters in the paths of the certificate make ACME write the two files elsewhere, and the
  -- account too is stored elsewhere, then issueLegoCert never succeeds where there is no file at the
  -- path itself, whatever ACME answers. The conditions on the disk are that a file, or a directory with
  -- its parents, that is made elsewhere leaves this path missing, and that a missing file cannot be
  -- read; the directories of the three files are elsewhere, too.
  pub issue_lego_cert-Fails :
      (c : CertConfig) (mode : Text) (h : Host D A)
      → ((d : D) → IsMissing d → (e : Text) × (disk.read_file p d ≡ err e))
      → c.cert_file ≡ p
      → ¬ (IsWithin (parse_params c c.cert_file))
      → ¬ (IsWithin (parse_params c c.key_file))
      → ¬ (IsWithin (user_path lib disk services c))
      → ¬ (IsWithin (lib.path_dir c.cert_file))
      → ¬ (IsWithin (lib.path_dir c.key_file))
      → ¬ (IsWithin (lib.path_dir (user_path lib disk services c)))
      → IsMissing h.disk
      → Fails (issue_lego_cert lib disk services c mode h)
  unfolding issue_lego_cert parse_params
  issue_lego_cert-Fails c mode h unread at n n' nu a a' au m =
      bind-Fails (with_text (text "create lego object error: ") (new_lego lib disk services c'))
        (λ l. create_cert lib disk services l >>= λ _. load_issued lib disk services c) h
        (text-Keeps IsMissing _ _
          (new_lego-Keeps lib disk services p IsWithin write create write_open mkdir c' nu au))
        (λ l h' e m'.
          let same = new_lego-config c' _ l h e in
          bind-Fails (create_cert lib disk services l) (λ _. load_issued lib disk services c) h'
            (create_cert-Keeps lib disk services p IsWithin write create write_open mkdir l
              (subst (λ q. ¬ (IsWithin (parse_params q q.cert_file))) (sym same) n)
              (subst (λ q. ¬ (IsWithin (parse_params q q.key_file))) (sym same) n')
              (subst (λ q. ¬ (IsWithin (lib.path_dir q.cert_file))) (sym same) a)
              (subst (λ q. ¬ (IsWithin (lib.path_dir q.key_file))) (sym same) a'))
            (λ _ h'' _ m''. load_issued-Fails c h'' unread at m'') m')
        m
    where
      c' : CertConfig
      c' = record c { cert_mode = mode; dns_env = clone_dns_env c.dns_env }

-- ===== src/Tests/Certificates.antt =====
-- The certificates of a node on small inputs.
use mathlib.Core.Path.{subst}
use v2b_z.Prelude.{
  ℕ, ◌≡◌, ◌≢◌, refl, ap, Option-cases, inl, inr, false, List, [], ◌∷◌, none, some, ok, err, arith,
  ==_iff,
}
use v2b_z.Prelude.Int.{pos}
use v2b_z.Prelude.Text.{Text, text, text_eq, text_beq, text_beq_iff, trim_prefix, has_prefix}
use v2b_z.Prelude.GoMap.{lookup, insert, lookup-insert, lookup-insert_self}
use v2b_z.Conf.{CertConfig, new_cert_config}
use v2b_z.Core.Types.{Core, Failure, message}
use v2b_z.Panel.Node.{NodeInfo}
use v2b_z.Conf.Options.{Options}
use v2b_z.Task.{new_task}
use v2b_z.Limiter.Registry.{init}
use v2b_z.Node.Controller.{World}
use v2b_z.Node.Certs.{not_exist, User, Host, Disk}
use v2b_z.Node.Certs.Action.{Stop}
use v2b_z.Node.Certs.Files.{
  certificate_ready, renew_before, ensure_cert_files_exist, load_certificate, normalize_cert_target,
}
use v2b_z.Node.Certs.Lego.Account.{save, load, encode_private}
use v2b_z.Node.Certs.Lego.RoundTrip.{load-save}
use v2b_z.Node.Certs.Lego.Obtain.{issue_lego_cert, parse_params, replace_params, user_path}
use v2b_z.Node.Certs.Lego.Placeholder.{issue_lego_cert-Fails}
use v2b_z.Node.Certs.Request.{request_cert, normalized}
use v2b_z.Node.Certs.Request.Loaded.{IsEnd}
use v2b_z.Node.Certs.Request.Ends.{request_cert-IsEnd}
use v2b_z.Node.Certs.Request.Kept.{request_cert-kept}
use v2b_z.Node.Certs.Report.{reload_node_after_cert_change}
use v2b_z.Node.Certs.Report.Lost.{reload_node_after_cert_change-lost}
use v2b_z.Tests.Fixtures.{node, options, alice, toy, drop_node_lem}
use v2b_z.Tests.Hosts.{Files, read_of, library, files, acme, decode, decode-encode}

abbrev config : CertConfig
config = record new_cert_config {
  cert_mode = text "http";
  cert_domain = text "example.org";
  cert_file = text "c";
  key_file = text "k";
  email = text "me";
}

abbrev empty : Host Files ℕ
empty = record { disk = []; services = 0 }

abbrev full : Host Files ℕ
full = record { disk = (text "c", text "cert") ∷ (text "k", text "key") ∷ []; services = 0 }

apart : (s t : Text) → text_beq s t ≡ false → s ≢ t
apart s t f e = ground (arith, f, e, text_beq_iff s t)

other_file :
    (b : Text) (d : Files)
    → files.read_file (text "c") (files.write_file (text "m") b d).0 ≡ files.read_file (text "c") d
unfolding text_beq
other_file b d = ap read_of (lookup-insert (text "m") (text "c") b d)

request_cert-IsEnd_example :
    IsEnd library files acme
      (text "m")
      (normalized library config)
      empty
      (request_cert library files acme (text "m") (some config) empty)
request_cert-IsEnd_example =
    request_cert-IsEnd library files acme (text "m") config empty other_file (λ p d. refl)

request_cert-kept_example :
    (request_cert library files acme (text "m") (some config) full).0.services ≡ 0
unfolding certificate_ready ensure_cert_files_exist lookup text_beq normalized load_certificate
    renew_before normalize_cert_target trim_prefix
request_cert-kept_example =
    request_cert-kept library files acme (text "m") config full refl (apart _ _ refl)

abbrev account : User
account = record {
  email = text "me";
  registration = some (text "r");
  key = some (text "k");
  key_encoded = [];
}

load-save_example :
    (load library files acme (text "u") (save library files acme (text "u") account empty).0).1
    ≡ ok (record account { key_encoded = encode_private library (text "k") })
unfolding save lookup
load-save_example =
    load-save library files acme (text "u") account account (text "k") (text "k") empty
      (λ e r x j h. subst (λ y. decode y ≡ ok (e, r, x)) (cc) (decode-encode e r x)) (λ t b. refl)
      (λ k b h. cc) (λ b d h. ap read_of (lookup-insert_self (text "u") b (insert (text "u") [] d)))
      refl refl refl

abbrev templated : CertConfig
templated = record config { cert_file = text "{domain}"; key_file = text "{email}" }

still_missing :
    (q b : Text) (d : Files)
    → q ≢ text "{domain}"
    → files.stat (text "{domain}") d ≡ some not_exist
    → files.stat (text "{domain}") (insert q b d) ≡ some not_exist
still_missing q b d n m =
    ground (arith, n, m, lookup-insert q (text "{domain}") b d, ==_iff q (text "{domain}"))

unread :
    (d : Files)
    → files.stat (text "{domain}") d ≡ some not_exist
    → (e : Text) × (files.read_file (text "{domain}") d ≡ err e)
unread d m = elim (Option-cases (lookup (text "{domain}") d)) [
  | inl e ↦ (text "no file", ap read_of e)
  | inr (b, e) ↦ absurd (ground (arith, m, e))
]

-- A disk whose directories are entries, too.
abbrev tree : Disk Files
tree = record files { mkdir_all = λ q d. (insert q (text "directory") d, none) }

issue_lego_cert-Fails_example :
    (s : Stop) × ((issue_lego_cert library tree acme templated (text "http") empty).1 ≡ err s)
unfolding parse_params replace_params has_prefix user_path lookup text_beq
issue_lego_cert-Fails_example =
    issue_lego_cert-Fails library tree acme (text "{domain}") (λ q. q ≡ text "{domain}")
      still_missing (λ q d. still_missing q [] d) still_missing
      (λ q d. still_missing q (text "directory") d) templated (text "http") empty unread refl
      (apart _ _ refl) (apart _ _ refl) (apart _ _ refl) (apart _ _ refl) (apart _ _ refl)
      (apart _ _ refl) refl

-- A core that has no room for a node.
abbrev full_core : Core (List Text)
full_core = record toy { add_node = λ tag n o s. (s, o, err (message (text "full"))) }

abbrev running : World (List Text)
running = record {
  controller = record {
    api_host = text "h";
    options = options;
    tag = text "n";
    limiter = 0;
    traffic = [];
    user_list = alice ∷ [];
    info = node;
    active_options = options;
    node_info_monitor = record { interval = pos 1; task = new_task };
    user_report = record { interval = pos 1; task = new_task };
  };
  server = text "n" ∷ [];
  limiters = init;
}

full_gone :
    (t : Text) (n : NodeInfo) (o : Options) (s : List Text) (e : Failure)
    → (full_core.del_node t s).1 ≡ ok tt
    → let (s', _, added) = full_core.add_node t n o (full_core.del_node t s).0 in
      added ≡ err e → (f : Failure) × (full_core.del_node t s' ≡ (s', err f))
full_gone t n o s e deleted failed =
    (message (text "no node"), ground (arith, deleted, drop_node_lem t s))

reload_node_after_cert_change-lost_example :
    let w = reload_node_after_cert_change full_core running in
    reload_node_after_cert_change full_core w ≡ w
unfolding text_beq
reload_node_after_cert_change-lost_example =
    reload_node_after_cert_change-lost full_core running (message (text "full")) full_gone refl refl

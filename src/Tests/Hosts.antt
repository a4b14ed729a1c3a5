-- ===== src/Tests/Hosts.antt =====
-- A host for the tests of certificates: files by their paths, and an ACME that gives what is asked for.
use v2b_z.Prelude.{
  ℕ, zero, suc, ◌≡◌, refl, Bool, true, false, [], ◌∷◌, ◌++◌, Option, none, some, Result, ok, err,
  length, ◌^◌, nat_eq, ◌==◌, ap,
}
use v2b_z.Prelude.Int.{pos}
use v2b_z.Prelude.Text.{Text, text, text_eq}
use v2b_z.Prelude.GoMap.{GoMap, lookup, insert}
use v2b_z.Node.Certs.{StatError, not_exist, Certificate, Library, Disk, Services}

-- An account in one text: each part with its length in front.
abbrev pub encode : Text → Option Text → Text → Text
encode e none x = length e ∷ 0 ∷ 0 ∷ (e ++ x)
encode e (some r) x = length e ∷ 1 ∷ length r ∷ (e ++ (r ++ x))

abbrev cut : ℕ → Text → Text × Text
cut zero s = ([], s)
cut (suc n) [] = ([], [])
cut (suc n) (c ∷ s) = let (a, b) = cut n s in (c ∷ a, b)

abbrev pub decode : Text → Result Text (Text × Option Text × Text)
decode (n ∷ zero ∷ m ∷ s) = let (e, x) = cut n s in ok (e, none, x)
decode (n ∷ suc _ ∷ m ∷ s) = let (e, rest) = cut n s in let (r, x) = cut m rest in ok (e, some r, x)
decode _ = err (text "bad account")

cut-append : (s t : Text) → cut (length s) (s ++ t) ≡ (s, t)
cut-append [] t = refl
cut-append (c ∷ s) t = ap (λ p. (c ∷ p.0, p.1)) (cut-append s t)

pub decode-encode : (e : Text) (r : Option Text) (x : Text) → decode (encode e r x) ≡ ok (e, r, x)
decode-encode e none x = ap (λ p. ok (p.0, none, p.1)) (cut-append e x)
decode-encode e (some r) x =
    rw (cut-append e (r ++ x)) (ap (λ p. ok (e, some p.0, p.1)) (cut-append r x))

abbrev pub certificate : Text → Certificate
certificate b = record { not_before = pos 0; not_after = pos (10 ^ 19); raw = b }

-- A text that begins with an s is signed with its own key.
abbrev starts_with_s : Text → Bool
starts_with_s [] = false
starts_with_s (c ∷ s) = c == b's'

abbrev pub library : Library
library = record {
  to_lower = λ s. s;
  trim_space = λ s. s;
  equal_fold = λ s t. s == t;
  parse_ip = λ s. none;
  is_global_unicast = λ s. true;
  is_private = λ s. false;
  is_loopback = λ s. false;
  is_unspecified = λ s. false;
  is_link_local_unicast = λ s. false;
  is_link_local_multicast = λ s. false;
  url_hostname = λ s. none;
  split_host = λ s. none;
  path_dir = λ s. text "d";
  path_join = λ s t. s ++ (b'/' ∷ t);
  pem_block = λ s. some s;
  pem_encode = λ t s. s;
  parse_certificate = λ s. ok (certificate s);
  verify_hostname = λ x s. true;
  check_signature_from = λ x y. starts_with_s x.raw;
  sum256 = λ s. s;
  add_years = λ t y. t;
  days_until = λ s t. pos 40;
  parse_pem_certificate = λ s. ok (certificate s);
  marshal_metadata = λ m. m.sha256;
  unmarshal_metadata = λ s. none;
  marshal_user = λ e r x. ok (encode e r x);
  unmarshal_user = decode;
  marshal_ec_key = λ k. some k;
  parse_ec_key = λ b. ok b;
  marshal_rsa_key = λ k. k;
}

abbrev pub Files : Type 0
Files = GoMap Text Text

abbrev pub stat_of : Option Text → Option StatError
stat_of none = some not_exist
stat_of (some b) = none

abbrev pub read_of : Option Text → Result Text Text
read_of none = err (text "no file")
read_of (some b) = ok b

abbrev pub files : Disk Files
files = record {
  stat = λ p d. stat_of (lookup p d);
  read_file = λ p d. read_of (lookup p d);
  write_file = λ p b d. (insert p b d, none);
  create_file = λ p d. (insert p [] d, none);
  write_open = λ p b d. (insert p b d, none);
  mkdir_all = λ p d. (d, none);
}

-- The state is the number of certificates that were obtained.
abbrev pub acme : Services ℕ
acme = record {
  now = λ a. pos (10 ^ 15);
  generate_ec_key = λ a. (a, ok (text "ec"));
  generate_rsa_key = λ a. (a, ok (text "rsa"));
  create_certificate = λ t k a. (a, ok (text "self"));
  new_client = λ u a. (a, none);
  register = λ u a. (a, ok (text "reg"));
  set_http01_provider = λ a. (a, none);
  set_env = λ k v a. a;
  dns_provider = λ p a. (a, ok p);
  set_dns01_provider = λ p a. (a, none);
  obtain = λ u r a. (suc a, ok (record { certificate = text "cert"; private_key = text "key" }));
  renew = λ u d f a. (suc a, ok (record { certificate = text "cert"; private_key = text "key" }));
}

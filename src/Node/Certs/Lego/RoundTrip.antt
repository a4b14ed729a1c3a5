-- ===== src/Node/Certs/Lego/RoundTrip.antt =====
-- node/lego.go: an account that was saved is loaded again.
use v2b_z.Prelude.{
  ◌≡◌, ◌≢◌, ◌∙◌, ap, sym, Result-cases, inl, inr, Option, none, some, ok, err, arith,
}
use v2b_z.Prelude.Text.{Text, text}
use v2b_z.Node.Certs.{User, Library, Disk, Services, Host}
use v2b_z.Node.Certs.Files.{check_path}
use v2b_z.Node.Certs.Lego.Account.{save, load, encode_private, decode_private}

module _ (lib : Library) {D A : Type 0} (disk : Disk D) (services : Services A) (path : Text) where
  load_lem :
      (h : Host D A) (j : Text) (f : Text × Option Text × Text) (k : Text)
      → disk.read_file path h.disk ≡ ok j
      → lib.unmarshal_user j ≡ ok f
      → decode_private lib f.2 ≡ ok k
      → (load lib disk services path h).1
        ≡ ok (record { email = f.0; registration = f.1; key = some k; key_encoded = f.2 })
  unfolding load
  load_lem h j f k r u d = ground (arith, r, u, d)

  save_lem :
      (u v : User) (k j : Text) (h : Host D A)
      → u.key ≡ some k
      → lib.marshal_user u.email u.registration (encode_private lib k) ≡ ok j
      → (save lib disk services path u h).1 ≡ ok v
      → let d = (disk.create_file path (check_path lib disk path h).0.disk).0 in
        ((disk.write_open path j d).1 ≡ none)
        × ((save lib disk services path u h).0.disk ≡ (disk.write_open path j d).0)
  unfolding save
  save_lem u v k j h uk m e = ground (arith, uk, m, e)

  unsaved :
      (u v : User) (k x : Text) (h : Host D A)
      → u.key ≡ some k
      → lib.marshal_user u.email u.registration (encode_private lib k) ≡ err x
      → (save lib disk services path u h).1 ≢ ok v
  unfolding save
  unsaved u v k x h uk m e = ground (arith, uk, m, e)

  decode-encode_private :
      (k b : Text)
      → ((t b : Text) → lib.pem_block (lib.pem_encode t b) ≡ some b)
      → lib.marshal_ec_key k ≡ some b
      → lib.parse_ec_key b ≡ ok k
      → decode_private lib (encode_private lib k) ≡ ok k
  unfolding decode_private encode_private
  decode-encode_private k b pem m p = ground (arith, m, p, pem (text "EC PRIVATE KEY") b)

  -- An account whose key can be encoded, and that Save has written, is loaded with its address, its
  -- registration and its key. The conditions are that the JSON of an account, a PEM block and an
  -- encoded key are decoded to what was encoded, and that a file that was truncated and written
  -- without an error holds what was written.
  pub load-save :
      (u v : User) (k b : Text) (h : Host D A)
      → ((e : Text) (r : Option Text) (x j : Text)
          → lib.marshal_user e r x ≡ ok j
          → lib.unmarshal_user j ≡ ok (e, r, x))
      → ((t b : Text) → lib.pem_block (lib.pem_encode t b) ≡ some b)
      → ((k b : Text) → lib.marshal_ec_key k ≡ some b → lib.parse_ec_key b ≡ ok k)
      → ((b : Text) (d : D)
          → (disk.write_open path b (disk.create_file path d).0).1 ≡ none
          → disk.read_file path (disk.write_open path b (disk.create_file path d).0).0 ≡ ok b)
      → u.key ≡ some k
      → lib.marshal_ec_key k ≡ some b
      → (save lib disk services path u h).1 ≡ ok v
      → (load lib disk services path (save lib disk services path u h).0).1
        ≡ ok (record u { key_encoded = encode_private lib k })
  load-save u v k b h json pem ec write uk m e =
      elim (Result-cases (lib.marshal_user u.email u.registration (encode_private lib k))) [
        | inl (j, r) ↦
            let (done, at) = save_lem u v k j h uk r e in
            let read = write j (check_path lib disk path h).0.disk done in
            let loaded =
              load_lem (save lib disk services path u h).0 j
                (u.email, u.registration, encode_private lib k) k (rw at read)
                (json u.email u.registration (encode_private lib k) j r)
                (decode-encode_private k b pem m (ec k b m)) in
            loaded
            ∙ ap (λ q. ok (record u { key = q; key_encoded = encode_private lib k })) (sym uk)
        | inr (x, r) ↦ absurd (unsaved u v k x h uk r e)
      ]

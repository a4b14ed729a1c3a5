-- ===== src/Node/Certs/Lego/Account.antt =====
-- node/lego.go: NewLegoUser, registerUser, Save and Load.
use v2b_z.Prelude.{[], none, some, ◌==◌, Result, err, if◌then◌else◌}
use v2b_z.Prelude.Text.{Text, text, text_eq}
use v2b_z.Node.Certs.{User, Library, Disk, Services, Host}
use v2b_z.Node.Certs.Action.{
  Action, Stop, panicked, pure, given, stop, ◌>>=◌, ◌>>◌, value_of, with_text, on_disk, on_services,
  from_services,
}
use v2b_z.Node.Certs.Files.{is_exist, check_path}

unfoldable pub new_user : User
new_user = record { email = []; registration = none; key = none; key_encoded = [] }

module _ (lib : Library) where
  -- The error of the encoder is dropped by Save.
  unfoldable pub encode_private : Text → Text
  encode_private key = elim (lib.marshal_ec_key key) [
    | none ↦ []
    | some der ↦ lib.pem_encode (text "EC PRIVATE KEY") der
  ]

  -- A text without a PEM block is a nil pointer here.
  unfoldable pub decode_private : Text → Result Stop Text
  decode_private encoded = elim (lib.pem_block encoded) [
    | none ↦ err panicked
    | some block ↦ value_of (lib.parse_ec_key block)
  ]

  module _ {D A : Type 0} (disk : Disk D) (services : Services A) where
    -- The type assertion on a key that is not set panics.
    unfoldable pub save : Text → User → Action (Host D A) User
    unfolding encode_private check_path
    save path u = do
      with_text (text "check path error: ") (check_path lib disk path)
      key ← λ h. elim u.key [ none ↦ stop panicked h | some k ↦ pure k h ]
      let encoded = encode_private key
      on_disk (disk.create_file path)
      json ←
          with_text (text "marshal json error: ")
            (given λ _. value_of (lib.marshal_user u.email u.registration encoded))
      with_text (text "marshal json error: ") (on_disk (disk.write_open path json))
      pure (record u { key_encoded = [] })

    -- Into a user that is zero.
    unfoldable pub load : Text → Action (Host D A) User
    unfolding decode_private
    load path = do
      json ← with_text (text "open file error: ") (given λ h. value_of (disk.read_file path h.disk))
      fields ←
          with_text (text "unmarshal json error: ") (given λ _. value_of (lib.unmarshal_user json))
      key ← with_text (text "decode private key error: ") (given λ _. decode_private fields.2)
      pure (record {
        email = fields.0;
        registration = fields.1;
        key = some key;
        key_encoded = fields.2;
      })

    -- registerUser, behind the new key.
    unfoldable pub register_keyed : Text → User → Action (Host D A) User
    unfolding save
    register_keyed path u = do
      with_text (text "create lego client error: ") (on_services (services.new_client u))
      registration ← from_services (services.register u)
      with_text (text "save user error: ")
          (save path (record u { registration = some registration }))

    unfoldable pub register_user : Text → User → Action (Host D A) User
    unfolding register_keyed
    register_user path u = do
      key ← with_text (text "generate key error: ") (from_services services.generate_ec_key)
      register_keyed path (record u { key = some key })

    -- An account of another address is registered anew.
    unfoldable pub with_email : Text → Text → User → Action (Host D A) User
    unfolding register_user
    with_email path email u =
        if u.email == email
        then pure u
        else register_user path (record u { registration = none; email = email })

    unfoldable pub new_lego_user : Text → Text → Action (Host D A) User
    unfolding load register_user new_user with_email
    new_lego_user path email h =
        if is_exist lib disk path h.disk
        then (load path >>= with_email path email) h
        else register_user path (record new_user { email = email }) h

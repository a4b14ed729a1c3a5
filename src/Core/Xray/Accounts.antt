-- ===== src/Core/Xray/Accounts.antt =====
-- core/xray/vmess.go, trojan.go and ss.go: the protocol users that are handed to xray. The typed
-- message of an account is the library's: an account stands by its fields.
use v2b_z.Prelude.{
  ℕ, ◌||◌, List, [], ◌∷◌, Option, none, some, map, ◌==◌, leb, if◌then◌else◌, length, is_empty,
}
use v2b_z.Prelude.Text.{take, Text, text, text_eq}
use v2b_z.Panel.{UserInfo}
use v2b_z.Limiter.Types.{user_tag}

pub data CipherType : Type 0 where
  aes_128_gcm aes_256_gcm chacha20_poly1305 no_cipher unknown_cipher : CipherType

pub data Account : Type 0 where
  vmess : Text → Text → Account
  vless : Text → Text → Account
  trojan : Text → Account
  shadowsocks : Text → CipherType → Account
  shadowsocks_2022 : Text → Account

pub record User : Type 0 where
  pub email : Text
  pub account : Account

unfoldable pub build_vmess_user : Text → UserInfo → User
build_vmess_user tag u = record {
  email = user_tag tag u.uuid;
  account = vmess u.uuid (text "auto");
}

unfoldable pub build_vmess_users : Text → List UserInfo → List User
unfolding build_vmess_user
build_vmess_users tag = map (build_vmess_user tag)

unfoldable pub build_vless_user : Text → Text → UserInfo → User
build_vless_user tag flow u = record { email = user_tag tag u.uuid; account = vless u.uuid flow }

unfoldable pub build_vless_users : Text → List UserInfo → Text → List User
unfolding build_vless_user
build_vless_users tag users flow = map (build_vless_user tag flow) users

unfoldable pub build_trojan_user : Text → UserInfo → User
build_trojan_user tag u = record { email = user_tag tag u.uuid; account = trojan u.uuid }

unfoldable pub build_trojan_users : Text → List UserInfo → List User
unfolding build_trojan_user
build_trojan_users tag = map (build_trojan_user tag)

-- `to_lower` is strings.ToLower, `base64` the standard encoding.
module _ (to_lower base64 : Text → Text) where
  unfoldable pub get_cipher_from_string : Text → CipherType
  get_cipher_from_string c =
      let name = to_lower c in
      if name == text "aes-128-gcm" || name == text "aead_aes_128_gcm"
      then aes_128_gcm
      else if name == text "aes-256-gcm" || name == text "aead_aes_256_gcm"
      then aes_256_gcm
      else if name == text "chacha20-poly1305"
          || name == text "aead_chacha20_poly1305"
          || name == text "chacha20-ietf-poly1305"
      then chacha20_poly1305
      else if name == text "none" || name == text "plain"
      then no_cipher
      else unknown_cipher

  unfoldable pub key_length : Text → ℕ
  key_length cypher =
      if cypher == text "2022-blake3-aes-128-gcm"
      then 16
      else if cypher == text "2022-blake3-aes-256-gcm"
      then 32
      else if cypher == text "2022-blake3-chacha20-poly1305"
      then 32
      else 0

  -- `none` is the panic of a uuid that is shorter than the key.
  unfoldable pub build_ss_user : Text → UserInfo → Text → Text → Option User
  unfolding get_cipher_from_string key_length
  build_ss_user tag u cypher server_key =
      if is_empty server_key
      then some (record {
        email = user_tag tag u.uuid;
        account = shadowsocks u.uuid (get_cipher_from_string cypher);
      })
      else if leb (key_length cypher) (length u.uuid)
      then some (record {
        email = user_tag tag u.uuid;
        account = shadowsocks_2022 (base64 (take (key_length cypher) u.uuid));
      })
      else none

  unfoldable pub build_ss_users : Text → List UserInfo → Text → Text → Option (List User)
  unfolding build_ss_user
  build_ss_users tag [] cypher server_key = some []
  build_ss_users tag (u ∷ us) cypher server_key = elim (build_ss_user tag u cypher server_key) [
    | none ↦ none
    | some user ↦ elim (build_ss_users tag us cypher server_key) [
      | none ↦ none
      | some rest ↦ some (user ∷ rest)
    ]
  ]

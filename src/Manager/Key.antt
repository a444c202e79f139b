-- ===== src/Manager/Key.antt =====
-- internal/cert_manager/manager.go: the private key of a certificate, from the storage or new. The
-- decoders of encoding/pem and crypto/x509, and the generators, are parameters.
pub mod Fuel
use lets_proxy.Base.{
  has_suffix, ℕ, zero, suc, ◌-◌, Bool, true, false, ◌||◌, ◌&&◌, List, [], ◌∷◌, Option, none, some,
  Str, text, if◌then◌else◌, str_eq, drop, length, leb, Error, is_cache_miss, message, Result, ok,
  err, ◌>>=◌,
}
use lets_proxy.Cache.Bytes.{Bytes}
use lets_proxy.Cert.Check.{PrivateKey, rsa_private, ecdsa_private, other_private}
use lets_proxy.Cert.Description.{CertDescription, KeyType, key_rsa, key_ecdsa, other_key}
use lets_proxy.Manager.Storage.{get_certificate_key_bytes, panic_key_type}

-- A block of PEM: its type and its bytes.
pub record Block : Type 0 where
  pub block_type : Str
  pub bytes : Str

-- `pem.Decode` gives a block and the rest behind it; the parsers give a key.
pub record KeyCodec : Type 0 where
  pub decode : Str → Option (Block × Str)
  pub parse_pkcs1 : Str → Result PrivateKey
  pub parse_pkcs8 : Str → Result PrivateKey
  pub parse_ec : Str → Result PrivateKey
  pub generate_rsa : Result PrivateKey
  pub generate_ecdsa : Result PrivateKey
  pub create_certificate_request : PrivateKey → Str → List Str → Result Str

abbrev pub private_key_type : Str
private_key_type = text "PRIVATE KEY"

module _ (codec : KeyCodec) where
  -- The loop of `parsePrivateKey`: the bytes of the first block of a private key.
  pub find_key_block : ℕ → Str → Result Str
  find_key_block zero s = err (message (text "tls: failed to find PEM block"))
  find_key_block (suc fuel) s = elim (codec.decode s) [
    | none ↦ err (message (text "tls: failed to find PEM block"))
    | some found ↦
        let (block, rest) = found in
        if str_eq block.block_type private_key_type
          || has_suffix block.block_type (text " PRIVATE KEY")
        then ok block.bytes
        else find_key_block fuel rest
  ]

  -- The three formats of a key, tried in turn.
  pub parse_key_der : Str → Result PrivateKey
  parse_key_der der = elim (codec.parse_pkcs1 der) [
    | ok key ↦ ok key
    | err _ ↦ elim (codec.parse_pkcs8 der) [
      | ok key ↦ elim key [
        | rsa_private n ↦ ok (rsa_private n)
        | ecdsa_private x y ↦ ok (ecdsa_private x y)
        | other_private ↦
            err (message (text "tls: found unknown private key type in PKCS#8 wrapping"))
      ]
      | err _ ↦ elim (codec.parse_ec der) [
        | ok key ↦ ok key
        | err _ ↦ err (message (text "tls: failed to parse private key"))
      ]
    ]
  ]

  -- A decoded block leaves less behind it, so that the loop ends within the length.
  pub parse_private_key : Str → Result PrivateKey
  parse_private_key key_pem_block = do
    der ← find_key_block (suc (length key_pem_block)) key_pem_block
    parse_key_der der

  -- `KeyType.Generate`
  unfoldable pub generate : KeyType → Result PrivateKey
  generate key_rsa = codec.generate_rsa
  generate key_ecdsa = codec.generate_ecdsa
  generate (other_key _) = err panic_key_type

  module _ (bytes : Bytes) where
    unfoldable pub get_certificate_key : bytes.Store → CertDescription → Result PrivateKey
    get_certificate_key store cd = do
      cert_bytes ← get_certificate_key_bytes bytes store cd
      parse_private_key cert_bytes

    -- `certKeyGetOrCreate`
    unfoldable pub cert_key_get_or_create : bytes.Store → CertDescription → Result PrivateKey
    cert_key_get_or_create store cd = elim (get_certificate_key store cd) [
      | ok key ↦ ok key
      | err e ↦ if is_cache_miss e then generate cd.key_type else err e
    ]

  -- `createCertRequest`
  unfoldable pub create_cert_request : PrivateKey → Str → List Str → Result Str
  create_cert_request key common_name domains =
      codec.create_certificate_request key common_name domains

-- ===== src/Manager/Storage.antt =====
-- internal/cert_manager/manager.go: the certificates in the storage, behind its interface. A panic
-- on a private key of no known type is an error of its own.
pub mod RoundTrip
mod Tests
use lets_proxy.Base.{
  ℕ, List, [], ◌∷◌, Option, none, some, Bool, true, false, Str, text, if◌then◌else◌, Error,
  cache_miss, is_cache_miss, message, Result, ok, err, ◌>>=◌,
}
use lets_proxy.Cache.Bytes.{Bytes}
use lets_proxy.Cert.Check.{
  X509, Certificate, PrivateKey, rsa_private, ecdsa_private, other_private, Crypto, valid_cert_tls,
}
use lets_proxy.Cert.Description.{
  CertDescription, cert_store_name, key_store_name, lock_name, meta_store_name, KeyType, key_rsa,
  key_ecdsa,
}

abbrev pub panic_key_type : Error
panic_key_type = message (text "unexexpected key type")

-- `getKeyType`
unfoldable pub get_key_type : Certificate → Result KeyType
get_key_type cert = elim cert.private_key [
  | none ↦ err panic_key_type
  | some key ↦ elim key [
    | rsa_private _ ↦ ok key_rsa
    | ecdsa_private _ _ ↦ ok key_ecdsa
    | other_private ↦ err panic_key_type
  ]
]

module _ (bytes : Bytes) where
  unfoldable pub is_cert_locked : bytes.Store → CertDescription → Result Bool
  is_cert_locked store n = elim (bytes.get store (lock_name n)) [
    | ok _ ↦ ok true
    | err e ↦ if is_cache_miss e then ok false else err e
  ]

  unfoldable pub get_certificate_key_bytes : bytes.Store → CertDescription → Result Str
  get_certificate_key_bytes store cd = bytes.get store (key_store_name cd)

  -- The two writes of `storeCertificate`; the first is taken back if the second fails.
  unfoldable pub store_pair : bytes.Store → CertDescription → Str → Str → bytes.Store × Option Error
  store_pair store cd cert_bytes key_bytes =
      let (store1, cert_err) = bytes.put store (cert_store_name cd) cert_bytes in
      let (store2, key_err) = bytes.put store1 (key_store_name cd) key_bytes in
      elim cert_err [
        | some e ↦ (store1, some e)
        | none ↦ elim key_err [
          | some e ↦ ((bytes.delete store2 (cert_store_name cd)).0, some e)
          | none ↦ (store2, none)
        ]
      ]

  -- Whether the lock is held; an error of the check counts as no.
  unfoldable pub seems_locked : bytes.Store → CertDescription → Bool
  seems_locked store cd = elim (is_cert_locked store cd) [ ok locked ↦ locked | err _ ↦ false ]

  module _ (crypto : Crypto) where
    -- The first block of the chain, parsed into the leaf.
    unfoldable pub parse_leaf : Certificate → Result Certificate
    parse_leaf cert = elim cert.certificate [
      | [] ↦ ok cert
      | block ∷ _ ↦ elim (crypto.parse_certificate block) [
        | ok leaf ↦ ok (record cert { leaf = some leaf })
        | err e ↦ err e
      ]
    ]

    unfoldable pub load_certificate_from_cache :
        bytes.Store → CertDescription → ℕ → Result Certificate
    load_certificate_from_cache store cd now = do
      cert_bytes ← bytes.get store (cert_store_name cd)
      key_bytes ← get_certificate_key_bytes store cd
      pair ← crypto.x509_key_pair cert_bytes key_bytes
      cert ← parse_leaf pair
      locked ← is_cert_locked store cd
      valid_cert_tls crypto (some cert) [] locked now

    -- The bytes of the private key, by its type.
    unfoldable pub private_key_bytes : Certificate → Result Str
    private_key_bytes cert = elim cert.private_key [
      | none ↦ err panic_key_type
      | some key ↦ crypto.encode_private_key key
    ]

    unfoldable pub store_certificate :
        bytes.Store → CertDescription → Certificate → bytes.Store × Option Error
    store_certificate store cd cert =
        if seems_locked store cd
        then (store, some (message (text "Try save to locked certificate")))
        else elim (get_key_type cert) [
          | err e ↦ (store, some e)
          | ok _ ↦ elim (private_key_bytes cert) [
            | err e ↦ (store, some e)
            | ok key_bytes ↦
                store_pair store cd (crypto.encode_certificates cert.certificate) key_bytes
          ]
        ]

    unfoldable pub store_certificate_meta :
        bytes.Store → CertDescription → Certificate → bytes.Store × Option Error
    store_certificate_meta store cd cert =
        bytes.put store (meta_store_name cd) (crypto.encode_meta cert.leaf)

-- ===== src/Cert/Check.antt =====
-- internal/cert_manager/helpers.go and `isNeedRenew` of manager.go: is a certificate good to serve?
-- A pointer is an `Option`, an instant a number of nanoseconds. Of a key only what is compared is
-- kept: the modulus of an RSA key, the public point of an ECDSA key.
pub mod Valid
mod Tests
use lets_proxy.Base.{
  ℕ, ◌+◌, ◌*◌, List, [], ◌∷◌, ◌++◌, Option, none, some, Bool, true, false, ◌||◌, not, Str, text,
  ltb, ◌==◌, ◌&&◌, if◌then◌else◌, str_eq, Error, cert_expired, message, Result, ok, err, ◌>>=◌,
  ◌>>◌, fail_if,
}

pub data PublicKey : Type 0 where
  rsa_public : ℕ → PublicKey
  ecdsa_public : ℕ → ℕ → PublicKey
  other_public : PublicKey

pub data PrivateKey : Type 0 where
  rsa_private : ℕ → PrivateKey
  ecdsa_private : ℕ → ℕ → PrivateKey
  other_private : PrivateKey

-- `x509.Certificate`, the fields that the program reads.
pub record X509 : Type 0 where
  pub public_key : Option PublicKey
  pub not_before : ℕ
  pub not_after : ℕ
  pub dns_names : List Str

-- `tls.Certificate`: the DER blocks, the key, the parsed first block.
pub record Certificate : Type 0 where
  pub certificate : List Str
  pub private_key : Option PrivateKey
  pub leaf : Option X509

-- 30 days, in nanoseconds.
abbrev pub renew_before_expire : ℕ
renew_before_expire = 2_592_000_000_000_000

-- `NotAfter.Add(-renewBeforeExpire).Before(now)`, with the duration on the other side.
unfoldable pub is_need_renew : Option Certificate → ℕ → Bool
is_need_renew none now = false
is_need_renew (some cert) now = elim cert.leaf [
  | none ↦ false
  | some leaf ↦ ltb leaf.not_after (now + renew_before_expire)
]

-- `acme.ALPNProto`
abbrev pub alpn_proto : Str
alpn_proto = text "acme-tls/1"

unfoldable pub is_tls_alpn01_hello : List Str → Bool
is_tls_alpn01_hello (proto ∷ []) = str_eq proto alpn_proto
is_tls_alpn01_hello _ = false

unfoldable pub flat_byte_slices : List Str → Str
flat_byte_slices [] = []
flat_byte_slices (b ∷ rest) = b ++ flat_byte_slices rest

-- The `switch` on the leaf's public key.
unfoldable pub check_keys : PublicKey → PrivateKey → Result (Unit {0})
check_keys (rsa_public n) (rsa_private m) =
    fail_if (not (n == m)) (message (text "rsa private key does not match public key"))
check_keys (rsa_public n) _ =
    err (message (text "rsa private key type does not match public key type"))
check_keys (ecdsa_public x y) (ecdsa_private u v) =
    fail_if (not (x == u) || not (y == v))
      (message (text "ecdsa private key does not match public key"))
check_keys (ecdsa_public x y) _ =
    err (message (text "ecdsa private key type does not match public key type"))
check_keys other_public _ = err (message (text "unknown public key algorithm"))

-- `crypto/x509`, `crypto/tls`, `encoding/pem` and `encoding/json`, as far as the program calls them.
pub record Crypto : Type 0 where
  pub verify_hostname : X509 → Str → Option Error
  pub parse_certificates : Str → Result (List X509)
  pub parse_certificate : Str → Result X509
  pub x509_key_pair : Str → Str → Result Certificate
  pub encode_certificates : List Str → Str
  pub encode_private_key : PrivateKey → Result Str
  pub encode_meta : Option X509 → Str

module _ (crypto : Crypto) where
  -- The loop over the domains.
  unfoldable pub verify_domains : X509 → List Str → Result (Unit {0})
  verify_domains leaf [] = ok tt
  verify_domains leaf (domain ∷ domains) =
      let rest = verify_domains leaf domains in
      elim (crypto.verify_hostname leaf domain) [ none ↦ rest | some e ↦ err e ]

  -- `validCertTLS` behind its checks for nil.
  unfoldable pub check_leaf :
      Certificate → X509 → PublicKey → PrivateKey → List Str → Bool → ℕ → Result Certificate
  check_leaf cert leaf public private domains true now = ok cert
  check_leaf cert leaf public private domains false now = do
    check_keys public private
    fail_if (ltb now leaf.not_before) (message (text "certificate is not valid yet"))
    fail_if (ltb leaf.not_after now) cert_expired
    verify_domains leaf domains
    ok cert

  unfoldable pub valid_cert_tls : Option Certificate → List Str → Bool → ℕ → Result Certificate
  valid_cert_tls none domains use_as_is now = err (message (text "certificate is nil"))
  valid_cert_tls (some cert) domains use_as_is now = elim cert.leaf [
    | none ↦ err (message (text "certificate leaf is nil"))
    | some leaf ↦ elim cert.private_key [
      | none ↦ err (message (text "certificate has no private key"))
      | some private ↦ elim leaf.public_key [
        | none ↦ err (message (text "certificate has no public key"))
        | some public ↦ check_leaf cert leaf public private domains use_as_is now
      ]
    ]
  ]

  unfoldable pub valid_cert_der :
      List Str → List Str → Option PrivateKey → Bool → ℕ → Result Certificate
  valid_cert_der domains der key use_as_is now =
      elim (crypto.parse_certificates (flat_byte_slices der)) [
        | err _ ↦ err (message (text "no certificate found in der bytes"))
        | ok [] ↦ err (message (text "no certificate found in der bytes"))
        | ok (leaf ∷ _) ↦
            valid_cert_tls
              (some (record { certificate = der; private_key = key; leaf = some leaf })) domains
              use_as_is now
      ]

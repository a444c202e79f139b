-- ===== src/Cert/Check/Valid.antt =====
-- `validCertTLS` of internal/cert_manager/helpers.go accepts exactly the certificates that may be
-- served.
use lets_proxy.Base.{
  ℕ, ◌≤◌, ◌≡◌, refl, sym, ap, ◌↔◌, ◌⊎◌, inl, inr, List, [], ◌∷◌, Option, none, some, Bool, true,
  false, Str, All, arith, ok, some-injective, Result-cases, is_result, is_error, Option-cases,
}
use lets_proxy.Cert.Check.{
  PublicKey, rsa_public, ecdsa_public, other_public, PrivateKey, rsa_private, ecdsa_private,
  other_private, X509, Certificate, Crypto, check_keys, verify_domains, check_leaf, valid_cert_tls,
  valid_cert_der, flat_byte_slices,
}

-- The private key belongs to the public key, and both are of a kind that the program knows.
abbrev pub KeysMatch : PublicKey → PrivateKey → Type 0
KeysMatch (rsa_public n) (rsa_private m) = n ≡ m
KeysMatch (ecdsa_public x y) (ecdsa_private u v) = (x ≡ u) × (y ≡ v)
KeysMatch _ _ = ⊥

-- What makes a certificate good for the domains at an instant: it is complete, and unless it is to
-- be used as it is, its keys match, the instant lies in its period, and it names every domain.
pub record IsServable (crypto : Crypto) (cert : Certificate) (domains : List Str) (as_is : Bool)
    (now : ℕ) : Type 0 where
  pub leaf : X509
  pub has_leaf : cert.leaf ≡ some leaf
  pub private : PrivateKey
  pub has_private : cert.private_key ≡ some private
  pub public : PublicKey
  pub has_public : leaf.public_key ≡ some public
  pub checked :
      (as_is ≡ true)
      ⊎ (KeysMatch public private
          × (leaf.not_before ≤ now)
          × (now ≤ leaf.not_after)
          × All (λ d. crypto.verify_hostname leaf d ≡ none) domains)

check_keys_iff :
    (public : PublicKey) (private : PrivateKey)
    → (check_keys public private ≡ ok tt) ↔ KeysMatch public private
unfolding check_keys
check_keys_iff (rsa_public n) (rsa_private m) = ground arith
check_keys_iff (rsa_public n) (ecdsa_private u v) = ground arith
check_keys_iff (rsa_public n) other_private = ground arith
check_keys_iff (ecdsa_public x y) (ecdsa_private u v) = ground arith
check_keys_iff (ecdsa_public x y) (rsa_private m) = ground arith
check_keys_iff (ecdsa_public x y) other_private = ground arith
check_keys_iff other_public private = ground arith

module _ (crypto : Crypto) where
  verify_domains_iff :
      (leaf : X509) (domains : List Str)
      → (verify_domains crypto leaf domains ≡ ok tt)
        ↔ All (λ d. crypto.verify_hostname leaf d ≡ none) domains
  unfolding verify_domains
  verify_domains_iff leaf [] = ground arith
  verify_domains_iff leaf (d ∷ domains) = ground (arith, verify_domains_iff leaf domains)

  check_leaf_iff :
      (cert c : Certificate) (leaf : X509) (public : PublicKey) (private : PrivateKey)
      (domains : List Str) (as_is : Bool) (now : ℕ)
      → (check_leaf crypto cert leaf public private domains as_is now ≡ ok c) ↔ (
          (c ≡ cert)
          × ((as_is ≡ true)
              ⊎ (KeysMatch public private
                  × (leaf.not_before ≤ now)
                  × (now ≤ leaf.not_after)
                  × All (λ d. crypto.verify_hostname leaf d ≡ none) domains)))
  unfolding check_leaf
  check_leaf_iff cert c leaf public private domains true now = ground arith
  check_leaf_iff cert c leaf public private domains false now =
      ground (arith, check_keys_iff public private, verify_domains_iff leaf domains)

  valid_cert_tls_sound :
      (cert c : Certificate) (domains : List Str) (as_is : Bool) (now : ℕ)
      → valid_cert_tls crypto (some cert) domains as_is now ≡ ok c
      → (c ≡ cert) × IsServable crypto cert domains as_is now
  unfolding valid_cert_tls
  valid_cert_tls_sound cert c domains as_is now h = elim (Option-cases cert.leaf) [
    | inl e ↦ absurd (ground arith)
    | inr (leaf, has_leaf) ↦ elim (Option-cases cert.private_key) [
      | inl e ↦ absurd (ground arith)
      | inr (private, has_private) ↦ elim (Option-cases leaf.public_key) [
        | inl e ↦ absurd (ground arith)
        | inr (public, has_public) ↦
            let found =
              (check_leaf_iff cert c leaf public private domains as_is now).0 (ground arith) in
            (
              found.0,
              record {
                leaf = leaf;
                has_leaf = has_leaf;
                private = private;
                has_private = has_private;
                public = public;
                has_public = has_public;
                checked = found.1;
              },
            )
      ]
    ]
  ]

  valid_cert_tls_complete :
      (cert : Certificate) (domains : List Str) (as_is : Bool) (now : ℕ)
      → IsServable crypto cert domains as_is now
      → valid_cert_tls crypto (some cert) domains as_is now ≡ ok cert
  unfolding valid_cert_tls
  valid_cert_tls_complete cert domains as_is now v = ground (
    arith,
    v.has_leaf,
    v.has_private,
    v.has_public,
    (check_leaf_iff cert cert v.leaf v.public v.private domains as_is now).1 (refl, v.checked),
  )

  -- `validCertTLS` returns a certificate exactly when it is the one given and may be served.
  pub valid_cert_tls_iff :
      (cert : Option Certificate) (c : Certificate) (domains : List Str) (as_is : Bool) (now : ℕ)
      → (valid_cert_tls crypto cert domains as_is now ≡ ok c)
        ↔ ((cert ≡ some c) × IsServable crypto c domains as_is now)
  valid_cert_tls_iff none c domains as_is now = none_case
    where
      none_case :
          (valid_cert_tls crypto none domains as_is now ≡ ok c)
          ↔ ((none ≡ some c) × IsServable crypto c domains as_is now)
      none_case =
          (unfold valid_cert_tls in λ h. cc, λ h. absurd (let e : none ≡ some c = h.0 in cc))
  valid_cert_tls_iff (some cert) c domains as_is now = (
    λ h. let (e, v) = valid_cert_tls_sound cert c domains as_is now h in (rw e refl, rw e v),
    λ h.
        let e : cert ≡ c = some-injective _ _ h.0 in
        rw e (valid_cert_tls_complete c domains as_is now h.1),
  )

  -- The certificate has these parts and may be served.
  abbrev pub Parts : Certificate → List Str → Option PrivateKey → List Str → Bool → ℕ → Type 0
  Parts c der key domains as_is now =
      (c.certificate ≡ der) × (c.private_key ≡ key) × IsServable crypto c domains as_is now

  first_leaf_sound :
      (c' : Certificate) (leaves : List X509) (der : List Str) (key : Option PrivateKey)
      (domains : List Str) (as_is : Bool) (now : ℕ)
      → crypto.parse_certificates (flat_byte_slices der) ≡ ok leaves
      → valid_cert_der crypto domains der key as_is now ≡ ok c'
      → Parts c' der key domains as_is now
  unfolding valid_cert_der
  first_leaf_sound c' [] der key domains as_is now e h = absurd (ground arith)
  first_leaf_sound c' (leaf ∷ rest) der key domains as_is now e h =
      let given : Certificate = record { certificate = der; private_key = key; leaf = some leaf } in
      let (q, v) = (valid_cert_tls_iff (some given) c' domains as_is now).0 (ground arith) in
      let same : given ≡ c' = some-injective _ _ q in
      (ap (λ x. x.certificate) (sym same), ap (λ x. x.private_key) (sym same), v)

  -- What `validCertDer` returns is made of the given parts, and it may be served.
  pub valid_cert_der_sound :
      (c c' : Certificate) (domains : List Str) (as_is : Bool) (now : ℕ)
      → valid_cert_der crypto domains c.certificate c.private_key as_is now ≡ ok c'
      → Parts c' c.certificate c.private_key domains as_is now
  unfolding valid_cert_der
  valid_cert_der_sound c c' domains as_is now h =
      elim (Result-cases (crypto.parse_certificates (flat_byte_slices c.certificate))) [
        | is_error x q ↦ absurd (ground arith)
        | is_result leaves q ↦
            first_leaf_sound c' leaves c.certificate c.private_key domains as_is now q h
      ]

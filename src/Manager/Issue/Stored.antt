-- ===== src/Manager/Issue/Stored.antt =====
-- internal/cert_manager/manager.go: an issued certificate can be loaded from the storage.
use lets_proxy.Base.{
  ◌≡◌, sym, ap, ◌∙◌, subst, inl, inr, ℕ, List, [], ◌∷◌, Option, none, some, false, Str, ok, ◌>>=◌,
  Result-cases, is_result, is_error, Option-cases, arith,
}
use lets_proxy.Cache.Bytes.{Bytes, BytesLaws}
use lets_proxy.Cert.Check.{
  X509, PublicKey, PrivateKey, Certificate, Crypto, valid_cert_tls, valid_cert_der, check_leaf,
  verify_domains, flat_byte_slices,
}
use lets_proxy.Cert.Description.{
  CertDescription, cert_store_name, key_store_name, lock_name, meta_store_name,
}
use lets_proxy.Manager.Issue.{
  AcmeClientManager, IssueSettings, Issuer, issue_certificate, prepare, store_issued,
}
use lets_proxy.Manager.Key.{KeyCodec}
use lets_proxy.Manager.Order.{Order}
use lets_proxy.Manager.Storage.{
  is_cert_locked, get_certificate_key_bytes, load_certificate_from_cache, store_certificate,
  store_certificate_meta, private_key_bytes, parse_leaf,
}
use lets_proxy.Manager.Storage.RoundTrip.{Apart, load-store_certificate}

module _ (crypto : Crypto) where
  check_leaf-fewer :
      (cert c : Certificate) (leaf : X509) (public : PublicKey) (private : PrivateKey)
      (domains : List Str) (now : ℕ)
      → check_leaf crypto cert leaf public private domains false now ≡ ok c
      → (c ≡ cert) × (check_leaf crypto cert leaf public private [] false now ≡ ok cert)
  unfolding check_leaf verify_domains
  check_leaf-fewer cert c leaf public private domains now h = ground arith

  -- A certificate that was checked for some domains passes the check without any.
  valid_cert_tls-fewer :
      (cert c : Certificate) (domains : List Str) (now : ℕ)
      → valid_cert_tls crypto (some cert) domains false now ≡ ok c
      → valid_cert_tls crypto (some c) [] false now ≡ ok c
  unfolding valid_cert_tls
  valid_cert_tls-fewer cert c domains now h = elim (Option-cases cert.leaf) [
    | inl q ↦ absurd (ground arith)
    | inr (leaf, l) ↦ elim (Option-cases cert.private_key) [
      | inl q ↦ absurd (ground arith)
      | inr (private, k) ↦ elim (Option-cases leaf.public_key) [
        | inl q ↦ absurd (ground arith)
        | inr (public, q) ↦
            let (same, passes) =
              check_leaf-fewer cert c leaf public private domains now (ground arith) in
            ground (arith, same, passes)
      ]
    ]
  ]

  valid_cert_der-fewer :
      (domains der : List Str) (key : Option PrivateKey) (c : Certificate) (now : ℕ)
      → valid_cert_der crypto domains der key false now ≡ ok c
      → valid_cert_tls crypto (some c) [] false now ≡ ok c
  unfolding valid_cert_der
  valid_cert_der-fewer domains der key c now h =
      elim (Result-cases (crypto.parse_certificates (flat_byte_slices der))) [
        | is_error e q ↦ absurd (ground arith)
        | is_result [] q ↦ absurd (ground arith)
        | is_result (leaf ∷ leaves) q ↦
            let cert : Certificate = record {
              certificate = der;
              private_key = key;
              leaf = some leaf;
            } in
            valid_cert_tls-fewer cert c domains now (ground arith)
      ]

module _ (bytes : Bytes) (laws : BytesLaws bytes) (cd : CertDescription) where
  -- The byte cache tells the files of the certificate apart.
  abbrev pub FilesApart : Type 0
  FilesApart =
      Apart bytes laws (cert_store_name cd) (key_store_name cd)
      × Apart bytes laws (lock_name cd) (cert_store_name cd)
      × Apart bytes laws (lock_name cd) (key_store_name cd)
      × Apart bytes laws (cert_store_name cd) (meta_store_name cd)
      × Apart bytes laws (key_store_name cd) (meta_store_name cd)
      × Apart bytes laws (lock_name cd) (meta_store_name cd)

  load-store_certificate_meta :
      (crypto : Crypto) (store : bytes.Store) (cert : Certificate) (now : ℕ)
      → FilesApart
      → load_certificate_from_cache bytes crypto
          (store_certificate_meta bytes crypto store cd cert).0
          cd
          now
        ≡ load_certificate_from_cache bytes crypto store cd now
  unfolding load_certificate_from_cache get_certificate_key_bytes is_cert_locked
      store_certificate_meta
  load-store_certificate_meta crypto store cert now (_, _, _, a, b, c) =
      let d = crypto.encode_meta cert.leaf in
      ground (
        arith,
        laws.get-put_ne store (meta_store_name cd) (cert_store_name cd) d a,
        laws.get-put_ne store (meta_store_name cd) (key_store_name cd) d b,
        laws.get-put_ne store (meta_store_name cd) (lock_name cd) d c,
      )

  module _ (manager : AcmeClientManager) (crypto : Crypto) (codec : KeyCodec)
      (settings : IssueSettings) where
    -- The encodings of PEM and x509 give back a certificate from its bytes and its key's.
    abbrev pub Decodes : Certificate → Type 0
    Decodes cert =
        (key : Str)
        → private_key_bytes bytes crypto cert ≡ ok key
        → (crypto.x509_key_pair (crypto.encode_certificates cert.certificate) key
            >>= parse_leaf bytes crypto)
          ≡ ok cert

    store_issued-same :
        (store : bytes.Store) (cert c : Certificate)
        → (store_issued manager bytes crypto codec settings store cd cert).1 ≡ ok c
        → (cert ≡ c) × ((store_certificate bytes crypto store cd cert).1 ≡ none)
    unfolding store_issued
    store_issued-same store cert c stored = ground arith

    load-store_issued :
        (store : bytes.Store) (cert : Certificate) (now : ℕ)
        → FilesApart
        → is_cert_locked bytes store cd ≡ ok false
        → Decodes cert
        → (store_certificate bytes crypto store cd cert).1 ≡ none
        → load_certificate_from_cache bytes crypto
            (store_issued manager bytes crypto codec settings store cd cert).0
            cd
            now
          ≡ valid_cert_tls crypto (some cert) [] false now
    unfolding store_issued
    load-store_issued store cert now apart unlocked decodes q =
        let store1 = (store_certificate bytes crypto store cd cert).0 in
        let loads =
          load-store_certificate bytes laws crypto store cd cert now apart.0 apart.1 apart.2
            unlocked decodes q in
        let frame = load-store_certificate_meta crypto store1 cert now apart in
        ground (arith, loads, frame)

    -- A certificate that issueCertificate returns is checked and stored: a load at that time returns
    -- it, whether the metadata are written or not. This holds for a byte cache that tells the
    -- certificate's files apart, a certificate that is not locked, and encodings that give back what
    -- was encoded.
    pub load-issue_certificate :
        (st : Issuer manager bytes) (order : Order) (cert : Certificate) (now : ℕ)
        → FilesApart
        → is_cert_locked bytes st.world.store cd ≡ ok false
        → Decodes cert
        → (issue_certificate manager bytes crypto codec settings st cd order now).1 ≡ ok cert
        → load_certificate_from_cache bytes crypto
            (issue_certificate manager bytes crypto codec settings st cd order now).0.world.store
            cd
            now
          ≡ ok cert
    unfolding issue_certificate
    load-issue_certificate st order cert now apart unlocked decodes issued =
        elim (Result-cases
          (prepare manager bytes crypto codec settings st.world.store cd order.identifiers)) [
            | is_error e q ↦ absurd (ground arith)
            | is_result (key, csr) q ↦
                elim (Result-cases (
                  (manager.client.create_order_cert st.server order.finalize_url csr).1 >>= λ der.
                  valid_cert_der crypto order.identifiers der (some key) false now)) [
                    | is_error e r ↦ absurd (ground arith)
                    | is_result cert' r ↦
                        let (same, stored) =
                          store_issued-same st.world.store cert' cert
                            (let h = rw (issue_certificate, q, r) at issued in h) in
                        let loads =
                          load-store_issued st.world.store cert' now apart unlocked
                            (subst Decodes (sym same) decodes) stored in
                        elim (Result-cases
                          (manager.client.create_order_cert st.server order.finalize_url csr).1) [
                            | is_error e f ↦ absurd (ground arith)
                            | is_result der f ↦
                                let passed : valid_cert_der crypto order.identifiers der (some key)
                                      false now
                                    ≡ ok cert' =
                                  ground arith in
                                let checked =
                                  valid_cert_der-fewer crypto order.identifiers der (some key) cert'
                                    now passed in
                                rw (issue_certificate, q, r) (loads ∙ checked ∙ ap ok same)
                          ]
                  ]
          ]

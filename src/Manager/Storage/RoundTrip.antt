-- ===== src/Manager/Storage/RoundTrip.antt =====
-- What `storeCertificate` leaves in the storage, and what `loadCertificateFromCache` makes of it.
use lets_proxy.Base.{
  ℕ, ◌≡◌, sym, ap, ◌∙◌, ◌≢◌, ◌⊎◌, inl, inr, [], none, some, true, false, Str, Error, cache_miss,
  Result, ok, err, ◌>>=◌, Result-cases, is_result, is_error, arith,
}
use lets_proxy.Cache.Bytes.{Bytes, BytesLaws}
use lets_proxy.Cert.Check.{Certificate, Crypto, valid_cert_tls}
use lets_proxy.Cert.Description.{CertDescription, cert_store_name, key_store_name, lock_name}
use lets_proxy.Manager.Storage.{
  is_cert_locked, get_certificate_key_bytes, store_pair, seems_locked, parse_leaf,
  load_certificate_from_cache, private_key_bytes, store_certificate,
}

module _ (bytes : Bytes) (laws : BytesLaws bytes) where
  abbrev pub Apart : Str → Str → Type 0
  Apart j k = laws.canon j ≢ laws.canon k

  store_pair-others :
      (store : bytes.Store) (cd : CertDescription) (cert_bytes key_bytes k : Str)
      → Apart k (cert_store_name cd)
      → Apart k (key_store_name cd)
      → bytes.get (store_pair bytes store cd cert_bytes key_bytes).0 k ≡ bytes.get store k
  unfolding store_pair
  store_pair-others store cd cert_bytes key_bytes k a b =
      let store1 = (bytes.put store (cert_store_name cd) cert_bytes).0 in
      let store2 = (bytes.put store1 (key_store_name cd) key_bytes).0 in
      ground (
        arith,
        laws.get-put_ne store (cert_store_name cd) k cert_bytes a,
        laws.get-put_ne store1 (key_store_name cd) k key_bytes b,
        laws.get-delete_ne store2 (cert_store_name cd) k a,
      )

  store_pair-get :
      (store : bytes.Store) (cd : CertDescription) (cert_bytes key_bytes : Str)
      → Apart (cert_store_name cd) (key_store_name cd)
      → (store_pair bytes store cd cert_bytes key_bytes).1 ≡ none
      → (bytes.get (store_pair bytes store cd cert_bytes key_bytes).0 (cert_store_name cd)
          ≡ ok cert_bytes)
        × (bytes.get (store_pair bytes store cd cert_bytes key_bytes).0 (key_store_name cd)
            ≡ ok key_bytes)
  unfolding store_pair
  store_pair-get store cd cert_bytes key_bytes a h =
      let store1 = (bytes.put store (cert_store_name cd) cert_bytes).0 in
      ground (
        arith,
        laws.get-put store (cert_store_name cd) cert_bytes,
        laws.get-put_ne store1 (key_store_name cd) (cert_store_name cd) key_bytes a,
        laws.get-put store1 (key_store_name cd) key_bytes,
      )

  module _ (crypto : Crypto) where
    locked_same :
        (store store' : bytes.Store) (cd : CertDescription)
        → bytes.get store' (lock_name cd) ≡ bytes.get store (lock_name cd)
        → is_cert_locked bytes store' cd ≡ is_cert_locked bytes store cd
    unfolding is_cert_locked
    locked_same store store' cd h = ground arith

    loaded :
        (store : bytes.Store) (cd : CertDescription) (cert : Certificate) (now : ℕ)
        (chain key : Str)
        → bytes.get store (cert_store_name cd) ≡ ok chain
        → bytes.get store (key_store_name cd) ≡ ok key
        → is_cert_locked bytes store cd ≡ ok false
        → (crypto.x509_key_pair chain key >>= parse_leaf bytes crypto) ≡ ok cert
        → load_certificate_from_cache bytes crypto store cd now
          ≡ valid_cert_tls crypto (some cert) [] false now
    unfolding load_certificate_from_cache get_certificate_key_bytes
    loaded store cd cert now chain key p q r h =
        rw (p, q) (bound (crypto.x509_key_pair chain key) h)
      where
        bound :
            (m : Result Certificate)
            → (m >>= parse_leaf bytes crypto) ≡ ok cert
            → (m >>= λ pair. parse_leaf bytes crypto pair >>= λ c.
                is_cert_locked bytes store cd >>= λ locked.
                valid_cert_tls crypto (some c) [] locked now)
              ≡ valid_cert_tls crypto (some cert) [] false now
        bound (ok pair) h = ground arith
        bound (err e) h = ground arith

    stored_pair :
        (store : bytes.Store) (cd : CertDescription) (cert : Certificate) (key : Str)
        → is_cert_locked bytes store cd ≡ ok false
        → private_key_bytes bytes crypto cert ≡ ok key
        → (store_certificate bytes crypto store cd cert).1 ≡ none
        → store_certificate bytes crypto store cd cert
          ≡ store_pair bytes store cd (crypto.encode_certificates cert.certificate) key
    unfolding store_certificate seems_locked
    stored_pair store cd cert key unlocked q stored = ground arith

    -- `storeCertificate` changes nothing but the two files of its certificate, and nothing at all
    -- if that is locked; then it fails.
    pub store_certificate-others :
        (store : bytes.Store) (cd : CertDescription) (cert : Certificate) (k : Str)
        → (Apart k (cert_store_name cd) × Apart k (key_store_name cd))
          ⊎ (is_cert_locked bytes store cd ≡ ok true)
        → (bytes.get (store_certificate bytes crypto store cd cert).0 k ≡ bytes.get store k)
          × (is_cert_locked bytes store cd ≡ ok true
              → (store_certificate bytes crypto store cd cert).1 ≢ none)
    unfolding store_certificate seems_locked
    store_certificate-others store cd cert k (inl (a, b)) =
        elim (Result-cases (private_key_bytes bytes crypto cert)) [
          | is_result key e ↦ ground (
            arith,
            store_pair-others store cd (crypto.encode_certificates cert.certificate) key k a b,
          )
          | is_error e q ↦ ground arith
        ]
    store_certificate-others store cd cert k (inr locked) = ground arith

    -- A certificate that `storeCertificate` has stored without an error is what a later load parses:
    -- the load answers what the checks of `validCertTLS` answer for it. This holds for a byte cache
    -- that tells the certificate's two files and its lock apart, a certificate that is not locked,
    -- and codecs of PEM and x509 that give back the certificate from its bytes and its key's.
    pub load-store_certificate :
        (store : bytes.Store) (cd : CertDescription) (cert : Certificate) (now : ℕ)
        → Apart (cert_store_name cd) (key_store_name cd)
        → Apart (lock_name cd) (cert_store_name cd)
        → Apart (lock_name cd) (key_store_name cd)
        → is_cert_locked bytes store cd ≡ ok false
        → ((key : Str)
            → private_key_bytes bytes crypto cert ≡ ok key
            → (crypto.x509_key_pair (crypto.encode_certificates cert.certificate) key
                >>= parse_leaf bytes crypto)
              ≡ ok cert)
        → (store_certificate bytes crypto store cd cert).1 ≡ none
        → load_certificate_from_cache bytes crypto
            (store_certificate bytes crypto store cd cert).0
            cd
            now
          ≡ valid_cert_tls crypto (some cert) [] false now
    unfolding store_certificate seems_locked
    load-store_certificate store cd cert now a b c unlocked pair stored =
        elim (Result-cases (private_key_bytes bytes crypto cert)) [
          | is_error e q ↦ absurd (ground arith)
          | is_result key q ↦
              let chain = crypto.encode_certificates cert.certificate in
              let same = stored_pair store cd cert key unlocked q stored in
              let (p, q') =
                store_pair-get store cd chain key a (sym (ap (λ o. o.1) same) ∙ stored) in
              let r = store_pair-others store cd chain key (lock_name cd) b c in
              ap (λ o. load_certificate_from_cache bytes crypto o.0 cd now) same
              ∙ loaded _ cd cert now chain key p q' (locked_same store _ cd r ∙ unlocked)
                  (pair key q)
        ]

    -- If the write of the key fails after that of the certificate, the certificate's file is taken
    -- back: a load finds no certificate, rather than one without a key. The deletion must succeed.
    pub load-store_certificate_failed :
        (store : bytes.Store) (cd : CertDescription) (cert_bytes key_bytes : Str) (e : Error)
        (now : ℕ)
        → (store_pair bytes store cd cert_bytes key_bytes).1 ≡ some e
        → (bytes.put store (cert_store_name cd) cert_bytes).1 ≡ none
        → ((s : bytes.Store) → (bytes.delete s (cert_store_name cd)).1 ≡ none)
        → load_certificate_from_cache bytes crypto
            (store_pair bytes store cd cert_bytes key_bytes).0
            cd
            now
          ≡ err cache_miss
    unfolding store_pair load_certificate_from_cache
    load-store_certificate_failed store cd cert_bytes key_bytes e now failed first deletes =
        let store2 =
          (bytes.put (bytes.put store (cert_store_name cd) cert_bytes).0 (key_store_name cd)
            key_bytes).0 in
        ground (arith, laws.get-delete store2 (cert_store_name cd), deletes store2)

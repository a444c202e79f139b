-- ===== src/Manager/Storage/Tests.antt =====
-- The storage of internal/cert_manager/manager.go, on the memory cache and on one that fails.
use lets_proxy.Base.{
  ◌≡◌, ◌≢◌, refl, sym, inl, inr, List, [], ◌∷◌, Option, none, some, Bool, true, false, Str, text,
  Result, ok, err, cache_miss, Error, message, str_eq, if◌then◌else◌, str_eq_iff, arith,
}
use lets_proxy.Cache.Bytes.{Bytes, BytesLaws}
use lets_proxy.Cache.Memory.{MemoryCache, memory_bytes, memory_laws, get, put, delete}
use lets_proxy.Cert.Check.{valid_cert_tls}
use lets_proxy.Cert.Description.{CertDescription, cert_store_name, key_store_name, lock_name}
use lets_proxy.Cert.Description.Names.{names_disjoint}
use lets_proxy.Fixtures.{crypto, cert, description, storage, locked_files}
use lets_proxy.Manager.Storage.{
  is_cert_locked, store_certificate, load_certificate_from_cache, private_key_bytes, parse_leaf,
  get_key_type, seems_locked, store_pair,
}
use lets_proxy.Manager.Storage.RoundTrip.{
  store_certificate-others, load-store_certificate, load-store_certificate_failed,
}

store_certificate-others_example :
    (get
        (store_certificate memory_bytes crypto (storage locked_files) description cert).0
        (text "example.com.rsa.cer")
      ≡ get (storage locked_files) (text "example.com.rsa.cer"))
    × (is_cert_locked memory_bytes (storage locked_files) description ≡ ok true
        → (store_certificate memory_bytes crypto (storage locked_files) description cert).1 ≢ none)
unfolding is_cert_locked get lets_proxy.Base.Dict.lookup str_eq lock_name
store_certificate-others_example =
    store_certificate-others memory_bytes memory_laws crypto (storage locked_files) description cert
      (text "example.com.rsa.cer") (inr refl)

lock_apart :
    (lock_name description ≢ cert_store_name description)
    × (lock_name description ≢ key_store_name description)
lock_apart =
    let (_, a, _, b, _, _) = names_disjoint description description in
    ((λ e. a (sym e)), λ e. b (sym e))

load-store_certificate_example :
    load_certificate_from_cache memory_bytes crypto
      (store_certificate memory_bytes crypto (storage []) description cert).0
      description
      500
    ≡ valid_cert_tls crypto (some cert) [] false 500
unfolding store_certificate memory_laws cert_store_name key_store_name is_cert_locked get
    lets_proxy.Base.Dict.lookup parse_leaf seems_locked get_key_type private_key_bytes store_pair
    put
load-store_certificate_example =
    load-store_certificate memory_bytes memory_laws crypto (storage []) description cert 500
      (names_disjoint description description).0 lock_apart.0 lock_apart.1 refl (λ key e. refl) refl

-- A memory cache that fails to write keys.
abbrev put_or_fail : MemoryCache → Str → Str → MemoryCache × Option Error
put_or_fail s k d =
    if str_eq k (text "example.com.rsa.key")
    then (s, some (message (text "disk full")))
    else put s k d

put_or_fail-get :
    (s : MemoryCache) (k d : Str)
    → (put_or_fail s k d).1 ≡ none
    → get (put_or_fail s k d).0 k ≡ ok d
unfolding memory_laws
put_or_fail-get s k d h = ground (arith, memory_laws.get-put s k d)

put_or_fail-get_ne : (s : MemoryCache) (k j d : Str) → j ≢ k → get (put_or_fail s k d).0 j ≡ get s j
unfolding memory_laws
put_or_fail-get_ne s k j d ne = ground (arith, memory_laws.get-put_ne s k j d)

abbrev failing : Bytes
failing = record { Store = MemoryCache; get = get; put = put_or_fail; delete = delete }

failing_laws : BytesLaws failing
unfolding memory_laws
failing_laws = record {
  canon = λ k. k;
  get-put = put_or_fail-get;
  get-put_ne = put_or_fail-get_ne;
  get-delete = memory_laws.get-delete;
  get-delete_ne = memory_laws.get-delete_ne;
}

load-store_certificate_failed_example :
    load_certificate_from_cache failing crypto
      (store_pair failing (storage []) description (text "DER") (text "KEY")).0
      description
      500
    ≡ err cache_miss
unfolding store_pair str_eq cert_store_name lets_proxy.Cert.Description.key_string put
    key_store_name delete
load-store_certificate_failed_example =
    load-store_certificate_failed failing failing_laws crypto (storage []) description (text "DER")
      (text "KEY") (message (text "disk full")) 500 refl refl (λ s. refl)

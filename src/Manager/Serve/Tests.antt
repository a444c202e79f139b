-- ===== src/Manager/Serve/Tests.antt =====
-- `getCertificate` and `GetCertificate` of internal/cert_manager/manager.go on concrete worlds.
use lets_proxy.Base.{
  ◌≡◌, refl, sym, List, [], ◌∷◌, ◌++◌, Option, none, some, Bool, true, false, Str, text, Result, ok,
  err, cache_miss, Error, have_no_cert, message,
}
use lets_proxy.Cache.Memory.{memory_bytes}
use lets_proxy.Cert.Description.{key_rsa, cert_description_from_domain, CertDescription}
use lets_proxy.Cert.State.{empty_cert_state, finish_issue, finish_locked}
use lets_proxy.Manager.Hello.{ClientHello}
use lets_proxy.Base.{ℕ, ltb, str_eq, arith, false, ap, ◌∙◌}
use lets_proxy.Base.Dict.{lookup}
use lets_proxy.Cache.Memory.{get}
use lets_proxy.Cache.Lru
use lets_proxy.Cert.Check.{
  is_need_renew, check_keys, valid_cert_tls, valid_cert_der, check_leaf, verify_domains,
}
use lets_proxy.Cert.State.{get_cert}
use lets_proxy.Cert.Description.{
  cut_subdomain, lock_name, key_store_name, cert_store_name, key_string,
}
use lets_proxy.Manager.Storage.{
  is_cert_locked, load_certificate_from_cache, get_certificate_key_bytes, parse_leaf,
}
use lets_proxy.Fixtures.{empty_lru, storage, description}
use lets_proxy.Manager.Serve.{
  search_storage, from_state, from_storage, denied, deferred, World, cert_state_get, state_at,
  search, get_typed_certificate,
}
use lets_proxy.Manager.Serve.Answers.{Source, get_typed_certificate_sound}
use lets_proxy.Manager.Serve.Local.{failed_issue_refuses}
use lets_proxy.Manager.Serve.Renewing.{
  get_typed_certificate_locked, get_typed_certificate-Renews, Renews,
}
use lets_proxy.Fixtures.{
  crypto, cert, host, settings, world, stored_files, locked_files, issue, no_issue,
}

abbrev cd : CertDescription
cd = cert_description_from_domain host key_rsa []

described : cd ≡ description
unfolding cert_description_from_domain cut_subdomain
described = refl

unlocked : is_cert_locked memory_bytes (storage stored_files) description ≡ ok false
unfolding is_cert_locked lock_name get lookup str_eq
unlocked = refl

locked : is_cert_locked memory_bytes (storage locked_files) description ≡ ok true
unfolding is_cert_locked lock_name get lookup str_eq
locked = refl

loaded :
    (now : ℕ)
    → load_certificate_from_cache memory_bytes crypto (storage stored_files) description now
      ≡ valid_cert_tls crypto (some cert) [] false now
unfolding load_certificate_from_cache get_certificate_key_bytes cert_store_name key_store_name
    key_string get lookup str_eq is_cert_locked lock_name parse_leaf
loaded now = refl

found_in_storage :
    (now : ℕ)
    → ltb now 100 ≡ false
    → ltb 1_000_000_000_000_000_000 now ≡ false
    → (search memory_bytes crypto no_issue (world stored_files) description host now).1 ≡ ok cert
unfolding search search_storage from_state from_storage state_at cert_state_get get_cert Lru.get
    lookup valid_cert_tls valid_cert_der check_leaf verify_domains check_keys
found_in_storage now a b = ground (arith, unlocked, loaded now, a, b)

-- The stored certificate is found and served.
served :
    (get_typed_certificate memory_bytes crypto no_issue settings
      (world stored_files)
      host
      key_rsa
      500).1
    ≡ some cert
unfolding get_typed_certificate denied deferred cert_description_from_domain cut_subdomain
    is_need_renew
served = ground (arith, found_in_storage 500 refl refl)

get_typed_certificate_sound_example :
    Source memory_bytes crypto (world stored_files) cd host 500 (λ u. (no_issue u host cd).1) cert
get_typed_certificate_sound_example =
    get_typed_certificate_sound memory_bytes crypto no_issue settings (world stored_files) host
      key_rsa 500 cert served

get_typed_certificate_locked_example :
    (get_typed_certificate memory_bytes crypto no_issue settings
        (world locked_files)
        host
        key_rsa
        500
      ≡ get_typed_certificate memory_bytes crypto issue settings
          (world locked_files)
          host
          key_rsa
          500)
    × ((get_typed_certificate memory_bytes crypto no_issue settings
          (world locked_files)
          host
          key_rsa
          500).0.renewals
        ≡ [])
get_typed_certificate_locked_example =
    get_typed_certificate_locked memory_bytes crypto no_issue issue settings (world locked_files)
      host key_rsa 500 (ap (is_cert_locked memory_bytes (storage locked_files)) described ∙ locked)

abbrev late : ℕ
late = 999_000_000_000_000_000

served_late :
    (get_typed_certificate memory_bytes crypto no_issue settings
      (world stored_files)
      host
      key_rsa
      late).1
    ≡ some cert
unfolding get_typed_certificate denied deferred cert_description_from_domain cut_subdomain
    is_need_renew
served_late = ground (arith, found_in_storage late refl refl, unlocked)

get_typed_certificate-Renews_example :
    Renews memory_bytes crypto
      (get_typed_certificate memory_bytes crypto no_issue settings
        (world stored_files)
        host
        key_rsa
        late)
      []
      (record { need_domain = host; description = description })
      cert
      late
      false
get_typed_certificate-Renews_example =
    get_typed_certificate-Renews memory_bytes crypto no_issue settings (world stored_files) host
      key_rsa late false cert description (sym described) (λ u. refl) unlocked served_late

-- An issue has failed; the storage holds a good certificate.
abbrev after_failure : World memory_bytes
after_failure =
    let w = (cert_state_get memory_bytes (world stored_files) cd).0 in
    record w {
      states =
          (finish_issue empty_cert_state w.contexts none (some (message (text "acme")))).0 ∷ [];
    }

failed_issue_refuses_example :
    get_typed_certificate memory_bytes crypto issue settings after_failure host key_rsa 500
    ≡ ((cert_state_get memory_bytes after_failure cd).0, none, some have_no_cert)
unfolding denied finish_issue finish_locked state_at cert_state_get Lru.get lookup Lru.put
    lets_proxy.Base.Dict.insert Lru.time str_eq lets_proxy.Cert.Description.to_string
    cert_description_from_domain cut_subdomain key_string
failed_issue_refuses_example =
    failed_issue_refuses memory_bytes crypto issue settings after_failure host key_rsa 500
      empty_cert_state after_failure.contexts (message (text "acme")) refl refl refl

-- A challenge by tls-alpn-01, and its certificate.
abbrev hello : ClientHello
hello = record {
  server_name = host;
  supported_protos = text "acme-tls/1" ∷ [];
  signature_schemes = none;
  supported_curves = none;
  cipher_suites = [];
}

abbrev challenged : World memory_bytes
challenged = record (world []) {
  cert_for_domain_authorize = record empty_lru {
    items = (host, record { key = host; value = cert; last_used_time = 0 }) ∷ [];
  };
}

-- ===== src/Manager/Serve/Local.antt =====
-- What the local state makes of a request, in `getCertificate` of internal/cert_manager/manager.go.
use lets_proxy.Base.{
  ℕ, ◌≡◌, List, Option, none, some, Bool, true, false, Str, arith, Error, Result, ok, err,
  have_no_cert, is_cache_miss, is_some, Option-cases, inl, inr, Result-cases, is_result, is_error,
  if◌then◌else◌,
}
use lets_proxy.Cache.Bytes.{Bytes}
use lets_proxy.Cert.Check.{Certificate, Crypto}
use lets_proxy.Cert.Description.{
  KeyType, key_rsa, key_ecdsa, other_key, CertDescription, cert_description_from_domain,
}
use lets_proxy.Cert.State.{CertState, Contexts, finish_issue, finish_locked, checked_cert, get_cert}
use lets_proxy.Manager.Hello.{ClientHello, filter_tls_hello, supports_ecdsa}
use lets_proxy.Manager.Serve.{
  Settings, World, cert_state_get, state_at, from_state, search, deferred, denied,
  get_typed_certificate, get_certificate, try_types, handle_tls_alpn,
}

module _ (bytes : Bytes) (crypto : Crypto) where
  abbrev Issuer : Type 0
  Issuer = World bytes → Str → CertDescription → World bytes × Result Certificate

  -- After an issue that failed (with any error but a cache miss), every request that finds that
  -- state is refused: neither the storage is read nor an issue tried, whatever the storage holds.
  pub failed_issue_refuses :
      (issue : Issuer) (settings : Settings) (w : World bytes) (need_domain : Str)
      (cert_type : KeyType) (now : ℕ) (s : CertState) (ctxs : Contexts) (e : Error)
      → denied settings cert_type ≡ none
      → is_cache_miss e ≡ false
      → (let cd = cert_description_from_domain need_domain cert_type settings.auto_subdomains in
          let (w', address) = cert_state_get bytes w cd in state_at bytes w' address)
        ≡ (finish_issue s ctxs none (some e)).0
      → get_typed_certificate bytes crypto issue settings w need_domain cert_type now ≡ (
        (cert_state_get bytes w
            (cert_description_from_domain need_domain cert_type settings.auto_subdomains)).0,
        none,
        some have_no_cert,
      )
  unfolding get_typed_certificate search from_state deferred finish_issue finish_locked get_cert
      checked_cert
  failed_issue_refuses issue settings w need_domain cert_type now s ctxs e allowed other at_state =
      ground arith

  -- No error is answered only beside a certificate.
  abbrev Answers : World bytes × Option Certificate × Option Error → Type 0
  Answers r = r.2 ≡ none → is_some r.1 ≡ true

  deferred-Answers :
      (w : World bytes) (cd : CertDescription) (need_domain : Str) (now : ℕ)
      (result : Result Certificate) (checked : Option Bool)
      → Answers (deferred bytes w cd need_domain now result checked)
  unfolding deferred
  deferred-Answers w cd need_domain now (err e) checked h = cc
  deferred-Answers w cd need_domain now (ok c) checked h = ground arith

  handle_tls_alpn-Answers :
      (w : World bytes) (need_domain : Str) → Answers (handle_tls_alpn bytes w need_domain)
  unfolding handle_tls_alpn
  handle_tls_alpn-Answers w need_domain h = ground arith

  module _ (issue : Issuer) (settings : Settings) where
    get_typed_certificate-Answers :
        (w : World bytes) (need_domain : Str) (cert_type : KeyType) (now : ℕ)
        → Answers (get_typed_certificate bytes crypto issue settings w need_domain cert_type now)
    unfolding get_typed_certificate
    get_typed_certificate-Answers w need_domain cert_type now h =
        let cd = cert_description_from_domain need_domain cert_type settings.auto_subdomains in
        let (w', result, checked) = search bytes crypto issue w cd need_domain now in
        ground (arith, deferred-Answers w' cd need_domain now result checked)

    try_types-Answers :
        (w : World bytes) (need_domain : Str) (cert_type : KeyType) (now : ℕ)
        → Answers (try_types bytes crypto issue settings w need_domain cert_type now)
    unfolding try_types
    try_types-Answers w need_domain key_rsa now h =
        get_typed_certificate-Answers w need_domain key_rsa now h
    try_types-Answers w need_domain (other_key s) now h =
        get_typed_certificate-Answers w need_domain (other_key s) now h
    try_types-Answers w need_domain key_ecdsa now h =
        let (w', _, _) =
          get_typed_certificate bytes crypto issue settings w need_domain key_ecdsa now in
        ground (
          arith,
          get_typed_certificate-Answers w need_domain key_ecdsa now,
          get_typed_certificate-Answers w' need_domain key_rsa now,
        )

  get_certificate-Answers :
      (issue : Issuer) (settings : Settings) (normalize_domain : Str → Result Str)
      (insecure : List ℕ) (w : World bytes) (hello : ClientHello) (now : ℕ)
      → Answers (get_certificate bytes crypto issue settings normalize_domain insecure w hello now)
  unfolding get_certificate
  get_certificate-Answers issue settings normalize_domain insecure w hello now h =
      let hello' = filter_tls_hello settings.allow_insecure_tls_chipers insecure hello in
      let cert_type = if supports_ecdsa hello' then key_ecdsa else key_rsa in
      elim (Result-cases (normalize_domain hello'.server_name)) [
        | is_error e q ↦ ground arith
        | is_result d q ↦
            ground (
              arith,
              handle_tls_alpn-Answers w d,
              try_types-Answers issue settings w d cert_type now,
            )
      ]

  -- An answer without an error is an answer with a certificate, for every hello.
  pub get_certificate_answers :
      (issue : Issuer) (settings : Settings) (normalize_domain : Str → Result Str)
      (insecure : List ℕ) (w : World bytes) (hello : ClientHello) (now : ℕ)
      → (get_certificate bytes crypto issue settings normalize_domain insecure w hello now).2 ≡ none
      → (c : Certificate) × ((get_certificate bytes crypto issue settings normalize_domain insecure
            w hello now).1
          ≡ some c)
  unfolding get_certificate
  get_certificate_answers issue settings normalize_domain insecure w hello now h =
      let r = get_certificate bytes crypto issue settings normalize_domain insecure w hello now in
      elim (Option-cases r.1) [
        | inr found ↦ found
        | inl nothing ↦ absurd (
            let e =
              get_certificate-Answers issue settings normalize_domain insecure w hello now h in
            ground arith)
      ]

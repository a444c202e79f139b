-- ===== src/Manager/Serve.antt =====
-- internal/cert_manager/manager.go: `getCertificate` and `GetCertificate`. The storage, the checks of
-- x509 and the issue of a certificate are parameters; `now` is the reading of the clock, one for a
-- call. The logger's `DPanic` only logs.
pub mod Local
pub mod Answers
pub mod Renewing
mod Tests
use lets_proxy.Base.{
  ◌≡◌, refl, ◌⊎◌, inl, inr, ℕ, List, [], ◌∷◌, ◌++◌, Option, none, some, Bool, true, false, not,
  ◌||◌, ◌&&◌, Str, if◌then◌else◌, Error, have_no_cert, rsa_denied, ecdsa_denied, cert_type_unknown,
  is_cache_miss, is_cert_expired, Result, ok, err, length, get_elem?, set, message, text,
}
use lets_proxy.Cache.Bytes.{Bytes}
use lets_proxy.Cache.Lru.{Lru, new_memory_value_lru}
use lets_proxy.Cache.Lru
use lets_proxy.Cert.Check.{
  Certificate, Crypto, is_need_renew, is_tls_alpn01_hello, valid_cert_tls, valid_cert_der,
}
use lets_proxy.Cert.Description.{
  KeyType, key_rsa, key_ecdsa, other_key, CertDescription, to_string, cert_description_from_domain,
}
use lets_proxy.Cert.State.{CertState, Contexts, empty_cert_state, get_cert, cert_set, get_use_as_is}
use lets_proxy.Manager.Hello.{ClientHello, filter_tls_hello, supports_ecdsa}
use lets_proxy.Manager.Storage.{is_cert_locked, load_certificate_from_cache}

-- The settings of `Manager` that the two methods read.
pub record Settings : Type 0 where
  pub auto_subdomains : List Str
  pub allow_rsa_cert : Bool
  pub allow_ecdsa_cert : Bool
  pub allow_insecure_tls_chipers : Bool

-- A background renewal: the arguments of `renewCertInBackground`.
pub record Renewal : Type 0 where
  pub need_domain : Str
  pub description : CertDescription

-- The `switch` on the key type: the error of a type that is not allowed.
pub denied : Settings → KeyType → Option Error
denied settings key_rsa = if settings.allow_rsa_cert then none else some rsa_denied
denied settings key_ecdsa = if settings.allow_ecdsa_cert then none else some ecdsa_denied
denied settings (other_key _) = some cert_type_unknown

-- The outcome of a source of certificates: a certificate, an error that ends the search, or none.
pub data Found : Type 0 where
  found : Certificate → Found
  refused : Found
  missing : Found

-- To split on an outcome and keep the equation.
pub Found-cases : (f : Found) → ((c : Certificate) × (f ≡ found c)) ⊎ (f ≡ refused) ⊎ (f ≡ missing)
Found-cases (found c) = inl (c, refl)
Found-cases refused = inr (inl refl)
Found-cases missing = inr (inr refl)

module _ (bytes : Bytes) where
  -- What the manager keeps: the storage; the certificate states, each at its address, and the cache
  -- of their addresses; the certificates for tls-alpn-01; the renewals that were started.
  pub record World : Type 0 where
    pub store : bytes.Store
    pub states : List CertState
    pub cert_state : Lru ℕ
    pub contexts : Contexts
    pub cert_for_domain_authorize : Lru Certificate
    pub renewals : List Renewal

  -- `certStateGet`: the address of the state, made and put in the cache if it is not there.
  unfoldable pub cert_state_get : World → CertDescription → World × ℕ
  cert_state_get w cd =
      let (cache, answer) = Lru.get w.cert_state (to_string cd) in
      elim answer [
        | ok address ↦ (record w { cert_state = cache }, address)
        | err _ ↦
            let address = length w.states in
            (
              record w {
                states = w.states ++ empty_cert_state ∷ [];
                cert_state = Lru.put cache (to_string cd) address;
              },
              address,
            )
      ]

  unfoldable pub state_at : World → ℕ → CertState
  state_at w address = elim (get_elem? w.states address) [ some s ↦ s | none ↦ empty_cert_state ]

  -- `go m.renewCertInBackground(...)`, if the certificate is not locked.
  pub start_renewal : World → Str → CertDescription → Bool → World
  start_renewal w need_domain cd locked = if locked then w else record w {
    renewals = w.renewals ++ record { need_domain = need_domain; description = cd } ∷ [];
  }

  unfoldable pub handle_tls_alpn : World → Str → World × Option Certificate × Option Error
  handle_tls_alpn w need_domain =
      let (cache, answer) = Lru.get w.cert_for_domain_authorize need_domain in
      let w' = record w { cert_for_domain_authorize = cache } in
      elim answer [ ok cert ↦ (w', some cert, none) | err _ ↦ (w', none, some have_no_cert) ]

  -- The deferred function of `getCertificate`. An error of the check of the lock becomes the
  -- error of the method, beside its certificate.
  pub deferred :
      World
      → CertDescription
      → Str
      → ℕ
      → Result Certificate
      → Option Bool
      → World × Option Certificate × Option Error
  deferred w cd need_domain now (err e) checked = (w, none, some e)
  deferred w cd need_domain now (ok c) checked =
      if is_need_renew (some c) now
      then elim checked [
        | some locked ↦ (start_renewal w need_domain cd locked, some c, none)
        | none ↦ elim (is_cert_locked bytes w.store cd) [
          | err e ↦ (w, some c, some e)
          | ok locked ↦ (start_renewal w need_domain cd locked, some c, none)
        ]
      ]
      else (w, some c, none)

  module _ (crypto : Crypto) where
    -- The local state.
    pub from_state : CertState → Str → ℕ → Found
    from_state s need_domain now =
        let (cert, last_error) = get_cert s in
        elim cert [
          | some c ↦
              elim (valid_cert_tls crypto (some c) (need_domain ∷ []) (get_use_as_is s) now) [
                | ok c' ↦ found c'
                | err e ↦ if is_cache_miss e then missing else refused
              ]
          | none ↦ elim last_error [
            | none ↦ missing
            | some e ↦ if is_cache_miss e then missing else refused
          ]
        ]

    abbrev retry_error : Error → Found
    retry_error e = if is_cache_miss e || is_cert_expired e then missing else refused

    -- The storage.
    pub from_storage : bytes.Store → CertDescription → Str → Bool → ℕ → Found
    from_storage store cd need_domain locked now =
        elim (load_certificate_from_cache bytes crypto store cd now) [
          | err e ↦ retry_error e
          | ok cert ↦
              elim (valid_cert_der crypto (need_domain ∷ []) cert.certificate cert.private_key
                locked now) [ ok c ↦ found c | err e ↦ retry_error e ]
        ]

    module _ (issue_new_cert : World → Str → CertDescription → World × Result Certificate) where
      -- The body of `getCertificate` behind the local state: the new world, what is returned, and
      -- the lock as it was read (`none` if the check was not reached).
      pub search_storage :
          World → ℕ → CertDescription → Str → ℕ → World × Result Certificate × Option Bool
      search_storage w address cd need_domain now = elim (is_cert_locked bytes w.store cd) [
        | err e ↦ (w, err have_no_cert, some false)
        | ok locked ↦ elim (from_storage w.store cd need_domain locked now) [
          | found c ↦ (
            record w {
              states = set w.states address (cert_set (state_at w address) locked (some c));
            },
            ok c,
            some locked,
          )
          | refused ↦ (w, err have_no_cert, some locked)
          | missing ↦
              let (w', issued) = issue_new_cert w need_domain cd in
              if locked then (w, err have_no_cert, some locked) else (w', issued, some locked)
        ]
      ]

      pub search : World → CertDescription → Str → ℕ → World × Result Certificate × Option Bool
      search w cd need_domain now =
          let (w1, address) = cert_state_get w cd in
          elim (from_state (state_at w1 address) need_domain now) [
            | found c ↦ (w1, ok c, none)
            | refused ↦ (w1, err have_no_cert, none)
            | missing ↦ search_storage w1 address cd need_domain now
          ]

      -- `getCertificate`
      pub get_typed_certificate :
          Settings → World → Str → KeyType → ℕ → World × Option Certificate × Option Error
      get_typed_certificate settings w need_domain cert_type now =
          elim (denied settings cert_type) [
            | some e ↦ (w, none, some e)
            | none ↦
                let cd =
                  cert_description_from_domain need_domain cert_type settings.auto_subdomains in
                let (w', result, checked) = search w cd need_domain now in
                deferred w' cd need_domain now result checked
          ]

      -- The attempts of `GetCertificate`: ECDSA if the client supports it, then RSA.
      pub try_types :
          Settings → World → Str → KeyType → ℕ → World × Option Certificate × Option Error
      try_types settings w need_domain key_ecdsa now =
          let (w', cert, e) = get_typed_certificate settings w need_domain key_ecdsa now in
          elim e [
            | none ↦ (w', cert, none)
            | some _ ↦ get_typed_certificate settings w' need_domain key_rsa now
          ]
      try_types settings w need_domain key_rsa now =
          get_typed_certificate settings w need_domain key_rsa now
      try_types settings w need_domain (other_key s) now =
          get_typed_certificate settings w need_domain (other_key s) now

      -- `GetCertificate`; `normalize_domain` is that of internal/domain.
      pub get_certificate :
          Settings
          → (Str → Result Str)
          → List ℕ
          → World
          → ClientHello
          → ℕ
          → World × Option Certificate × Option Error
      get_certificate settings normalize_domain insecure w hello now =
          let hello = filter_tls_hello settings.allow_insecure_tls_chipers insecure hello in
          elim (normalize_domain hello.server_name) [
            | err _ ↦ (w, none, some have_no_cert)
            | ok need_domain ↦
                if is_tls_alpn01_hello hello.supported_protos
                then handle_tls_alpn w need_domain
                else try_types settings w need_domain
                    (if supports_ecdsa hello then key_ecdsa else key_rsa) now
          ]

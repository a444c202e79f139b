-- ===== src/Cert/Check/Tests.antt =====
-- internal/cert_manager/helpers.go on a concrete certificate.
use lets_proxy.Base.{◌≡◌, ◌↔◌, refl, ok, some, [], ◌∷◌, false, true}
use lets_proxy.Fixtures.{crypto, cert, host}
use lets_proxy.Cert.Check.{valid_cert_tls, valid_cert_der, is_need_renew, is_tls_alpn01_hello}
use lets_proxy.Cert.Check.Valid.{IsServable, Parts, valid_cert_tls_iff, valid_cert_der_sound}

accepted : valid_cert_tls crypto (some cert) (host ∷ []) false 500 ≡ ok cert
unfolding valid_cert_tls lets_proxy.Cert.Check.check_leaf lets_proxy.Cert.Check.check_keys
    lets_proxy.Cert.Check.verify_domains
accepted = refl

due : is_need_renew (some cert) 999_000_000_000_000_000 ≡ true
unfolding is_need_renew
due = refl

valid_cert_tls_iff_example :
    (valid_cert_tls crypto (some cert) (host ∷ []) false 500 ≡ ok cert)
    ↔ ((some cert ≡ some cert) × IsServable crypto cert (host ∷ []) false 500)
valid_cert_tls_iff_example = valid_cert_tls_iff crypto (some cert) cert (host ∷ []) false 500

valid_cert_der_sound_example :
    Parts crypto cert cert.certificate cert.private_key (host ∷ []) false 500
unfolding valid_cert_der valid_cert_tls lets_proxy.Cert.Check.check_leaf
    lets_proxy.Cert.Check.check_keys lets_proxy.Cert.Check.verify_domains
valid_cert_der_sound_example = valid_cert_der_sound crypto cert cert (host ∷ []) false 500 refl

-- ===== src/Manager/Hello/Tests.antt =====
-- The hello of a concrete client, for internal/cert_manager/manager.go.
use lets_proxy.Base.{◌≡◌, ◌↔◌, refl, ℕ, [], ◌∷◌, none, some, true, In, Some, text}
use lets_proxy.Manager.Hello.{
  ClientHello, ecdsa_schemes, curve_p256, ecdsa_suites, is_one_of, supports_ecdsa, allows,
  some_fits,
}
use lets_proxy.Manager.Hello.Ecdsa.{Allows, supports_ecdsa_iff}

abbrev modern : ClientHello
modern = record {
  server_name = text "a.com";
  supported_protos = [];
  signature_schemes = some (0x0403 ∷ []);
  supported_curves = none;
  cipher_suites = 5 ∷ 0xc02b ∷ [];
}

modern_supports : supports_ecdsa modern ≡ true
unfolding supports_ecdsa allows some_fits is_one_of
modern_supports = refl

supports_ecdsa_iff_example : (supports_ecdsa modern ≡ true) ↔ (
    Allows (λ a. In a ecdsa_schemes) modern.signature_schemes
    × Allows (λ c. c ≡ curve_p256) modern.supported_curves
    × Some (λ s. In s ecdsa_suites) modern.cipher_suites)
supports_ecdsa_iff_example = supports_ecdsa_iff modern

-- TLS_RSA_WITH_RC4_128_SHA
abbrev rc4 : ℕ
rc4 = 5

-- ===== src/Manager/Hello.antt =====
-- internal/cert_manager/manager.go: what the client's hello asks for.
pub mod Ecdsa
mod Tests
use lets_proxy.Base.{
  ℕ, List, [], ◌∷◌, Option, none, some, Bool, true, false, ◌||◌, ◌&&◌, not, Str, ◌==◌,
  if◌then◌else◌, any, keep,
}

-- `tls.ClientHelloInfo`; a slice that may be nil is an `Option`.
pub record ClientHello : Type 0 where
  pub server_name : Str
  pub supported_protos : List Str
  pub signature_schemes : Option (List ℕ)
  pub supported_curves : Option (List ℕ)
  pub cipher_suites : List ℕ

-- The signature schemes with ECDSA: SHA-1, P-256, P-384 and P-521.
abbrev pub ecdsa_schemes : List ℕ
ecdsa_schemes = 0x0203 ∷ 0x0403 ∷ 0x0503 ∷ 0x0603 ∷ []

abbrev pub curve_p256 : ℕ
curve_p256 = 23

-- The cipher suites with ECDHE_ECDSA of the `switch`.
abbrev pub ecdsa_suites : List ℕ
ecdsa_suites = 0xc007 ∷ 0xc009 ∷ 0xc00a ∷ 0xc023 ∷ 0xc02b ∷ 0xc02c ∷ 0xcca9 ∷ []

pub is_one_of : List ℕ → ℕ → Bool
is_one_of xs a = any (λ x. x == a) xs

-- A loop that stops at the first item that fits: the flag that it leaves.
unfoldable pub some_fits : (ℕ → Bool) → List ℕ → Bool
some_fits p [] = false
some_fits p (x ∷ xs) = if p x then true else some_fits p xs

-- The check of a list that the client may leave out.
unfoldable pub allows : (ℕ → Bool) → Option (List ℕ) → Bool
allows p none = true
allows p (some xs) = some_fits p xs

unfoldable pub supports_ecdsa : ClientHello → Bool
supports_ecdsa hello =
    if not (allows (is_one_of ecdsa_schemes) hello.signature_schemes)
    then false
    else if not (allows (λ c. c == curve_p256) hello.supported_curves)
    then false
    else some_fits (is_one_of ecdsa_suites) hello.cipher_suites

-- The loop of `filterTlsHello`; `insecure` are the suites of `tls.InsecureCipherSuites`.
unfoldable pub secure_suites : List ℕ → List ℕ → List ℕ
secure_suites insecure [] = []
secure_suites insecure (suite ∷ suites) =
    let rest = secure_suites insecure suites in
    if is_one_of insecure suite then rest else suite ∷ rest

unfoldable pub filter_tls_hello : Bool → List ℕ → ClientHello → ClientHello
filter_tls_hello allow_insecure insecure hello =
    if allow_insecure
    then hello
    else record hello { cipher_suites = secure_suites insecure hello.cipher_suites }

-- ===== src/Manager/Hello/Ecdsa.antt =====
-- `supportsECDSA` and `filterTlsHello` of internal/cert_manager/manager.go, by what they mean.
use lets_proxy.Base.{
  ap, ℕ, ◌≡◌, refl, ◌↔◌, ◌⊎◌, List, [], ◌∷◌, Option, none, some, Bool, true, false, ◌||◌, not, ◌==◌,
  ==_iff, keep, In, In-keep, Some, arith,
}
use lets_proxy.Manager.Hello.{
  ClientHello, ecdsa_schemes, curve_p256, ecdsa_suites, is_one_of, some_fits, allows,
  supports_ecdsa, secure_suites, filter_tls_hello,
}

is_one_of_iff : (xs : List ℕ) (a : ℕ) → (is_one_of xs a ≡ true) ↔ In a xs
unfolding is_one_of
is_one_of_iff [] a = ground arith
is_one_of_iff (x ∷ xs) a = ground (arith, is_one_of_iff xs a, ==_iff x a)

some_fits_iff :
    (p : ℕ → Bool) (P : ℕ → Type 0)
    → ((a : ℕ) → (p a ≡ true) ↔ P a)
    → (xs : List ℕ) → (some_fits p xs ≡ true) ↔ Some P xs
unfolding some_fits
some_fits_iff p P h [] = ground arith
some_fits_iff p P h (x ∷ xs) = ground (arith, some_fits_iff p P h xs, h x)

-- A list that the client may leave out, and then anything goes.
abbrev pub Allows : (ℕ → Type 0) → Option (List ℕ) → Type 0
Allows P none = Unit
Allows P (some xs) = Some P xs

allows_iff :
    (p : ℕ → Bool) (P : ℕ → Type 0)
    → ((a : ℕ) → (p a ≡ true) ↔ P a)
    → (o : Option (List ℕ)) → (allows p o ≡ true) ↔ Allows P o
unfolding allows
allows_iff p P h none = ground arith
allows_iff p P h (some xs) = some_fits_iff p P h xs

-- A client supports ECDSA exactly if it offers a scheme with ECDSA (or leaves out the schemes), the
-- curve P-256 (or leaves out the curves), and a cipher suite with ECDHE_ECDSA.
pub supports_ecdsa_iff :
    (hello : ClientHello)
    → (supports_ecdsa hello ≡ true) ↔ (
        Allows (λ a. In a ecdsa_schemes) hello.signature_schemes
        × Allows (λ c. c ≡ curve_p256) hello.supported_curves
        × Some (λ s. In s ecdsa_suites) hello.cipher_suites)
unfolding supports_ecdsa
supports_ecdsa_iff hello = ground (
  arith,
  allows_iff (is_one_of ecdsa_schemes) (λ a. In a ecdsa_schemes) (is_one_of_iff ecdsa_schemes)
      hello.signature_schemes,
  allows_iff (λ c. c == curve_p256) (λ c. c ≡ curve_p256) (λ c. ==_iff c curve_p256)
      hello.supported_curves,
  some_fits_iff (is_one_of ecdsa_suites) (λ s. In s ecdsa_suites) (is_one_of_iff ecdsa_suites)
      hello.cipher_suites,
)

secure_suites-keep :
    (insecure suites : List ℕ)
    → secure_suites insecure suites ≡ keep (λ s. not (is_one_of insecure s)) suites
unfolding secure_suites
secure_suites-keep insecure [] = refl
secure_suites-keep insecure (suite ∷ suites) = ground (arith, secure_suites-keep insecure suites)

In-secure_suites :
    (insecure suites : List ℕ) (s : ℕ)
    → In s (secure_suites insecure suites) ↔ (In s suites × ¬ In s insecure)
In-secure_suites insecure suites s =
    rw (secure_suites-keep insecure suites)
      (ground (arith, In-keep (λ s. not (is_one_of insecure s)) s suites, is_one_of_iff insecure s))

-- Unless insecure suites are allowed, the suites of a filtered hello are those of the hello that are
-- not insecure, in their order; all else of the hello stays. If they are allowed, all of it stays.
pub filter_tls_hello_lem :
    (allow : Bool) (insecure : List ℕ) (hello : ClientHello) (s : ℕ)
    → (In s (filter_tls_hello allow insecure hello).cipher_suites
        ↔ (In s hello.cipher_suites × ((allow ≡ true) ⊎ ¬ In s insecure)))
      × (filter_tls_hello allow insecure hello ≡ record hello {
        cipher_suites = keep (λ s. allow || not (is_one_of insecure s)) hello.cipher_suites;
      })
unfolding filter_tls_hello
filter_tls_hello_lem true insecure hello s = ground (arith, keep_all hello.cipher_suites)
  where
    keep_all : (xs : List ℕ) → keep (λ _. true) xs ≡ xs
    keep_all [] = refl
    keep_all (x ∷ xs) = ap (◌∷◌ x) (keep_all xs)
filter_tls_hello_lem false insecure hello s = ground (
  arith,
  In-secure_suites insecure hello.cipher_suites s,
  secure_suites-keep insecure hello.cipher_suites,
)

-- ===== src/Fixtures.antt =====
-- Concrete data that the tests of the modules share.
use lets_proxy.Base.{List, [], ◌∷◌, none, some, true, false, Str, text, Result, ok, err, cache_miss}
use lets_proxy.Cert.Check.{X509, Certificate, rsa_private, rsa_public, Crypto}
use lets_proxy.Cert.Description.{CertDescription, key_rsa}
use lets_proxy.Cache.Memory.{MemoryCache, memory_bytes}
use lets_proxy.Manager.Serve.{World, Settings}
use lets_proxy.Cache.Lru.{Lru}

-- A certificate of the key 7 for example.com, good between the instants 100 and 10^18.
abbrev pub leaf : X509
leaf = record {
  public_key = some (rsa_public 7);
  not_before = 100;
  not_after = 1_000_000_000_000_000_000;
  dns_names = text "example.com" ∷ [];
}

abbrev pub cert : Certificate
cert = record {
  certificate = text "DER" ∷ [];
  private_key = some (rsa_private 7);
  leaf = some leaf;
}

abbrev pub head_or_empty : List Str → Str
head_or_empty [] = []
head_or_empty (b ∷ _) = b

-- A library of one certificate.
abbrev pub crypto : Crypto
crypto = record {
  verify_hostname = λ _ _. none;
  parse_certificates = λ _. ok (leaf ∷ []);
  parse_certificate = λ _. ok leaf;
  x509_key_pair =
      λ c _. ok (record { certificate = c ∷ []; private_key = some (rsa_private 7); leaf = none });
  encode_certificates = head_or_empty;
  encode_private_key = λ _. ok (text "KEY");
  encode_meta = λ _. text "META";
}

abbrev pub description : CertDescription
description = record { main_domain = text "example.com"; key_type = key_rsa; subdomains = [] }

abbrev pub host : Str
host = text "example.com"

abbrev pub settings : Settings
settings = record {
  auto_subdomains = [];
  allow_rsa_cert = true;
  allow_ecdsa_cert = true;
  allow_insecure_tls_chipers = false;
}

abbrev pub empty_lru {ℓ} : {V : Type ℓ} → Lru V
empty_lru = record {
  max_size = 10;
  clean_count = 3;
  last_time = 0;
  items = [];
  cleaners = 0;
  renumberers = 0;
}

-- A storage with the files of a map.
abbrev pub storage : List (Str × Str) → MemoryCache
storage files = record { m = files }

abbrev pub stored_files : List (Str × Str)
stored_files =
    (text "example.com.rsa.cer", text "DER") ∷ (text "example.com.rsa.key", text "KEY") ∷ []

abbrev pub locked_files : List (Str × Str)
locked_files = (text "example.com.lock", text "x") ∷ stored_files

-- A manager with these files and no certificate state.
abbrev pub world : List (Str × Str) → World memory_bytes
world files = record {
  store = storage files;
  states = [];
  cert_state = empty_lru;
  contexts = record { made = 0; done = [] };
  cert_for_domain_authorize = empty_lru;
  renewals = [];
}

-- An issue that fails, and one that comes to the certificate.
abbrev pub no_issue :
    World memory_bytes → Str → CertDescription → World memory_bytes × Result Certificate
no_issue w _ _ = (w, err cache_miss)

abbrev pub issue :
    World memory_bytes → Str → CertDescription → World memory_bytes × Result Certificate
issue w _ _ = (w, ok cert)

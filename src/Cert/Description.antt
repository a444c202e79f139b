-- ===== src/Cert/Description.antt =====
-- internal/cert_manager/cert_desctiption.go: the certificate that serves a domain, and the names
-- under which its parts are stored.
pub mod Names
mod Tests
use lets_proxy.Base.{
  List, [], ◌∷◌, ◌++◌, map, Str, text, Bool, true, false, if◌then◌else◌, has_prefix, trim_prefix,
}

-- `KeyType`: a string, of which the program declares two values (manager.go).
pub data KeyType : Type 0 where
  key_rsa : KeyType
  key_ecdsa : KeyType
  other_key : Str → KeyType

unfoldable pub key_string : KeyType → Str
key_string key_rsa = text "rsa"
key_string key_ecdsa = text "ecdsa"
key_string (other_key s) = s

pub record CertDescription : Type 0 where
  pub main_domain : Str
  pub key_type : KeyType
  pub subdomains : List Str

abbrev dot : Str
dot = text "."

unfoldable pub cert_store_name : CertDescription → Str
cert_store_name n = n.main_domain ++ dot ++ key_string n.key_type ++ text ".cer"

unfoldable pub key_store_name : CertDescription → Str
key_store_name n = n.main_domain ++ dot ++ key_string n.key_type ++ text ".key"

unfoldable pub lock_name : CertDescription → Str
lock_name n = n.main_domain ++ text ".lock"

unfoldable pub meta_store_name : CertDescription → Str
meta_store_name n = n.main_domain ++ dot ++ key_string n.key_type ++ text ".json"

-- `String`, the key of the local state.
unfoldable pub to_string : CertDescription → Str
to_string n = n.main_domain ++ dot ++ key_string n.key_type

unfoldable pub domain_names : CertDescription → List Str
domain_names n = n.main_domain ∷ map (λ subdomain. subdomain ++ n.main_domain) n.subdomains

-- The loop of `CertDescriptionFromDomain`: the first subdomain that fits is cut off.
unfoldable pub cut_subdomain : Str → List Str → Str
cut_subdomain main_domain [] = main_domain
cut_subdomain main_domain (subdomain ∷ rest) =
    if has_prefix main_domain subdomain
    then trim_prefix main_domain subdomain
    else cut_subdomain main_domain rest

unfoldable pub cert_description_from_domain : Str → KeyType → List Str → CertDescription
cert_description_from_domain domain key_type auto_subdomains = record {
  main_domain = cut_subdomain domain auto_subdomains;
  key_type = key_type;
  subdomains = auto_subdomains;
}

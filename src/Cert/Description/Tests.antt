-- ===== src/Cert/Description/Tests.antt =====
-- internal/cert_manager/cert_desctiption.go on concrete domains.
use lets_proxy.Base.{◌≢◌, text, Str, List, [], ◌∷◌}
use lets_proxy.Fixtures.{description}
use lets_proxy.Cert.Description.{cert_store_name, key_store_name, lock_name, meta_store_name}
use lets_proxy.Cert.Description.Names.{names_disjoint}

abbrev www : List Str
www = text "www." ∷ []

names_disjoint_example :
    (cert_store_name description ≢ key_store_name description)
    × (cert_store_name description ≢ lock_name description)
    × (cert_store_name description ≢ meta_store_name description)
    × (key_store_name description ≢ lock_name description)
    × (key_store_name description ≢ meta_store_name description)
    × (lock_name description ≢ meta_store_name description)
names_disjoint_example = names_disjoint description description

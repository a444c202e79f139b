-- ===== src/Cert/Description/Names.antt =====
-- The certificate of internal/cert_manager/cert_desctiption.go names the domain that it is for, and
-- the names of its parts do not collide.
use lets_proxy.Base.{
  ◌≡◌, refl, sym, ◌∙◌, length, some, some-injective, ap, subst, ℕ, ◌≢◌, inl, inr, List, [], ◌∷◌,
  ◌++◌, map, Str, text, In, true, false, has_prefix, str_eq, arith, Bool-cases, append-trim_prefix,
  In-map, get_last?, get_last?-append, append_inj_right, ◌⊎◌,
}
use mathlib.Core.List.{append_assoc}
use lets_proxy.Cert.Description.{
  KeyType, key_rsa, key_ecdsa, other_key, key_string, CertDescription, cert_store_name,
  key_store_name, lock_name, meta_store_name, to_string, domain_names, cut_subdomain,
  cert_description_from_domain,
}

cut_subdomain-cases :
    (domain : Str) (subs : List Str)
    → (cut_subdomain domain subs ≡ domain)
      ⊎ ((s : Str) × In s subs × (s ++ cut_subdomain domain subs ≡ domain))
unfolding cut_subdomain
cut_subdomain-cases domain [] = inl refl
cut_subdomain-cases domain (s ∷ subs) = elim (Bool-cases (has_prefix domain s)) [
  | inl cut ↦ inr (s, inl refl, rw cut (append-trim_prefix domain s cut))
  | inr uncut ↦ elim (cut_subdomain-cases domain subs) [
    | inl e ↦ inl (rw uncut e)
    | inr (t, m, e) ↦ inr (t, inr m, rw uncut e)
  ]
]

-- The certificate that is looked up or issued for a domain names that domain.
pub domain_names-from_domain :
    (domain : Str) (key_type : KeyType) (subs : List Str)
    → In domain (domain_names (cert_description_from_domain domain key_type subs))
unfolding domain_names cert_description_from_domain
domain_names-from_domain domain key_type subs = elim (cut_subdomain-cases domain subs) [
  | inl e ↦ inl (sym e)
  | inr (s, m, e) ↦
      let main = cut_subdomain domain subs in
      inr (subst (λ x. In x (map (λ t. t ++ main) subs)) e (In-map (λ t. t ++ main) s subs m))
]

-- One of the two key types that the program declares.
abbrev pub IsDeclared : KeyType → Type 0
IsDeclared (other_key _) = ⊥
IsDeclared _ = Unit

rsa-ne-ecdsa : (m m' : Str) → m ++ text "." ++ text "rsa" ≡ m' ++ text "." ++ text "ecdsa" → ⊥
unfolding str_eq
rsa-ne-ecdsa m m' e =
    let split = sym (append_assoc (m' ++ text ".") (text "ec") (text "dsa")) in
    let (_, q) =
      append_inj_right (m ++ text ".") (m' ++ text "." ++ text "ec") (text "rsa") (text "dsa")
        (e ∙ split) refl in
    let c : true ≡ false = ap (str_eq (text "rsa")) q in cc

before_dot : (m m' k : Str) → m ++ text "." ++ k ≡ m' ++ text "." ++ k → m ≡ m'
before_dot m m' k e =
    let (p, _) = append_inj_right (m ++ text ".") (m' ++ text ".") k k e refl in
    let (q, _) = append_inj_right m m' (text ".") (text ".") p refl in q

to_string_inj_lem :
    (m m' : Str) (k k' : KeyType)
    → IsDeclared k
    → IsDeclared k'
    → m ++ text "." ++ key_string k ≡ m' ++ text "." ++ key_string k'
    → (m ≡ m') × (k ≡ k')
unfolding key_string
to_string_inj_lem m m' key_rsa key_rsa d d' e = (before_dot m m' (text "rsa") e, refl)
to_string_inj_lem m m' key_ecdsa key_ecdsa d d' e = (before_dot m m' (text "ecdsa") e, refl)
to_string_inj_lem m m' key_rsa key_ecdsa d d' e = absurd (rsa-ne-ecdsa m m' e)
to_string_inj_lem m m' key_ecdsa key_rsa d d' e = absurd (rsa-ne-ecdsa m' m (sym e))
to_string_inj_lem m m' (other_key _) k' d d' e = absurd d
to_string_inj_lem m m' key_rsa (other_key _) d d' e = absurd d'
to_string_inj_lem m m' key_ecdsa (other_key _) d d' e = absurd d'

abbrev base : CertDescription → Str
base n = n.main_domain ++ text "." ++ key_string n.key_type

-- Two certificates of the declared key types have the same key in the local state, or the same file
-- name for a part, only if they have the same main domain and the same key type.
pub names_injective :
    (n n' : CertDescription)
    → IsDeclared n.key_type
    → IsDeclared n'.key_type
    → (to_string n ≡ to_string n')
      ⊎ (cert_store_name n ≡ cert_store_name n')
      ⊎ (key_store_name n ≡ key_store_name n')
      ⊎ (meta_store_name n ≡ meta_store_name n')
    → (n.main_domain ≡ n'.main_domain) × (n.key_type ≡ n'.key_type)
unfolding to_string cert_store_name key_store_name meta_store_name
names_injective n n' d d' h =
    to_string_inj_lem n.main_domain n'.main_domain n.key_type n'.key_type d d' (same h)
  where
    strip :
        (t t' : Str)
        → n.main_domain ++ text "." ++ key_string n.key_type ++ t
          ≡ n'.main_domain ++ text "." ++ key_string n'.key_type ++ t'
        → length t ≡ length t'
        → base n ≡ base n'
    strip t t' e l = (append_inj_right (base n) (base n') t t' e l).0

    same :
        (to_string n ≡ to_string n')
          ⊎ (cert_store_name n ≡ cert_store_name n')
          ⊎ (key_store_name n ≡ key_store_name n')
          ⊎ (meta_store_name n ≡ meta_store_name n')
        → base n ≡ base n'
    same (inl e) = e
    same (inr (inl e)) = strip (text ".cer") (text ".cer") e refl
    same (inr (inr (inl e))) = strip (text ".key") (text ".key") e refl
    same (inr (inr (inr e))) = strip (text ".json") (text ".json") e refl

last_bytes_lem :
    (n : CertDescription)
    → (get_last? (cert_store_name n) ≡ some b'r')
      × (get_last? (key_store_name n) ≡ some b'y')
      × (get_last? (meta_store_name n) ≡ some b'n')
      × (get_last? (lock_name n) ≡ some b'k')
unfolding cert_store_name key_store_name lock_name meta_store_name get_last?
last_bytes_lem n = (
  ending b'.' (text "cer"),
  ending b'.' (text "key"),
  ending b'.' (text "json"),
  get_last?-append n.main_domain b'.' (text "lock"),
)
  where
    ending :
        (a : ℕ) (t : Str)
        → get_last? (n.main_domain ++ text "." ++ key_string n.key_type ++ a ∷ t)
          ≡ get_last? (a ∷ t)
    ending a t = get_last?-append (base n) a t

differ : (s t : Str) (a b : ℕ) → get_last? s ≡ some a → get_last? t ≡ some b → a ≢ b → s ≢ t
differ s t a b p q d e = d (some-injective _ _ (sym p ∙ ap get_last? e ∙ q))

-- The names of the four parts of whichever certificates never collide.
pub names_disjoint :
    (n n' : CertDescription)
    → (cert_store_name n ≢ key_store_name n')
      × (cert_store_name n ≢ lock_name n')
      × (cert_store_name n ≢ meta_store_name n')
      × (key_store_name n ≢ lock_name n')
      × (key_store_name n ≢ meta_store_name n')
      × (lock_name n ≢ meta_store_name n')
names_disjoint n n' =
    let (r, y, j, k) = last_bytes_lem n in
    let (r', y', j', k') = last_bytes_lem n' in
    (
      differ _ _ _ _ r y' (omega arith),
      differ _ _ _ _ r k' (omega arith),
      differ _ _ _ _ r j' (omega arith),
      differ _ _ _ _ y k' (omega arith),
      differ _ _ _ _ y j' (omega arith),
      differ _ _ _ _ k j' (omega arith),
    )

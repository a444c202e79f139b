-- ===== src/Cache/Disk/Keys.antt =====
-- `diskCacheSanitizeKey` of internal/cache/disk.go: a key names a file of the directory itself.
use lets_proxy.Base.{
  ℕ, ◌≡◌, ◌≢◌, refl, [], ◌∷◌, Str, All, All-append, All-mono, arith, ◌==◌, Bool-cases, inl, inr,
}
use lets_proxy.Cache.Disk.{replace_byte, placeholder, disk_cache_sanitize_key}

replace_byte-All :
    (P : ℕ → Type 0) (c : ℕ) (p k : Str)
    → All (λ b. (b ≢ c) × P b) p
    → All P k
    → All (λ b. (b ≢ c) × P b) (replace_byte c p k)
unfolding replace_byte
replace_byte-All P c p [] h q = tt
replace_byte-All P c p (b ∷ k) h (r, q) = elim (Bool-cases (b == c)) [
  | inl same ↦ rw same (All-append (λ b. (b ≢ c) × P b) p _ h (replace_byte-All P c p k h q))
  | inr other ↦ rw other ((ground arith, r), replace_byte-All P c p k h q)
]

replace_byte-eq_self : (c : ℕ) (p k : Str) → All (λ b. b ≢ c) k → replace_byte c p k ≡ k
unfolding replace_byte
replace_byte-eq_self c p [] h = refl
replace_byte-eq_self c p (b ∷ k) h = ground (arith, replace_byte-eq_self c p k h.1)

-- The bytes that separate directories, drives and words, and the quotes.
abbrev pub reserved : Str
reserved = b'/' ∷ 92 ∷ b':' ∷ b'"' ∷ 39 ∷ b' ' ∷ []

abbrev pub IsPlain : ℕ → Type 0
IsPlain b = All (λ r. b ≢ r) reserved

All-true : (k : Str) → All (λ (b : ℕ). Unit {0}) k
All-true [] = tt
All-true (b ∷ k) = (tt, All-true k)

sanitize_key-All : (k : Str) → All IsPlain (disk_cache_sanitize_key k)
unfolding disk_cache_sanitize_key
sanitize_key-All k =
    let slash = replace_byte-All (λ b. Unit {0}) b'/' placeholder k (omega arith) (All-true k) in
    let backslash = replace_byte-All _ 92 placeholder _ (omega arith) slash in
    let colon = replace_byte-All _ b':' placeholder _ (omega arith) backslash in
    let double = replace_byte-All _ b'"' placeholder _ (omega arith) colon in
    let single = replace_byte-All _ 39 placeholder _ (omega arith) double in
    let space = replace_byte-All _ b' ' placeholder _ (omega arith) single in
    All-mono (λ b h. (h.1.1.1.1.1.0, (h.1.1.1.1.0, (h.1.1.1.0, (h.1.1.0, (h.1.0, (h.0, tt))))))) _
      space

sanitize_of_IsPlain : (k : Str) → All IsPlain k → disk_cache_sanitize_key k ≡ k
unfolding disk_cache_sanitize_key
sanitize_of_IsPlain k h = rw (
  replace_byte-eq_self b'/' placeholder k (All-mono (λ b p. p.0) k h),
  replace_byte-eq_self 92 placeholder k (All-mono (λ b p. p.1.0) k h),
  replace_byte-eq_self b':' placeholder k (All-mono (λ b p. p.1.1.0) k h),
  replace_byte-eq_self b'"' placeholder k (All-mono (λ b p. p.1.1.1.0) k h),
  replace_byte-eq_self 39 placeholder k (All-mono (λ b p. p.1.1.1.1.0) k h),
  replace_byte-eq_self b' ' placeholder k (All-mono (λ b p. p.1.1.1.1.1.0) k h),
)

-- No byte of a sanitized key is reserved (a slash, a backslash, a colon, a quote or a space);
-- and a key with no reserved byte is kept as it is.
pub sanitize_key-IsPlain :
    (k : Str)
    → All IsPlain (disk_cache_sanitize_key k) × (All IsPlain k → disk_cache_sanitize_key k ≡ k)
sanitize_key-IsPlain k = (sanitize_key-All k, sanitize_of_IsPlain k)

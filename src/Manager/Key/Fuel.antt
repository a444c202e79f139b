-- ===== src/Manager/Key/Fuel.antt =====
-- internal/cert_manager/manager.go: the loop over the PEM blocks ends.
use lets_proxy.Base.{
  has_suffix, ◌≡◌, refl, ap, ok, ℕ, zero, suc, ◌<◌, some, Option-cases, inl, inr, Str, length,
  arith, if◌then◌else◌, ◌||◌, text, str_eq,
}
use lets_proxy.Manager.Key.{KeyCodec, Block, find_key_block, private_key_type}

-- Any fuel beyond the length of the text gives the result that a fuel of one more than it gives, if a
-- decoded block leaves less than there was.
pub find_key_block-enough :
    (codec : KeyCodec) (n m : ℕ) (s : Str)
    → ((s : Str) (b : Block) (rest : Str)
        → codec.decode s ≡ some (b, rest)
        → length rest < length s)
    → length s < n
    → length s < m
    → find_key_block codec n s ≡ find_key_block codec m s
unfolding find_key_block
find_key_block-enough codec zero m s shrinks h k = absurd (omega arith)
find_key_block-enough codec (suc n) zero s shrinks h k = absurd (omega arith)
find_key_block-enough codec (suc n) (suc m) s shrinks h k = elim (Option-cases (codec.decode s)) [
  | inl q ↦ rw (find_key_block, q) refl
  | inr ((b, rest), q) ↦
      let less : length rest < length s = shrinks s b rest q in
      rw (find_key_block, q)
        (ap
          (λ x.
            if (str_eq b.block_type private_key_type
              || has_suffix b.block_type (text " PRIVATE KEY"))
            then ok b.bytes
            else x)
          (find_key_block-enough codec n m rest shrinks (omega arith) (omega arith)))
]

-- ===== src/Base/Text.antt =====
-- Go strings as their bytes, and the functions of Go's `strings` package that the program uses.
use Prim.Native.Char.{code}
use Prim.Native.Nat.{ℕ, ◌-◌}
use Prim.Native.String.{String}
use mathlib.Core.Bool.{Bool, true, false, ◌&&◌}
use mathlib.Core.List.{List, [], ◌∷◌, ◌++◌}
use mathlib.Core.Logic.{◌↔◌}
use mathlib.Core.Option.{Option, none, some}
use mathlib.Core.Path.{◌≡◌, refl, ap, ap₂}
use native.Mathlib.Omega.{arith}
use lets_proxy.Base.Lists.{length, drop, length-append}
use lets_proxy.Base.Tests.{◌==◌, if◌then◌else◌, leb}

abbrev pub Str : Type 0
Str = List ℕ

-- A literal, by its code points: its bytes, if it is ASCII.
abbrev pub text : String → Str
text String.[] = []
text (String.◌∷◌ c s) = code c ∷ text s

unfoldable pub str_eq : Str → Str → Bool
str_eq [] [] = true
str_eq (a ∷ s) (b ∷ t) = (a == b) && str_eq s t
str_eq _ _ = false

pub str_eq→eq : (s t : Str) → str_eq s t ≡ true → s ≡ t
unfolding str_eq
str_eq→eq [] [] h = refl
str_eq→eq (a ∷ s) (b ∷ t) h = ground (arith, str_eq→eq s t)
str_eq→eq [] (b ∷ t) h = cc
str_eq→eq (a ∷ s) [] h = cc

pub str_eq_refl : (s : Str) → str_eq s s ≡ true
unfolding str_eq
str_eq_refl [] = refl
str_eq_refl (a ∷ s) = ground (arith, str_eq_refl s)

pub str_eq_iff : (s t : Str) → (str_eq s t ≡ true) ↔ (s ≡ t)
str_eq_iff s t = (str_eq→eq s t, λ e. rw e (str_eq_refl t))

-- strings.HasPrefix
unfoldable pub has_prefix : Str → Str → Bool
has_prefix s [] = true
has_prefix [] (b ∷ p) = false
has_prefix (a ∷ s) (b ∷ p) = (a == b) && has_prefix s p

-- strings.TrimPrefix
unfoldable pub trim_prefix : Str → Str → Str
trim_prefix s p = if has_prefix s p then drop (length p) s else s

pub append-trim_prefix : (s p : Str) → has_prefix s p ≡ true → p ++ trim_prefix s p ≡ s
unfolding has_prefix trim_prefix
append-trim_prefix s [] h = refl
append-trim_prefix [] (b ∷ p) h = cc
append-trim_prefix (a ∷ s) (b ∷ p) h = ground (arith, append-trim_prefix s p)

-- strings.HasSuffix
unfoldable pub has_suffix : Str → Str → Bool
has_suffix s suffix =
    leb (length suffix) (length s) && str_eq (drop (length s - length suffix) s) suffix

-- The last byte of a string.
unfoldable pub get_last? : Str → Option ℕ
get_last? [] = none
get_last? (a ∷ []) = some a
get_last? (a ∷ b ∷ s) = get_last? (b ∷ s)

pub get_last?-append : (s : Str) (a : ℕ) (t : Str) → get_last? (s ++ a ∷ t) ≡ get_last? (a ∷ t)
unfolding get_last?
get_last?-append [] a t = refl
get_last?-append (b ∷ []) a t = refl
get_last?-append (b ∷ c ∷ s) a t = get_last?-append (c ∷ s) a t

-- Two strings that end in endings of one length have the same beginning and the same ending.
pub append_inj_right :
    (s s' t t' : Str) → s ++ t ≡ s' ++ t' → length t ≡ length t' → (s ≡ s') × (t ≡ t')
append_inj_right [] [] t t' e h = (refl, e)
append_inj_right [] (b ∷ s') t t' e h =
    absurd (omega (arith, ap length e, length-append (b ∷ s') t'))
append_inj_right (a ∷ s) [] t t' e h = absurd (omega (arith, ap length e, length-append (a ∷ s) t))
append_inj_right (a ∷ s) (b ∷ s') t t' e h =
    let heads : a ≡ b = cc in
    let tails : s ++ t ≡ s' ++ t' = cc in
    let (p, q) = append_inj_right s s' t t' tails h in (ap₂ ◌∷◌ heads p, q)

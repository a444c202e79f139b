-- ===== src/Base/Errors.antt =====
-- Error values, and the `(value, error)` pairs of Go functions of which exactly one is set.
use mathlib.Core.Bool.{Bool, true, false}
use mathlib.Core.Path.{◌≡◌, refl}
use lets_proxy.Base.Text.{Str}

-- The errors that the program compares by identity, one for each package variable, and all the
-- others by their message.
pub data Error : Type 0 where
  cache_miss : Error
  cert_expired : Error
  have_no_cert : Error
  rsa_denied : Error
  ecdsa_denied : Error
  cert_type_unknown : Error
  truncated_response : Error
  manager_closed : Error
  message : Str → Error

abbrev pub is_cache_miss : Error → Bool
is_cache_miss cache_miss = true
is_cache_miss _ = false

abbrev pub is_cert_expired : Error → Bool
is_cert_expired cert_expired = true
is_cert_expired _ = false

abbrev pub is_truncated : Error → Bool
is_truncated truncated_response = true
is_truncated _ = false

-- What a Go function returns: its value, or its error.
pub data Result {ℓ} (Value : Type ℓ) : Type ℓ where
  err : Error → Result Value
  ok : Value → Result Value

abbrev pub is_ok {ℓ} : {Value : Type ℓ} → Result Value → Bool
is_ok (err _) = false
is_ok (ok _) = true

infixl 5 ◌>>=◌
-- `if err != nil { return nil, err }` between a call and what follows it.
abbrev pub ◌>>=◌ {ℓ κ} :
    {Value : Type ℓ} {Next : Type κ} → Result Value → (Value → Result Next) → Result Next
err failure >>= follow = err failure
ok value >>= follow = follow value

infixl 5 ◌>>◌
-- The same for a call that returns nothing but its error.
abbrev pub ◌>>◌ {κ} : {Next : Type κ} → Result (Unit {0}) → Result Next → Result Next
call >> follow = call >>= λ _. follow

-- `if bad { return nil, e }`
abbrev pub fail_if : Bool → Error → Result (Unit {0})
fail_if true e = err e
fail_if false e = ok tt

pub data ResultView {ℓ} {A : Type ℓ} (r : Result A) : Type ℓ where
  is_result : (a : A) → r ≡ ok a → ResultView r
  is_error : (e : Error) → r ≡ err e → ResultView r

-- To split on a computed result and keep the equation.
pub Result-cases {ℓ} : {A : Type ℓ} (r : Result A) → ResultView r
Result-cases (ok a) = is_result a refl
Result-cases (err e) = is_error e refl

-- ===== src/Dns/Parallel.antt =====
-- internal/dns/parallel.go: several resolvers asked at once.
pub mod Merge
use lets_proxy.Base.{List, [], ◌∷◌, ◌++◌, Option, none, some, Str, Error}

-- What a resolver comes to: the pair that it returns, or a panic, which its goroutine logs.
pub data Outcome : Type 0 where
  returned : List Str → Option Error → Outcome
  panicked : Outcome

-- `ips[i]` and `errs[i]`
pub outcome_ips : Outcome → List Str
outcome_ips (returned ips e) = ips
outcome_ips panicked = []

pub outcome_error : Outcome → Option Error
outcome_error (returned ips e) = e
outcome_error panicked = none

-- The last error.
pub last_error : List Outcome → Option Error → Option Error
last_error [] e = e
last_error (o ∷ outcomes) e = elim (outcome_error o) [
  | none ↦ last_error outcomes e
  | some e' ↦ last_error outcomes (some e')
]

pub all_ips : List Outcome → List Str
all_ips [] = []
all_ips (o ∷ outcomes) = outcome_ips o ++ all_ips outcomes

-- The merge behind `wg.Wait()`.
pub merge : List Outcome → List Str × Option Error
merge outcomes = elim (all_ips outcomes) [
  | [] ↦ ([], last_error outcomes none)
  | ip ∷ ips ↦ (ip ∷ ips, none)
]

-- `LookupIPAddr`, by what the resolvers come to; a panic of a lone resolver is the caller's.
pub lookup_ip_addr : List Outcome → Outcome
lookup_ip_addr [] = returned [] none
lookup_ip_addr (o ∷ []) = o
lookup_ip_addr (o ∷ o' ∷ outcomes) = let (ips, e) = merge (o ∷ o' ∷ outcomes) in returned ips e

-- ===== src/Domain.antt =====
-- internal/domain/domain.go: normalisation of a host name. What `golang.org/x/net/idna` makes of a
-- name is a parameter, and so is `net.SplitHostPort`.
mod Tests
use lets_proxy.Base.{
  List, [], ◌∷◌, ◌++◌, Bool, true, false, Str, text, ◌==◌, ◌||◌, if◌then◌else◌, any, Error, Result,
  ok, err, has_prefix, trim_prefix, ℕ,
}

-- `strings.TrimSuffix(s, ".")`
pub trim_dot : Str → Str
trim_dot [] = []
trim_dot (a ∷ []) = if a == b'.' then [] else a ∷ []
trim_dot (a ∷ b ∷ s) = a ∷ trim_dot (b ∷ s)

module _ (split_host_port : Str → Result Str) (to_ascii : Str → Str × Result (Unit {0})) where
  -- `ToASCII` and the end of `NormalizeDomain`; an error of `ToASCII` is returned with the name.
  pub ascii_domain : Str → Result Str
  ascii_domain domain =
      let (ascii, outcome) = to_ascii domain in
      elim outcome [ ok _ ↦ ok (trim_dot ascii) | err e ↦ err e ]

  pub normalize_domain : Str → Result Str
  normalize_domain domain =
      if any (λ b. b == b':') domain
      then elim (split_host_port domain) [ err e ↦ err e | ok host ↦ ascii_domain host ]
      else ascii_domain domain

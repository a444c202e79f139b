-- ===== src/Domain/Tests.antt =====
-- internal/domain/domain.go on concrete names.
use lets_proxy.Base.{◌≡◌, refl, text, ok, Str, Result}
use lets_proxy.Domain.{normalize_domain, ascii_domain, trim_dot}

abbrev same_host : Str → Result Str
same_host s = ok s

abbrev same_name : Str → Str × Result (Unit {0})
same_name s = (s, ok tt)

dot_trimmed : normalize_domain same_host same_name (text "a.com.") ≡ ok (text "a.com")
unfolding normalize_domain ascii_domain trim_dot
dot_trimmed = refl

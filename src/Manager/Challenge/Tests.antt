-- ===== src/Manager/Challenge/Tests.antt =====
-- internal/cert_manager/manager.go: the answers to a challenge for example.com.
use lets_proxy.Base.{
  [], ◌≡◌, refl, true, false, none, some, Str, text, have_no_cert, Result, ok, str_eq,
}
use lets_proxy.Cache.Memory.{memory_bytes}
use lets_proxy.Fixtures.{cert, host, world}
use lets_proxy.Manager.Challenge.{
  http01, tls_alpn01, fulfill, clean_up, handle_http_validation, http_token, cert_token, Challenge,
}
use lets_proxy.Manager.Challenge.Served.{
  handle-fulfill_http, handle-fulfill_tls, token_request, asked,
}
use lets_proxy.Manager.Order.Fixtures.{responder, no_answers}

abbrev normalize : Str → Result Str
normalize s = ok s

abbrev http_challenge : Challenge
http_challenge = record { challenge_type = http01; token = text "tok" }

abbrev tls_challenge : Challenge
tls_challenge = record { challenge_type = tls_alpn01; token = text "tok" }

handle-fulfill_http_example :
    let (a', cleanup) = fulfill responder no_answers http_challenge host in
    (cleanup ≡ ok (http_token (text "example.com/tok")))
    × (handle_http_validation normalize a' (token_request host (text "tok"))
        ≡ (some (record { status = 200; body = some (text "tok.thumb") }), true))
    × (handle_http_validation normalize
          (clean_up a' (http_token (text "example.com/tok")))
          (token_request host (text "tok"))
        ≡ (none, true))
handle-fulfill_http_example =
    handle-fulfill_http responder normalize no_answers host host (text "tok") (text "tok.thumb")
      refl refl

handle-fulfill_tls_example :
    let (a', cleanup) = fulfill responder no_answers tls_challenge host in
    (cleanup ≡ ok (cert_token host))
    × (asked memory_bytes (world []) a' host ≡ (some cert, none))
    × (str_eq host (text "other.com") ≡ false
        → asked memory_bytes (world []) a' (text "other.com")
          ≡ asked memory_bytes (world []) no_answers (text "other.com"))
    × (asked memory_bytes (world []) (clean_up a' (cert_token host)) host
        ≡ (none, some have_no_cert))
handle-fulfill_tls_example =
    handle-fulfill_tls responder memory_bytes (world []) no_answers host (text "other.com")
      (text "tok") cert refl

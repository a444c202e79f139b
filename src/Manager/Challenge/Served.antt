-- ===== src/Manager/Challenge/Served.antt =====
-- internal/cert_manager/manager.go: a challenge that was answered is served until its cleanup.
use lets_proxy.Base.{
  ◌≡◌, refl, Option, ap, ◌∙◌, none, some, true, false, Str, ok, err, ◌++◌, arith, trim_prefix,
  str_eq, text, Result, has_prefix, drop, length, [], ◌∷◌, Error, have_no_cert, str_eq_refl,
}
use lets_proxy.Cache.Lru
use lets_proxy.Cache.Lru.Steps.{get_after_call}
use lets_proxy.Cache.Memory
use lets_proxy.Cache.Memory.{get-put, get-delete}
use lets_proxy.Cache.Bytes.{Bytes}
use lets_proxy.Cert.Check.{Certificate}
use lets_proxy.Manager.Serve.{World, handle_tls_alpn}
use lets_proxy.Manager.Challenge.{
  Responder, Answers, Request, Response, fulfill, clean_up, handle_http_validation, http_token,
  cert_token, tls_alpn01, http01, http_well_known, token_key, put_cert_token, delete_cert_token,
  is_http_validation_request, answer_validation,
}

has_prefix-append : (p t : Str) → has_prefix (p ++ t) p ≡ true
unfolding has_prefix
has_prefix-append [] t = refl
has_prefix-append (a ∷ p) t = ground (arith, has_prefix-append p t)

drop-append : (p t : Str) → drop (length p) (p ++ t) ≡ t
drop-append [] t = refl
drop-append (a ∷ p) t = drop-append p t

trim_prefix-append : (p t : Str) → trim_prefix (p ++ t) p ≡ t
unfolding trim_prefix
trim_prefix-append p t = rw (has_prefix-append p t, drop-append p t)

-- The request of the authority for a token.
abbrev pub token_request : Str → Str → Request
token_request host token = record {
  method = text "GET";
  path = some (http_well_known ++ token);
  host = host;
}

-- What the handler writes for a token that was looked up.
abbrev served : Result Str → Option Response
served (ok resp) = some (record { status = 200; body = some resp })
served (err _) = none

-- What the hello of a tls-alpn-01 challenge for the domain is answered, with these answers.
abbrev pub asked : (bytes : Bytes) → World bytes → Answers → Str → Option Certificate × Option Error
asked bytes w a domain =
    let (_, cert, e) =
      handle_tls_alpn bytes (record w { cert_for_domain_authorize = a.cert_for_domain_authorize })
        domain in
    (cert, e)

module _ (responder : Responder) (normalize_domain : Str → Result Str) where
  answer_validation-token :
      (a : Answers) (host domain path token : Str)
      → trim_prefix path http_well_known ≡ token
      → normalize_domain host ≡ ok domain
      → answer_validation normalize_domain a host path
        ≡ served (Memory.get a.http_tokens (token_key domain token))
  unfolding answer_validation
  answer_validation-token a host domain path token t n = ground arith

  handle_http_validation-get :
      (a : Answers) (host path : Str)
      → has_prefix path http_well_known ≡ true
      → handle_http_validation normalize_domain a
          (record { method = text "GET"; path = some path; host = host })
        ≡ (answer_validation normalize_domain a host path, true)
  unfolding handle_http_validation is_http_validation_request str_eq
  handle_http_validation-get a host path p = rw p refl

  handle-token_request :
      (a : Answers) (host domain token : Str)
      → normalize_domain host ≡ ok domain
      → handle_http_validation normalize_domain a (token_request host token)
        ≡ (served (Memory.get a.http_tokens (token_key domain token)), true)
  handle-token_request a host domain token n =
      handle_http_validation-get a host (http_well_known ++ token)
        (has_prefix-append http_well_known token)
      ∙ ap (λ x. (x, true))
          (answer_validation-token a host domain (http_well_known ++ token) token
            (trim_prefix-append http_well_known token) n)

  -- The answer to an http-01 challenge is served, with status 200, to a GET request for the token at a
  -- host that normalises to the domain; after the cleanup that request gets no answer, and it is the
  -- handler's in both cases.
  pub handle-fulfill_http :
      (a : Answers) (host domain token resp : Str)
      → responder.http01_challenge_response token ≡ ok resp
      → normalize_domain host ≡ ok domain
      → let (a', cleanup) =
          fulfill responder a (record { challenge_type = http01; token = token }) domain in
        (cleanup ≡ ok (http_token (token_key domain token)))
        × (handle_http_validation normalize_domain a' (token_request host token)
            ≡ (some (record { status = 200; body = some resp }), true))
        × (handle_http_validation normalize_domain
              (clean_up a' (http_token (token_key domain token)))
              (token_request host token)
            ≡ (none, true))
  unfolding fulfill clean_up str_eq Memory.put
  handle-fulfill_http a host domain token resp r n =
      let key = token_key domain token in
      let kept = record a { http_tokens = (Memory.put a.http_tokens key resp).0 } in
      rw r (
        refl,
        handle-token_request kept host domain token n
            ∙ ap (λ x. (served x, true)) (get-put a.http_tokens key resp),
        handle-token_request (clean_up kept (http_token key)) host domain token n
            ∙ ap (λ x. (served x, true)) (get-delete kept.http_tokens key),
      )

module _ (responder : Responder) where
  -- The certificate for a tls-alpn-01 challenge is what `handleTLSALPN` then returns for the domain,
  -- and for any other domain it returns what it did before; after the cleanup the domain has no
  -- certificate for the challenge.
  pub handle-fulfill_tls :
      (bytes : Bytes) (w : World bytes) (a : Answers) (domain other token : Str)
      (cert : Certificate)
      → responder.tls_alpn01_challenge_cert token domain ≡ ok cert
      → let (a', cleanup) =
          fulfill responder a (record { challenge_type = tls_alpn01; token = token }) domain in
        (cleanup ≡ ok (cert_token domain))
        × (asked bytes w a' domain ≡ (some cert, none))
        × (str_eq domain other ≡ false → asked bytes w a' other ≡ asked bytes w a other)
        × (asked bytes w (clean_up a' (cert_token domain)) domain ≡ (none, some have_no_cert))
  unfolding fulfill clean_up str_eq put_cert_token delete_cert_token handle_tls_alpn
  handle-fulfill_tls bytes w a domain other token cert r =
      let (after_put, _, _) = get_after_call a.cert_for_domain_authorize domain domain cert in
      let (of_other, _, _) = get_after_call a.cert_for_domain_authorize domain other cert in
      let cache = Lru.put a.cert_for_domain_authorize domain cert in
      let (_, after_delete, _) = get_after_call cache domain domain cert in
      rw r (
        refl,
        ground (arith, str_eq_refl domain),
        λ ne. ground arith,
        ground (arith, str_eq_refl domain),
      )

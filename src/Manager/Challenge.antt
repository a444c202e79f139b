-- ===== src/Manager/Challenge.antt =====
-- internal/cert_manager/manager.go and helpers.go: the answers to the challenges of the authority, and
-- the handler that serves them over HTTP. What the authority's library computes for a token is a
-- parameter (`Responder`). The store of tokens is the memory cache that `New` makes.
pub mod Served
mod Tests
use lets_proxy.Base.{
  List, [], ◌∷◌, ◌++◌, Option, none, some, Bool, true, false, Str, text, ℕ, if◌then◌else◌, not,
  str_eq, has_prefix, trim_prefix, Error, message, Result, ok, err,
}
use lets_proxy.Cache.Lru.{Lru}
use lets_proxy.Cache.Lru
use lets_proxy.Cache.Memory.{MemoryCache}
use lets_proxy.Cache.Memory
use lets_proxy.Cert.Check.{Certificate}

abbrev pub tls_alpn01 : Str
tls_alpn01 = text "tls-alpn-01"

abbrev pub http01 : Str
http01 = text "http-01"

abbrev pub http_well_known : Str
http_well_known = text "/.well-known/acme-challenge/"

-- `acme.Challenge`, the fields that the program reads.
pub record Challenge : Type 0 where
  pub challenge_type : Str
  pub token : Str

-- `pickChallenge`: the first challenge of the type.
unfoldable pub pick_challenge : Str → List Challenge → Option Challenge
pick_challenge typ [] = none
pick_challenge typ (c ∷ chal) =
    if str_eq c.challenge_type typ then some c else pick_challenge typ chal

-- `supportedChallenges`, from EnableTLSValidation and EnableHTTPValidation.
pub supported_challenges : Bool → Bool → List Str
supported_challenges enable_tls enable_http =
    (if enable_tls then tls_alpn01 ∷ [] else []) ++ (if enable_http then http01 ∷ [] else [])

-- The methods of `AcmeClient` that compute the answer to a challenge.
pub record Responder : Type 0 where
  pub tls_alpn01_challenge_cert : Str → Str → Result Certificate
  pub http01_challenge_response : Str → Result Str

-- The two stores of answers: `certForDomainAuthorize` and `httpTokens`.
pub record Answers : Type 0 where
  pub cert_for_domain_authorize : Lru Certificate
  pub http_tokens : MemoryCache

unfoldable pub put_cert_token : Answers → Str → Certificate → Answers
put_cert_token a key certificate = record a {
  cert_for_domain_authorize = Lru.put a.cert_for_domain_authorize key certificate;
}

unfoldable pub delete_cert_token : Answers → Str → Answers
delete_cert_token a key = record a {
  cert_for_domain_authorize = Lru.delete a.cert_for_domain_authorize key;
}

-- What the function that `fulfill` returns does: it starts a goroutine that deletes the certificate of
-- a domain, or deletes a token at once.
pub data Cleanup : Type 0 where
  cert_token : Str → Cleanup
  http_token : Str → Cleanup

abbrev pub token_key : Str → Str → Str
token_key domain token = domain ++ text "/" ++ token

module _ (responder : Responder) where
  unfoldable pub fulfill : Answers → Challenge → Str → Answers × Result Cleanup
  fulfill a challenge domain =
      if str_eq challenge.challenge_type tls_alpn01
      then elim (responder.tls_alpn01_challenge_cert challenge.token domain) [
        | err e ↦ (a, err e)
        | ok cert ↦ (put_cert_token a domain cert, ok (cert_token domain))
      ]
      else if str_eq challenge.challenge_type http01
      then elim (responder.http01_challenge_response challenge.token) [
        | err e ↦ (a, err e)
        | ok resp ↦
            let key = token_key domain challenge.token in
            let (tokens, put_err) = Memory.put a.http_tokens key resp in
            let a' = record a { http_tokens = tokens } in
            elim put_err [ none ↦ (a', ok (http_token key)) | some e ↦ (a', err e) ]
      ]
      else (a, err (message (text "unknown challenge type")))

-- The cleanup, together with the goroutine that it may start.
unfoldable pub clean_up : Answers → Cleanup → Answers
clean_up a (cert_token domain) = delete_cert_token a domain
clean_up a (http_token key) = record a { http_tokens = (Memory.delete a.http_tokens key).0 }

-- `http.Request`, the fields that the handler reads; the path of a request without a URL is `none`.
pub record Request : Type 0 where
  pub method : Str
  pub path : Option Str
  pub host : Str

-- What the handler writes: a status, and a body if it writes one.
pub record Response : Type 0 where
  pub status : ℕ
  pub body : Option Str

pub is_http_validation_request : Request → Bool
is_http_validation_request r = elim r.path [
  | none ↦ false
  | some path ↦ if str_eq r.method (text "GET") then has_prefix path http_well_known else false
]

module _ (normalize_domain : Str → Result Str) where
  -- The handler behind the test: what it writes, or `none` if it writes nothing.
  pub answer_validation : Answers → Str → Str → Option Response
  answer_validation a host path =
      let token = trim_prefix path http_well_known in
      elim (normalize_domain host) [
        | err _ ↦ some (record { status = 400; body = none })
        | ok d ↦ elim (Memory.get a.http_tokens (token_key d token)) [
          | ok resp ↦ some (record { status = 200; body = some resp })
          | err _ ↦ none
        ]
      ]

  -- `HandleHTTPValidation`: what is written, and whether the request was one for this handler.
  pub handle_http_validation : Answers → Request → Option Response × Bool
  handle_http_validation a r =
      if is_http_validation_request r
      then elim r.path [ none ↦ (none, true) | some path ↦ (answer_validation a r.host path, true) ]
      else (none, false)

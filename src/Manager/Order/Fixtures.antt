-- ===== src/Manager/Order/Fixtures.antt =====
-- An authority for the tests of internal/cert_manager/manager.go. Its one authorization `a1` is for
-- example.com and is pending or valid, as the state says.
use lets_proxy.Base.{Bool, false, [], ◌∷◌, ◌++◌, none, Str, text, ok, str_eq, if◌then◌else◌}
use lets_proxy.Fixtures.{cert, host}
use lets_proxy.Manager.Challenge.{Answers, Responder, http01}
use lets_proxy.Manager.Order.{AcmeClient, Order, status_pending, status_ready}
use lets_proxy.Fixtures.{empty_lru, storage}

abbrev pub responder : Responder
responder = record {
  tls_alpn01_challenge_cert = λ _ _. ok cert;
  http01_challenge_response = λ token. ok (token ++ text ".thumb");
}

abbrev pub status : Bool → Str → Str
status pending u =
    if str_eq u (text "a1")
    then (if pending then status_pending else text "valid")
    else text "valid"

abbrev pub order : Str → Order
order state = record {
  uri = text "o1";
  status = state;
  authz_urls = text "a1" ∷ [];
  identifiers = host ∷ [];
  finalize_url = text "f1";
}

abbrev pub acme_client : AcmeClient
acme_client = record {
  Server = Bool;
  responder = responder;
  accept = λ s _. (s, none);
  authorize_order = λ s _. (s, ok (order (if s then status_pending else status_ready)));
  create_order_cert = λ s _ _. (s, ok (text "DER" ∷ []));
  get_authorization = λ s u. (
    s,
    ok (record {
      uri = u;
      status = status s u;
      identifier = host;
      challenges = record { challenge_type = http01; token = text "tok" } ∷ [];
    }),
  );
  revoke_authorization = λ s u. ((if str_eq u (text "a1") then false else s), none);
  wait_authorization = λ s u. ((if str_eq u (text "a1") then false else s), none);
  wait_order = λ s _. (s, ok (order status_ready));
}

abbrev pub no_answers : Answers
no_answers = record { cert_for_domain_authorize = empty_lru; http_tokens = storage [] }

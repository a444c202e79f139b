-- ===== src/Manager/Order.antt =====
-- internal/cert_manager/manager.go: the order of a certificate at the authority. The authority is a
-- parameter: a state, and what each method of `AcmeClient` makes of it. A deferred call is an entry of
-- a list, the last one first.
pub mod Tracking
pub mod Cleaned
pub mod Revoked
pub mod Filter
pub mod Refused
pub mod Fixtures
mod Tests
use lets_proxy.Base.{
  ◌≡◌, refl, ◌⊎◌, inl, inr, ℕ, zero, suc, List, [], ◌∷◌, ◌++◌, Option, none, some, Bool, true,
  false, not, Str, text, if◌then◌else◌, str_eq, keep, any, Error, message, Result, ok, err,
}
use lets_proxy.Manager.Challenge.{
  Challenge, Responder, Answers, Cleanup, cert_token, http_token, pick_challenge, fulfill, clean_up,
}

abbrev pub status_pending : Str
status_pending = text "pending"

abbrev pub status_ready : Str
status_ready = text "ready"

-- `acme.Authorization` and `acme.Order`, the fields that the program reads.
pub record Authorization : Type 0 where
  pub uri : Str
  pub status : Str
  pub identifier : Str
  pub challenges : List Challenge

pub record Order : Type 0 where
  pub uri : Str
  pub status : Str
  pub authz_urls : List Str
  pub identifiers : List Str
  pub finalize_url : Str

-- `AcmeClient`
pub record AcmeClient : Type 1 where
  pub Server : Type 0
  pub responder : Responder
  pub accept : Server → Challenge → Server × Option Error
  pub authorize_order : Server → List Str → Server × Result Order
  pub create_order_cert : Server → Str → Str → Server × Result (List Str)
  pub get_authorization : Server → Str → Server × Result Authorization
  pub revoke_authorization : Server → Str → Server × Option Error
  pub wait_authorization : Server → Str → Server × Option Error
  pub wait_order : Server → Str → Server × Result Order

-- What `createOrderForDomains` defers: to start the revocation of the authorizations of an order, and
-- to clean up after a challenge.
pub data Deferred : Type 0 where
  revoke : List Str → Deferred
  clean : Cleanup → Deferred

-- Whether the checker allows a domain; an error beside its answer is only logged.
abbrev pub allows : (Str → Bool × Option Error) → Str → Bool
allows is_domain_allowed d = (is_domain_allowed d).0

-- `filterDomains`: the domains that are allowed, in the order in which their goroutines ended.
pub filter_domains : (Str → Bool × Option Error) → Str → List Str → Result (List Str)
filter_domains is_domain_allowed need_domain ended =
    let allowed = keep (allows is_domain_allowed) ended in
    if any (λ d. str_eq d need_domain) allowed
    then ok allowed
    else err (message (text "need domain doesn't contained to cert list domains after filter"))

-- How a step of the loops of `createOrderForDomains` ends: behind its end, at the next round of the
-- outer loop, or with an error of the method.
pub data Next : Type 0 where
  go_on : Next
  again : Next
  stop : Error → Next

-- To split on an end and keep the equation.
pub Next-cases : (n : Next) → (n ≡ go_on) ⊎ (n ≡ again) ⊎ ((e : Error) × (n ≡ stop e))
Next-cases go_on = inl refl
Next-cases again = inr (inl refl)
Next-cases (stop e) = inr (inr (e, refl))

-- How a round ends.
pub data Round : Type 0 where
  ordered : Order → Round
  retry : Round
  failed : Error → Round

-- To split on an end and keep the equation.
pub Round-cases :
    (r : Round) → ((o : Order) × (r ≡ ordered o)) ⊎ ((e : Error) × (r ≡ failed e)) ⊎ (r ≡ retry)
Round-cases (ordered o) = inl (o, refl)
Round-cases (failed e) = inr (inl (e, refl))
Round-cases retry = inr (inr refl)

module _ (client : AcmeClient) where
  pub record Progress : Type 0 where
    pub server : client.Server
    pub answers : Answers
    pub defers : List Deferred

  -- One challenge: `fulfill`, the deferred cleanup, `Accept` and `WaitAuthorization`. The Boolean
  -- tells whether all went well; if not, the outer loop begins its next round.
  unfoldable pub try_challenge : Progress → Authorization → Challenge → Progress × Bool
  try_challenge p z chal =
      let (answers, fulfilled) = fulfill client.responder p.answers chal z.identifier in
      elim fulfilled [
        | err _ ↦ (record p { answers = answers }, false)
        | ok cleanup ↦
            let (server1, accept_err) = client.accept p.server chal in
            let (server2, wait_err) = client.wait_authorization server1 z.uri in
            let p1 = record p {
              server = server1;
              answers = answers;
              defers = clean cleanup ∷ p.defers;
            } in
            elim accept_err [
              | some _ ↦ (p1, false)
              | none ↦ elim wait_err [
                | some _ ↦ (record p1 { server = server2 }, false)
                | none ↦ (record p1 { server = server2 }, true)
              ]
            ]
      ]

  -- The first challenge of the type, if there is one, and whether all went well with it.
  unfoldable pub try_type : Str → Progress → Authorization → Progress × Option Bool
  try_type challenge_type p z = elim (pick_challenge challenge_type z.challenges) [
    | none ↦ (p, none)
    | some chal ↦ let (p', went_well) = try_challenge p z chal in (p', some went_well)
  ]

  -- The loop over the types of challenges; the Boolean is `hasCompatibleChallenge`.
  unfoldable pub try_types : List Str → Bool → Progress → Authorization → Progress × Next
  try_types [] has_compatible_challenge p z =
      if has_compatible_challenge
      then (p, go_on)
      else (p, stop (message (text "no viable challenge type found")))
  try_types (challenge_type ∷ types) has_compatible_challenge p z =
      let (p', tried) = try_type challenge_type p z in
      let rest_without = try_types types has_compatible_challenge p' z in
      let rest_with = try_types types true p' z in
      if not (str_eq z.status status_pending) then (p, go_on) else elim tried [
        | none ↦ rest_without
        | some went_well ↦ if went_well then rest_with else (p', again)
      ]

  -- The loop over the authorizations of an order.
  unfoldable pub authorize_all : List Str → List Str → Progress → Progress × Next
  authorize_all types [] p = (p, go_on)
  authorize_all types (zurl ∷ urls) p =
      let (server, got) = client.get_authorization p.server zurl in
      let p1 = record p { server = server } in
      elim got [
        | err e ↦ (p1, stop e)
        | ok z ↦
            let (p2, next) = try_types types false p1 z in
            let rest = authorize_all types urls p2 in
            elim next [ go_on ↦ rest | again ↦ (p2, again) | stop e ↦ (p2, stop e) ]
      ]

  -- What follows the authorizations: `WaitOrder`.
  unfoldable pub await_order : Progress → Order → Next → Progress × Round
  await_order p order again = (p, retry)
  await_order p order (stop e) = (p, failed e)
  await_order p order go_on =
      let (server, waited) = client.wait_order p.server order.uri in
      let p1 = record p { server = server } in
      elim waited [ ok order' ↦ (p1, ordered order') | err _ ↦ (p1, retry) ]

  -- A round of the outer loop.
  unfoldable pub order_round : List Str → List Str → Progress → Progress × Round
  order_round types domains p =
      let (server, made) = client.authorize_order p.server domains in
      elim made [
        | err e ↦ (record p { server = server }, failed e)
        | ok order ↦
            let p1 = record p { server = server; defers = revoke order.authz_urls ∷ p.defers } in
            if str_eq order.status status_ready
            then (p1, ordered order)
            else if str_eq order.status status_pending
            then (let (p2, next) = authorize_all types order.authz_urls p1 in
                await_order p2 order next)
            else (p1, failed (message (text "invalid new order status")))
      ]

  -- The outer loop, with the number of rounds that it may begin before its context is done; a round
  -- but the first sleeps a second.
  unfoldable pub order_loop : ℕ → List Str → List Str → Progress → Progress × Result Order
  order_loop zero types domains p = (p, err (message (text "context canceled")))
  order_loop (suc rounds) types domains p =
      let (p', end) = order_round types domains p in
      let rest = order_loop rounds types domains p' in
      elim end [ ordered order ↦ (p', ok order) | failed e ↦ (p', err e) | retry ↦ rest ]

  -- The deferred calls, at the return: what they change at once, and the goroutines that they start.
  unfoldable pub run_deferred : List Deferred → Answers → Answers × List Deferred
  run_deferred [] answers = (answers, [])
  run_deferred (revoke urls ∷ defers) answers =
      let (a, started) = run_deferred defers answers in (a, revoke urls ∷ started)
  run_deferred (clean (cert_token d) ∷ defers) answers =
      let (a, started) = run_deferred defers answers in (a, clean (cert_token d) ∷ started)
  run_deferred (clean (http_token k) ∷ defers) answers =
      run_deferred defers (clean_up answers (http_token k))

  -- `createOrderForDomains`: the server, the answers and the started goroutines, and the order.
  unfoldable pub create_order_for_domains :
      ℕ
      → List Str
      → List Str
      → client.Server
      → Answers
      → client.Server × Answers × List Deferred × Result Order
  create_order_for_domains rounds types domains server answers =
      let (p, result) =
        order_loop rounds types domains
          (record { server = server; answers = answers; defers = [] }) in
      let (answers', started) = run_deferred p.defers p.answers in
      (p.server, answers', started, result)

  -- The body of the loop of `deactivatePendingAuthz`.
  pub deactivate_if_pending : client.Server → Str → client.Server
  deactivate_if_pending server uri =
      let (server1, got) = client.get_authorization server uri in
      elim got [
        | err _ ↦ server1
        | ok authorization ↦
            if str_eq authorization.status status_pending
            then (client.revoke_authorization server1 uri).0
            else server1
      ]

  pub deactivate_pending_authz : client.Server → List Str → client.Server
  deactivate_pending_authz server [] = server
  deactivate_pending_authz server (uri ∷ uries) =
      deactivate_pending_authz (deactivate_if_pending server uri) uries

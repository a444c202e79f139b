-- ===== src/Manager/Issue.antt =====
-- internal/cert_manager/manager.go: the issue of a certificate. The manager of the accounts is a
-- parameter: its `GetClient` chooses the client that the calls behind it use. The readings of the
-- clock in one issue are one instant.
pub mod Finished
pub mod Stored
pub mod Orders
mod Tests
use lets_proxy.Base.{
  ℕ, zero, suc, List, [], ◌∷◌, ◌++◌, Option, none, some, Bool, true, false, ◌||◌, Str, text,
  if◌then◌else◌, set, has_prefix, Error, have_no_cert, message, Result, ok, err, ◌>>=◌,
}
use lets_proxy.Cache.Bytes.{Bytes}
use lets_proxy.Cache.Memory.{MemoryCache}
use lets_proxy.Cert.Check.{Certificate, PrivateKey, Crypto, valid_cert_der}
use lets_proxy.Cert.Description.{CertDescription, domain_names}
use lets_proxy.Cert.State.{CertState, Wake, start_issue, finish_issue, wait_finish_issue}
use lets_proxy.Manager.Challenge.{Answers}
use lets_proxy.Manager.Key.{KeyCodec, cert_key_get_or_create, create_cert_request}
use lets_proxy.Manager.Order.{AcmeClient, Order, Deferred, create_order_for_domains, filter_domains}
use lets_proxy.Manager.Serve.{World, cert_state_get, state_at}
use lets_proxy.Manager.Storage.{store_certificate, store_certificate_meta}

-- strings.Contains
pub contains : Str → Str → Bool
contains [] part = has_prefix [] part
contains (a ∷ s) part = has_prefix (a ∷ s) part || contains s part

-- `isErrTooManyOrders`; none of the package variables has such a text.
pub is_err_too_many_orders : Error → Bool
is_err_too_many_orders (message s) = contains s (text "too many new orders recently")
is_err_too_many_orders _ = false

-- `AcmeClientManager`. The state of the accounts is a part of the server's; the calls of `client` are
-- those of the client that `get_client` gave last, which `disable` disables.
pub record AcmeClientManager : Type 1 where
  pub client : AcmeClient
  pub get_client : client.Server → client.Server × Option Error
  pub disable : client.Server → client.Server

-- The settings that an issue reads; `types` is what `supportedChallenges` gives. `rounds` and
-- `clients` bound the rounds of an order, and the calls of `GetClient`, that begin before the context
-- of the issue is done.
pub record IssueSettings : Type 0 where
  pub types : List Str
  pub save_json_meta : Bool
  pub rounds : ℕ
  pub clients : ℕ

abbrev pub order_error : Error
order_error = message (text "order authorization error")

-- The values of a result, as a Go function returns them.
abbrev pub returned : Result Certificate → Option Certificate × Option Error
returned (ok cert) = (some cert, none)
returned (err e) = (none, some e)

module _ (manager : AcmeClientManager) (bytes : Bytes) where
  -- The manager's state with the parts that only an issue touches; `started` are the goroutines.
  pub record Issuer : Type 0 where
    pub world : World bytes
    pub server : manager.client.Server
    pub http_tokens : MemoryCache
    pub started : List Deferred

  -- The deferred `FinishIssue`, with what the method returns.
  pub finish_at : Issuer → ℕ → Result Certificate → Issuer × Option Certificate × Option Error
  finish_at st address result =
      let (cert, e) = returned result in
      let (s, contexts) = finish_issue (state_at bytes st.world address) st.world.contexts cert e in
      let w = record st.world { states = set st.world.states address s; contexts = contexts } in
      (record st { world = w }, cert, e)

  module _ (crypto : Crypto) (codec : KeyCodec) (settings : IssueSettings) where
    -- The end of `issueCertificate`: the two writes.
    pub store_issued :
        bytes.Store → CertDescription → Certificate → bytes.Store × Result Certificate
    store_issued store cd cert =
        let (store1, store_err) = store_certificate bytes crypto store cd cert in
        let (store2, meta_err) = store_certificate_meta bytes crypto store1 cd cert in
        elim store_err [
          | some e ↦ (store1, err e)
          | none ↦
              if settings.save_json_meta
              then elim meta_err [ some e ↦ (store2, err e) | none ↦ (store2, ok cert) ]
              else (store1, ok cert)
        ]

    -- The key and the request: what is sent to the authority.
    pub prepare : bytes.Store → CertDescription → List Str → Result (PrivateKey × Str)
    prepare store cd [] = err (message (text "no domains for issue certificate"))
    prepare store cd (domain ∷ domains) = do
      key ← cert_key_get_or_create codec bytes store cd
      csr ← create_cert_request codec key domain (domain ∷ domains)
      ok (key, csr)

    pub issue_certificate : Issuer → CertDescription → Order → ℕ → Issuer × Result Certificate
    issue_certificate st cd order now = elim (prepare st.world.store cd order.identifiers) [
      | err e ↦ (st, err e)
      | ok prepared ↦
          let (key, csr) = prepared in
          let (server, created) =
            manager.client.create_order_cert st.server order.finalize_url csr in
          let st1 = record st { server = server } in
          let checked =
            created >>= λ der. valid_cert_der crypto order.identifiers der (some key) false now in
          elim checked [
            | err e ↦ (st1, err e)
            | ok cert ↦
                let (store, result) = store_issued st.world.store cd cert in
                (record st1 { world = record st.world { store = store } }, result)
          ]
    ]

    -- `createOrderAndCertificate`
    pub create_order_and_certificate :
        Issuer → CertDescription → List Str → ℕ → Issuer × Result Certificate
    create_order_and_certificate st cd domains now =
        let (server, answers, started, ordered) =
          create_order_for_domains manager.client settings.rounds settings.types domains st.server
            (record {
              cert_for_domain_authorize = st.world.cert_for_domain_authorize;
              http_tokens = st.http_tokens;
            }) in
        let st1 = record st {
          server = server;
          http_tokens = answers.http_tokens;
          started = st.started ++ started;
          world = record st.world { cert_for_domain_authorize = answers.cert_for_domain_authorize };
        } in
        elim ordered [
          | err _ ↦ (st1, err order_error)
          | ok order ↦ issue_certificate st1 cd order now
        ]

    -- The loop of `createCertificateForDomains` over the clients.
    pub client_loop : ℕ → Issuer → CertDescription → List Str → ℕ → Issuer × Result Certificate
    client_loop zero st cd domains now = (st, err (message (text "failed to get acme client")))
    client_loop (suc clients) st cd domains now =
        let (server, get_err) = manager.get_client st.server in
        let st1 = record st { server = server } in
        let (st2, result) = create_order_and_certificate st1 cd domains now in
        let rest =
          client_loop clients (record st2 { server = manager.disable st2.server }) cd domains now in
        elim get_err [
          | some _ ↦ (st1, err (message (text "failed to get acme client")))
          | none ↦ elim result [
            | ok cert ↦ (st2, ok cert)
            | err e ↦ if is_err_too_many_orders e then rest else (st2, err e)
          ]
        ]

    -- `createCertificateForDomains`; `wake` is what ends the wait for another caller's issue.
    pub create_certificate_for_domains :
        Issuer → CertDescription → List Str → Wake → ℕ → Issuer × Option Certificate × Option Error
    create_certificate_for_domains st cd domains wake now =
        let (w1, address) = cert_state_get bytes st.world cd in
        let (s, contexts, began) = start_issue (state_at bytes w1 address) w1.contexts in
        if began
        then (let w2 = record w1 { states = set w1.states address s; contexts = contexts } in
            let (st3, result) =
              client_loop settings.clients (record st { world = w2 }) cd domains now in
            finish_at st3 address result)
        else (let (cert, e) = wait_finish_issue s wake in (record st { world = w1 }, cert, e))

    -- `issueNewCert`; `ended` gives the order in which the goroutines of `filterDomains` end. The error
    -- of the filter is only logged. A nil certificate without an error would be a panic.
    pub issue_new_cert :
        (Str → Bool × Option Error)
        → (List Str → List Str)
        → Issuer
        → Str
        → CertDescription
        → Wake
        → ℕ
        → Issuer × Result Certificate
    issue_new_cert is_domain_allowed ended st need_domain cd wake now =
        let domains =
          elim (filter_domains is_domain_allowed need_domain (ended (domain_names cd)))
            as (λ x. List Str) [ ok allowed ↦ allowed | err _ ↦ [] ] in
        let (st', cert, e) = create_certificate_for_domains st cd domains wake now in
        elim (is_domain_allowed need_domain).1 [
          | some _ ↦ (st, err have_no_cert)
          | none ↦
              if (is_domain_allowed need_domain).0
              then elim e [
                | some _ ↦ (st', err have_no_cert)
                | none ↦ elim cert [
                  | some c ↦ (st', ok c)
                  | none ↦ (st', err (message (text "nil pointer dereference")))
                ]
              ]
              else (st, err have_no_cert)
        ]

    -- `renewCertInBackground`: the outcome is only logged.
    pub renew_cert_in_background :
        (Str → Bool × Option Error)
        → (List Str → List Str)
        → Issuer
        → Str
        → CertDescription
        → Wake
        → ℕ
        → Issuer
    renew_cert_in_background is_domain_allowed ended st need_domain cd wake now =
        (issue_new_cert is_domain_allowed ended st need_domain cd wake now).0

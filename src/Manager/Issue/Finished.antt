-- ===== src/Manager/Issue/Finished.antt =====
-- internal/cert_manager/manager.go: an issue that began is over when its method returns.
use lets_proxy.Base.{
  ◌≡◌, refl, ap, ◌∙◌, inl, inr, ℕ, zero, suc, ◌<◌, ◌∷◌, List, Option, none, some, Str, Error, ok,
  err, Result, Result-cases, is_result, is_error, Bool-cases, Option-cases, arith, set, get_elem?,
  length, get_elem?-set, lt-get_elem?,
}
use lets_proxy.Cache.Bytes.{Bytes}
use lets_proxy.Cert.Check.{Certificate, Crypto}
use lets_proxy.Cert.Description.{CertDescription}
use lets_proxy.Cert.State.{
  CertState, Contexts, Wake, start_issue, finish_issue, finish_locked, get_cert, checked_cert,
  cancel,
}
use lets_proxy.Manager.Issue.{
  AcmeClientManager, IssueSettings, Issuer, client_loop, create_order_and_certificate,
  issue_certificate, create_certificate_for_domains, returned, finish_at, is_err_too_many_orders,
}
use lets_proxy.Manager.Challenge.{Answers}
use lets_proxy.Manager.Key.{KeyCodec}
use lets_proxy.Manager.Order.{Order, create_order_for_domains}
use lets_proxy.Manager.Serve.{cert_state_get, state_at}

module _ (manager : AcmeClientManager) (bytes : Bytes) where
  finish_issue-returned :
      (s : CertState) (ctxs : Contexts) (result : Result Certificate) (id : ℕ)
      → s.issue_context ≡ some id
      → let (cert, e) = returned result in
        let (s', ctxs') = finish_issue s ctxs cert e in
        (s'.issue_context ≡ none) × (get_cert s' ≡ (cert, e)) × (ctxs'.done ≡ id ∷ ctxs.done)
  unfolding finish_issue finish_locked get_cert checked_cert cancel
  finish_issue-returned s ctxs (ok cert) id q = rw q (refl, refl, refl)
  finish_issue-returned s ctxs (err e) id q = rw q (refl, refl, refl)

  -- The state of an issue after its `FinishIssue`, if the state at the address is that of an issue.
  abbrev IsFinished :
      Issuer manager bytes → List ℕ → ℕ → ℕ → Option Certificate → Option Error → Type 0
  IsFinished st done address id cert e =
      ((state_at bytes st.world address).issue_context ≡ none)
      × (get_cert (state_at bytes st.world address) ≡ (cert, e))
      × (st.world.contexts.done ≡ id ∷ done)

  finish_at-IsFinished :
      (st : Issuer manager bytes) (address id : ℕ) (result : Result Certificate) (s : CertState)
      → get_elem? st.world.states address ≡ some s
      → s.issue_context ≡ some id
      → let (st', cert, e) = finish_at manager bytes st address result in
        IsFinished st' st.world.contexts.done address id cert e
  unfolding finish_at state_at
  finish_at-IsFinished st address id result s at_address q =
      let (cert, e) = returned result in
      let before = state_at bytes st.world address in
      let here : before ≡ s = rw (state_at, at_address) refl in
      let (free, outcome, done) =
        finish_issue-returned before st.world.contexts result id
          (ap (λ x. x.issue_context) here ∙ q) in
      let after = (finish_issue before st.world.contexts cert e).0 in
      let there : state_at bytes (finish_at manager bytes st address result).0.world address
          ≡ after =
        rw
          (
            state_at,
            finish_at,
            get_elem?-set st.world.states address after
                (lt-get_elem? st.world.states address s at_address),
          )
          refl in
      (ap (λ x. x.issue_context) there ∙ free, ap get_cert there ∙ outcome, done)

module _ (manager : AcmeClientManager) (bytes : Bytes) (crypto : Crypto) (codec : KeyCodec)
    (settings : IssueSettings) where
  -- The certificate states and their contexts are the same.
  abbrev SameStates : Issuer manager bytes → Issuer manager bytes → Type 0
  SameStates st st' =
      (st'.world.states ≡ st.world.states) × (st'.world.contexts ≡ st.world.contexts)

  issue_certificate-SameStates :
      (st : Issuer manager bytes) (cd : CertDescription) (order : Order) (now : ℕ)
      → SameStates st (issue_certificate manager bytes crypto codec settings st cd order now).0
  unfolding issue_certificate
  issue_certificate-SameStates st cd order now = ground arith

  create_order_and_certificate-SameStates :
      (st : Issuer manager bytes) (cd : CertDescription) (domains : List Str) (now : ℕ)
      → SameStates st
          (create_order_and_certificate manager bytes crypto codec settings st cd domains now).0
  unfolding create_order_and_certificate
  create_order_and_certificate-SameStates st cd domains now =
      let answers : Answers = record {
        cert_for_domain_authorize = st.world.cert_for_domain_authorize;
        http_tokens = st.http_tokens;
      } in
      elim (Result-cases
        (create_order_for_domains manager.client settings.rounds settings.types domains st.server
          answers).3) [
            | is_error e q ↦ rw (create_order_and_certificate, q) (refl, refl)
            | is_result order q ↦
                rw (create_order_and_certificate, q) (issue_certificate-SameStates _ cd order now)
          ]

  client_loop-SameStates :
      (clients : ℕ) (st : Issuer manager bytes) (cd : CertDescription) (domains : List Str)
      (now : ℕ)
      → SameStates st (client_loop manager bytes crypto codec settings clients st cd domains now).0
  unfolding client_loop
  client_loop-SameStates zero st cd domains now = (refl, refl)
  client_loop-SameStates (suc clients) st cd domains now =
      let st1 : Issuer manager bytes = record st { server = (manager.get_client st.server).0 } in
      let (st2, result) =
        create_order_and_certificate manager bytes crypto codec settings st1 cd domains now in
      let same = create_order_and_certificate-SameStates st1 cd domains now in
      elim (Option-cases (manager.get_client st.server).1) [
        | inr (e, q) ↦ rw (client_loop, q) (refl, refl)
        | inl got ↦ elim (Result-cases result) [
          | is_result cert q ↦ rw (client_loop, got, q) same
          | is_error e q ↦ elim (Bool-cases (is_err_too_many_orders e)) [
            | inr other ↦ rw (client_loop, got, q, other) same
            | inl many ↦
                let (states, contexts) =
                  client_loop-SameStates clients
                    (record st2 { server = manager.disable st2.server }) cd domains now in
                rw (client_loop, got, q, many) (states ∙ same.0, contexts ∙ same.1)
          ]
        ]
      ]

  -- createCertificateForDomains, as an independent account of what one call does to the state at
  -- its address. If another caller issues, nothing but the caches of the local state is touched: no
  -- order is made. Otherwise, whichever way the issue ends, the state is free for the next caller, the
  -- outcome is what the method returns, and the context that the waiting callers watch is done.
  pub create_certificate_for_domains-finishes :
      (st : Issuer manager bytes) (cd : CertDescription) (domains : List Str) (wake : Wake)
      (now : ℕ)
      → (cert_state_get bytes st.world cd).1 < length (cert_state_get bytes st.world cd).0.states
      → let (w1, address) = cert_state_get bytes st.world cd in
        let (st', cert, e) =
          create_certificate_for_domains manager bytes crypto codec settings st cd domains wake
            now in
        ((id : ℕ)
          → (state_at bytes w1 address).issue_context ≡ some id
          → (st'.server ≡ st.server) × (st'.started ≡ st.started) × (st'.world ≡ w1))
        × ((state_at bytes w1 address).issue_context ≡ none
            → ((state_at bytes st'.world address).issue_context ≡ none)
              × (get_cert (state_at bytes st'.world address) ≡ (cert, e))
              × (st'.world.contexts.done ≡ w1.contexts.made ∷ w1.contexts.done))
  unfolding create_certificate_for_domains start_issue
  create_certificate_for_domains-finishes st cd domains wake now bound =
      let (w1, address) = cert_state_get bytes st.world cd in
      (
        λ id q. rw q (refl, refl, refl),
        λ q.
            let s : CertState = record (state_at bytes w1 address) {
              issue_context = some w1.contexts.made;
            } in
            let st2 : Issuer manager bytes = record st {
              world = record w1 {
                states = set w1.states address s;
                contexts = record w1.contexts { made = suc w1.contexts.made };
              };
            } in
            let (st3, result) =
              client_loop manager bytes crypto codec settings settings.clients st2 cd domains now in
            let (states, contexts) = client_loop-SameStates settings.clients st2 cd domains now in
            let here : get_elem? st3.world.states address ≡ some s =
              rw states (get_elem?-set w1.states address s bound) in
            let finished =
              finish_at-IsFinished manager bytes st3 address w1.contexts.made result s here refl in
            rw q
              (finished.0, finished.1, finished.2 ∙ ap (λ c. w1.contexts.made ∷ c.done) contexts),
      )

-- ===== src/Manager/Issue/Tests.antt =====
-- internal/cert_manager/manager.go: an issue for example.com at the authority of the tests.
use lets_proxy.Base.{
  ◌≡◌, ◌≢◌, refl, sym, arith, ℕ, Bool, true, false, List, [], ◌∷◌, none, some, Str, text, ok, err,
  message, Result, cache_miss, Option, Error, ◌<◌,
}
use lets_proxy.Cache.Memory.{memory_bytes, memory_laws}
use lets_proxy.Cert.Check.{rsa_private, Certificate}
use lets_proxy.Cert.State.{issue_done, empty_cert_state, get_cert}
use lets_proxy.Cert.Description.Names.{names_disjoint}
use lets_proxy.Fixtures.{cert, crypto, description, host, world, storage}
use lets_proxy.Manager.Challenge.{http01}
use lets_proxy.Manager.Issue.{
  AcmeClientManager, IssueSettings, Issuer, issue_certificate, create_certificate_for_domains,
  client_loop, order_error, issue_new_cert,
}
use lets_proxy.Manager.Issue.Finished.{create_certificate_for_domains-finishes}
use lets_proxy.Manager.Issue.Orders.{client_loop-refused}
use lets_proxy.Manager.Issue.Stored.{FilesApart, load-issue_certificate}
use lets_proxy.Manager.Key.{KeyCodec}
use lets_proxy.Manager.Order.{AcmeClient}
use lets_proxy.Manager.Order.Fixtures.{acme_client, order}
use lets_proxy.Manager.Serve.{cert_state_get, state_at}
use lets_proxy.Manager.Storage.{load_certificate_from_cache}

abbrev manager : AcmeClientManager
manager = record { client = acme_client; get_client = λ s. (s, none); disable = λ s. s }

-- An authority with too many orders.
abbrev busy : AcmeClientManager
busy = record manager {
  client = record acme_client {
    authorize_order = λ s _. (s, err (message (text "too many new orders recently")));
  };
}

abbrev codec : KeyCodec
codec = record {
  decode = λ _. none;
  parse_pkcs1 = λ _. ok (rsa_private 7);
  parse_pkcs8 = λ _. err cache_miss;
  parse_ec = λ _. err cache_miss;
  generate_rsa = ok (rsa_private 7);
  generate_ecdsa = err cache_miss;
  create_certificate_request = λ _ _ _. ok (text "CSR");
}

abbrev settings : IssueSettings
settings = record { types = http01 ∷ []; save_json_meta = true; rounds = 3; clients = 2 }

abbrev issuer : (m : AcmeClientManager) → m.client.Server → Issuer m memory_bytes
issuer m s = record { world = world []; server = s; http_tokens = storage []; started = [] }

issue_new_cert_test :
    (issue_new_cert manager memory_bytes crypto codec settings
      (λ d. (true, none))
      (λ ds. ds)
      (issuer manager true)
      host
      description
      (issue_done empty_cert_state)
      500).1
    ≡ ok cert
unfolding issue_new_cert create_certificate_for_domains state_at cert_state_get
    lets_proxy.Manager.Issue.finish_at client_loop
    lets_proxy.Manager.Issue.create_order_and_certificate
    lets_proxy.Manager.Order.create_order_for_domains lets_proxy.Manager.Order.order_loop
    lets_proxy.Manager.Order.order_round lets_proxy.Manager.Order.await_order
    lets_proxy.Manager.Order.authorize_all lets_proxy.Manager.Order.try_types
    lets_proxy.Manager.Order.try_type lets_proxy.Base.Dict.insert lets_proxy.Base.Dict.lookup
    lets_proxy.Base.has_prefix lets_proxy.Base.str_eq lets_proxy.Cache.Lru.put
    lets_proxy.Cache.Lru.get lets_proxy.Cache.Lru.time lets_proxy.Cert.Check.check_keys
    lets_proxy.Cert.Check.check_leaf lets_proxy.Cert.Check.valid_cert_der
    lets_proxy.Cert.Check.valid_cert_tls lets_proxy.Cert.Check.verify_domains
    lets_proxy.Cert.Description.key_store_name lets_proxy.Cert.Description.key_string
    lets_proxy.Cert.Description.to_string lets_proxy.Cert.State.cancel
    lets_proxy.Cert.State.checked_cert lets_proxy.Cert.State.finish_issue
    lets_proxy.Cert.State.finish_locked lets_proxy.Cert.State.start_issue
    lets_proxy.Manager.Challenge.pick_challenge lets_proxy.Manager.Issue.contains
    lets_proxy.Manager.Issue.is_err_too_many_orders issue_certificate
    lets_proxy.Manager.Issue.prepare lets_proxy.Manager.Issue.store_issued
    lets_proxy.Manager.Key.cert_key_get_or_create lets_proxy.Manager.Key.create_cert_request
    lets_proxy.Manager.Key.generate lets_proxy.Manager.Key.get_certificate_key
    lets_proxy.Manager.Storage.get_certificate_key_bytes
    lets_proxy.Manager.Storage.store_certificate_meta lets_proxy.Cache.Memory.get
    lets_proxy.Cache.Memory.put lets_proxy.Cache.Memory.delete
    lets_proxy.Manager.Storage.is_cert_locked lets_proxy.Manager.Storage.parse_leaf
    lets_proxy.Manager.Storage.store_certificate lets_proxy.Manager.Storage.seems_locked
    lets_proxy.Manager.Storage.get_key_type lets_proxy.Manager.Storage.private_key_bytes
    lets_proxy.Manager.Storage.store_pair lets_proxy.Cert.Description.cert_store_name
    lets_proxy.Cert.Description.meta_store_name lets_proxy.Cert.Check.flat_byte_slices
    lets_proxy.Cert.Description.domain_names lets_proxy.Manager.Order.try_challenge
    lets_proxy.Manager.Order.run_deferred lets_proxy.Manager.Challenge.fulfill
    lets_proxy.Manager.Challenge.clean_up
issue_new_cert_test = refl

create_certificate_for_domains-finishes_example :
    let (w1, address) = cert_state_get memory_bytes (world []) description in
    let (st', cert', e) =
      create_certificate_for_domains manager memory_bytes crypto codec settings
        (issuer manager true)
        description
        (host ∷ [])
        (issue_done empty_cert_state)
        500 in
    ((id : ℕ)
      → (state_at memory_bytes w1 address).issue_context ≡ some id
      → (st'.server ≡ true) × (st'.started ≡ []) × (st'.world ≡ w1))
    × ((state_at memory_bytes w1 address).issue_context ≡ none
        → ((state_at memory_bytes st'.world address).issue_context ≡ none)
          × (get_cert (state_at memory_bytes st'.world address) ≡ (cert', e))
          × (st'.world.contexts.done ≡ w1.contexts.made ∷ w1.contexts.done))
unfolding cert_state_get lets_proxy.Cache.Lru.get lets_proxy.Base.Dict.lookup
create_certificate_for_domains-finishes_example =
    create_certificate_for_domains-finishes manager memory_bytes crypto codec settings
      (issuer manager true) description (host ∷ []) (issue_done empty_cert_state) 500 (omega arith)

files_apart : FilesApart memory_bytes memory_laws description
unfolding memory_laws
files_apart =
    let (a, b, c, d, e, f) = names_disjoint description description in
    (a, (λ q. b (sym q)), (λ q. d (sym q)), c, e, f)

load-issue_certificate_example :
    load_certificate_from_cache memory_bytes crypto
      (issue_certificate manager memory_bytes crypto codec settings
        (issuer manager false)
        description
        (order (text "ready"))
        500).0.world.store
      description
      500
    ≡ ok cert
unfolding issue_certificate lets_proxy.Manager.Storage.is_cert_locked
    lets_proxy.Manager.Storage.parse_leaf lets_proxy.Manager.Storage.store_certificate
    lets_proxy.Manager.Storage.seems_locked lets_proxy.Manager.Storage.get_key_type
    lets_proxy.Manager.Storage.private_key_bytes lets_proxy.Manager.Storage.store_pair
    lets_proxy.Cert.Description.cert_store_name lets_proxy.Cert.Description.meta_store_name
    lets_proxy.Cert.Check.flat_byte_slices lets_proxy.Cert.Description.domain_names
    lets_proxy.Manager.Order.try_challenge lets_proxy.Manager.Order.run_deferred
    lets_proxy.Manager.Challenge.fulfill lets_proxy.Manager.Challenge.clean_up
    lets_proxy.Manager.Order.try_type lets_proxy.Base.Dict.insert lets_proxy.Base.Dict.lookup
    lets_proxy.Base.has_prefix lets_proxy.Base.str_eq lets_proxy.Cache.Lru.put
    lets_proxy.Cache.Lru.get lets_proxy.Cache.Lru.time lets_proxy.Cert.Check.check_keys
    lets_proxy.Cert.Check.check_leaf lets_proxy.Cert.Check.valid_cert_der
    lets_proxy.Cert.Check.valid_cert_tls lets_proxy.Cert.Check.verify_domains
    lets_proxy.Cert.Description.key_store_name lets_proxy.Cert.Description.key_string
    lets_proxy.Cert.Description.to_string lets_proxy.Cert.State.cancel
    lets_proxy.Cert.State.checked_cert lets_proxy.Cert.State.finish_issue
    lets_proxy.Cert.State.finish_locked lets_proxy.Cert.State.start_issue
    lets_proxy.Manager.Challenge.pick_challenge lets_proxy.Manager.Issue.contains
    lets_proxy.Manager.Issue.is_err_too_many_orders lets_proxy.Manager.Issue.prepare
    lets_proxy.Manager.Issue.store_issued lets_proxy.Manager.Key.cert_key_get_or_create
    lets_proxy.Manager.Key.create_cert_request lets_proxy.Manager.Key.generate
    lets_proxy.Manager.Key.get_certificate_key lets_proxy.Manager.Storage.get_certificate_key_bytes
    lets_proxy.Manager.Storage.store_certificate_meta lets_proxy.Cache.Memory.get
    lets_proxy.Cache.Memory.put lets_proxy.Cache.Memory.delete
load-issue_certificate_example =
    load-issue_certificate memory_bytes memory_laws description manager crypto codec settings
      (issuer manager false) (order (text "ready")) cert 500 files_apart refl (λ key e. refl) refl

client_loop-refused_example :
    let (st', result) =
      client_loop busy memory_bytes crypto codec settings 2
        (issuer busy true)
        description
        (host ∷ [])
        500 in
    (result ≡ err order_error) × (st'.server ≡ true)
client_loop-refused_example =
    client_loop-refused busy memory_bytes crypto codec settings 1 2 (issuer busy true) description
      (host ∷ []) 500 (message (text "too many new orders recently")) refl refl refl

-- ===== src/Manager/Issue/Orders.antt =====
-- internal/cert_manager/manager.go: which errors make the issue try the next client.
use lets_proxy.Base.{◌≡◌, refl, has_prefix, ℕ, suc, List, none, false, Str, Error, err, arith}
use lets_proxy.Cache.Bytes.{Bytes}
use lets_proxy.Cert.Check.{Crypto}
use lets_proxy.Cert.Description.{CertDescription}
use lets_proxy.Manager.Challenge.{Answers}
use lets_proxy.Manager.Issue.{
  AcmeClientManager, IssueSettings, Issuer, client_loop, create_order_and_certificate,
  is_err_too_many_orders, contains, order_error,
}
use lets_proxy.Manager.Key.{KeyCodec}
use lets_proxy.Manager.Order.Refused.{create_order_for_domains-refused}

order_error_lem : is_err_too_many_orders order_error ≡ false
unfolding is_err_too_many_orders contains has_prefix
order_error_lem = refl

-- When the authority refuses an order, with whatever error, one about too many orders included, the
-- issue ends with the error of createOrderAndCertificate: the client is not disabled and no other
-- client is asked for. This is for a context that is not done and a client that was got.
pub client_loop-refused :
    (manager : AcmeClientManager) (bytes : Bytes) (crypto : Crypto) (codec : KeyCodec)
    (settings : IssueSettings) (clients rounds : ℕ) (st : Issuer manager bytes)
    (cd : CertDescription) (domains : List Str) (now : ℕ) (e : Error)
    → settings.rounds ≡ suc rounds
    → (manager.get_client st.server).1 ≡ none
    → (manager.client.authorize_order (manager.get_client st.server).0 domains).1 ≡ err e
    → let (st', result) =
        client_loop manager bytes crypto codec settings (suc clients) st cd domains now in
      (result ≡ err order_error)
      × (st'.server ≡ (manager.client.authorize_order (manager.get_client st.server).0 domains).0)
unfolding client_loop create_order_and_certificate
client_loop-refused manager bytes crypto codec settings clients rounds st cd domains now e r got q =
    let answers : Answers = record {
      cert_for_domain_authorize = st.world.cert_for_domain_authorize;
      http_tokens = st.http_tokens;
    } in
    let refused =
      create_order_for_domains-refused manager.client rounds settings.types domains
        (manager.get_client st.server).0 answers e q in
    ground (arith, refused, order_error_lem)

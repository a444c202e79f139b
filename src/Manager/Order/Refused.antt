-- ===== src/Manager/Order/Refused.antt =====
-- internal/cert_manager/manager.go: an order that the authority refuses.
use lets_proxy.Base.{◌≡◌, arith, ℕ, suc, List, [], Str, Error, err}
use lets_proxy.Manager.Challenge.{Answers}
use lets_proxy.Manager.Order.{
  AcmeClient, Progress, failed, create_order_for_domains, order_loop, order_round,
}

order_round-refused :
    (client : AcmeClient) (types domains : List Str) (p : Progress client) (e : Error)
    → (client.authorize_order p.server domains).1 ≡ err e
    → order_round client types domains p
      ≡ (record p { server = (client.authorize_order p.server domains).0 }, failed e)
unfolding order_round
order_round-refused client types domains p e q = ground arith

pub create_order_for_domains-refused :
    (client : AcmeClient) (rounds : ℕ) (types domains : List Str) (server : client.Server)
    (answers : Answers) (e : Error)
    → (client.authorize_order server domains).1 ≡ err e
    → let (server', answers', started, result) =
        create_order_for_domains client (suc rounds) types domains server answers in
      (server' ≡ (client.authorize_order server domains).0) × (result ≡ err e)
unfolding create_order_for_domains order_loop
create_order_for_domains-refused client rounds types domains server answers e q =
    let start : Progress client = record { server = server; answers = answers; defers = [] } in
    ground (arith, order_round-refused client types domains start e q)

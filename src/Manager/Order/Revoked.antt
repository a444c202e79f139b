-- ===== src/Manager/Order/Revoked.antt =====
-- internal/cert_manager/manager.go: no authorization stays pending.
use lets_proxy.Base.{
  ◌≡◌, ◌≢◌, is_ok, refl, sym, ◌∙◌, inl, inr, List, [], ◌∷◌, true, Str, ok, Result-cases, is_result,
  is_error, Bool-cases, In, str_eq, str_eq_iff, none,
}
use mathlib.Core.Bool.{true≢false}
use lets_proxy.Manager.Order.{
  deactivate_if_pending, AcmeClient, Authorization, deactivate_pending_authz, status_pending,
}

-- What RFC 8555 says of the two methods, by the status that the server keeps for an authorization: to
-- read one changes none and tells its status; to revoke one changes no other, and ends its pending.
pub record KeepsStatus (client : AcmeClient) (status : client.Server → Str → Str) : Type 0 where
  pub get_authorization-status :
      (s : client.Server) (u : Str) (z : Authorization)
      → (client.get_authorization s u).1 ≡ ok z
      → z.status ≡ status s u
  pub get_authorization-frame :
      (s : client.Server) (u v : Str) → status (client.get_authorization s u).0 v ≡ status s v
  pub revoke_authorization-ends :
      (s : client.Server) (u : Str)
      → (client.revoke_authorization s u).1 ≡ none
      → status (client.revoke_authorization s u).0 u ≢ status_pending
  pub revoke_authorization-frame :
      (s : client.Server) (u v : Str)
      → v ≢ u
      → status (client.revoke_authorization s u).0 v ≡ status s v

module _ (client : AcmeClient) (status : client.Server → Str → Str)
    (laws : KeepsStatus client status) where
  deactivate_if_pending-settled :
      (s : client.Server) (u v : Str)
      → status s v ≢ status_pending
      → status (deactivate_if_pending client s u) v ≡ status s v
  unfolding deactivate_if_pending
  deactivate_if_pending-settled s u v n =
      let s1 = (client.get_authorization s u).0 in
      let read : status s1 v ≡ status s v = laws.get_authorization-frame s u v in
      elim (Result-cases (client.get_authorization s u).1) [
        | is_error e q ↦ rw (deactivate_if_pending, q) read
        | is_result z q ↦
            rw (deactivate_if_pending, q)
              (elim (Bool-cases (str_eq z.status status_pending)) [
                | inr other ↦ rw other read
                | inl pending ↦ rw pending (
                    laws.revoke_authorization-frame s1 u v (λ same. n (
                      rw same (
                        sym (laws.get_authorization-status s u z q)
                        ∙ (str_eq_iff z.status status_pending).0 pending)))
                    ∙ read)
              ])
      ]

  deactivate_if_pending-ends :
      (s : client.Server) (u : Str)
      → is_ok (client.get_authorization s u).1 ≡ true
      → (client.revoke_authorization (client.get_authorization s u).0 u).1 ≡ none
      → status (deactivate_if_pending client s u) u ≢ status_pending
  unfolding deactivate_if_pending
  deactivate_if_pending-ends s u answered revokes =
      let s1 = (client.get_authorization s u).0 in
      elim (Result-cases (client.get_authorization s u).1) [
        | is_error e q ↦ absurd cc
        | is_result z q ↦
            rw (deactivate_if_pending, q)
              (elim (Bool-cases (str_eq z.status status_pending)) [
                | inl pending ↦ rw pending (laws.revoke_authorization-ends s1 u revokes)
                | inr other ↦ rw other (λ p. true≢false (
                    sym (
                      (str_eq_iff z.status status_pending).1 (
                        laws.get_authorization-status s u z q
                        ∙ sym (laws.get_authorization-frame s u u)
                        ∙ p))
                    ∙ other))
              ])
      ]

  deactivate_pending_authz-settled :
      (s : client.Server) (uries : List Str) (v : Str)
      → status s v ≢ status_pending
      → status (deactivate_pending_authz client s uries) v ≡ status s v
  unfolding deactivate_pending_authz
  deactivate_pending_authz-settled s [] v n = refl
  deactivate_pending_authz-settled s (uri ∷ uries) v n =
      let step = deactivate_if_pending-settled s uri v n in
      deactivate_pending_authz-settled (deactivate_if_pending client s uri) uries v
        (λ e. n (sym step ∙ e))
      ∙ step

  -- deactivatePendingAuthz, for an authority that answers and revokes: afterwards none of the listed
  -- authorizations is pending, and an authorization that was not pending has kept its status.
  pub deactivate_pending_authz-ends :
      (s : client.Server) (uries : List Str)
      → ((s : client.Server) (u : Str)
          → In u uries
          → (is_ok (client.get_authorization s u).1 ≡ true)
            × ((client.revoke_authorization s u).1 ≡ none))
      → ((u : Str)
          → In u uries
          → status (deactivate_pending_authz client s uries) u ≢ status_pending)
        × ((u : Str)
            → status s u ≢ status_pending
            → status (deactivate_pending_authz client s uries) u ≡ status s u)
  unfolding deactivate_pending_authz
  deactivate_pending_authz-ends s [] serves = ((λ u m. absurd m), λ u n. refl)
  deactivate_pending_authz-ends s (uri ∷ uries) serves =
      let s1 = deactivate_if_pending client s uri in
      let ended =
        deactivate_if_pending-ends s uri (serves s uri (inl refl)).0
          (serves (client.get_authorization s uri).0 uri (inl refl)).1 in
      let (rest, _) = deactivate_pending_authz-ends s1 uries (λ t u m. serves t u (inr m)) in
      (
        λ u m. elim m [
          | inr t ↦ rest u t
          | inl e ↦
              rw e (λ p. ended (sym (deactivate_pending_authz-settled s1 uries uri ended) ∙ p))
        ],
        deactivate_pending_authz-settled s (uri ∷ uries),
      )

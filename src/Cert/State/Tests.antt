-- ===== src/Cert/State/Tests.antt =====
-- internal/cert_manager/cert-state.go on a concrete history.
use lets_proxy.Base.{◌≡◌, ◌≢◌, ◌↔◌, ◌≤◌, refl, In, ◌⊎◌, ◌∷◌, [], true, none, some}
use lets_proxy.Fixtures.{cert}
use lets_proxy.Cert.State.{start_issue, finish_locked}
use lets_proxy.Cert.State.Issue.{
  World, start_world, started, finished, Reach, here, next, starts, finishes, reached_one_issuer,
}
use lets_proxy.Cert.State.Waiting.{reached_wake, Wakes}

-- An issue is started, and a second caller asks; then it finishes.
abbrev busy : World
busy = started (started (start_world 0))

abbrev finished_world : World
finished_world = finished busy 0 (some cert) none

busy-Reach : Reach (start_world 0) busy
busy-Reach = next (next here starts) starts

reached_one_issuer_example :
    (busy.issuing ≤ 1) × (((start_issue busy.state busy.contexts).2 ≡ true) ↔ (busy.issuing ≡ 0))
reached_one_issuer_example = reached_one_issuer 0 busy busy-Reach

reached_wake_example :
    (In 0 finished_world.contexts.done → finished_world.state.issue_context ≢ some 0)
    × (finished_world.state.issue_context ≢ some 0
        → In 0 finished_world.contexts.done ⊎ Wakes 0 finished_world)
unfolding started finished start_issue
reached_wake_example =
    reached_wake 0 0 busy finished_world busy-Reach refl
      (next here (finishes 0 (some cert) none refl))

-- Between the release of the mutex and the cancelling the waiter still waits.
window : (finished_world.cancelling ≡ 0 ∷ []) × (finished_world.contexts.done ≡ [])
unfolding started finished start_issue finish_locked
window = (refl, refl)

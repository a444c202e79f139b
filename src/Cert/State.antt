-- ===== src/Cert/State.antt =====
-- internal/cert_manager/cert-state.go: the state that the requests for one certificate share. A
-- method that holds the mutex is one step, and the cancelling behind it in `FinishIssue` is
-- another. A context is named by a number; what a `cancel` function does is kept in a list of the
-- contexts that are done. The logger's `DPanic` only logs, as in the production mode of the
-- program.
pub mod Issue
pub mod Waiting
mod Tests
use lets_proxy.Base.{
  ℕ, suc, List, [], ◌∷◌, Option, none, some, Bool, true, false, Error, cache_miss, is_some,
  if◌then◌else◌, ◌&&◌, ◌||◌, not,
}
use lets_proxy.Cert.Check.{Certificate}

pub record CertState : Type 0 where
  pub issue_context : Option ℕ
  pub cert : Option Certificate
  pub use_as_is : Bool
  pub last_error : Option Error

-- The contexts that the process has made so far, and those that are done.
pub record Contexts : Type 0 where
  pub made : ℕ
  pub done : List ℕ

-- `&certState{}`
abbrev pub empty_cert_state : CertState
empty_cert_state = record {
  issue_context = none;
  cert = none;
  use_as_is = false;
  last_error = none;
}

unfoldable pub start_issue : CertState → Contexts → CertState × Contexts × Bool
start_issue s ctxs = elim s.issue_context [
  | none ↦ (record s { issue_context = some ctxs.made }, record ctxs { made = suc ctxs.made }, true)
  | some _ ↦ (s, ctxs, false)
]

-- The certificate that `FinishIssue` keeps: none, if not exactly one of the two is given.
unfoldable pub checked_cert : Option Certificate → Option Error → Option Certificate
checked_cert cert last_error =
    if (is_some cert && is_some last_error) || (not (is_some cert) && not (is_some last_error))
    then none
    else cert

unfoldable pub cancel : Option ℕ → Contexts → Contexts
cancel none ctxs = ctxs
cancel (some id) ctxs = record ctxs { done = id ∷ ctxs.done }

-- What `FinishIssue` does with the mutex held: the new state, and the context of the issue, which it
-- cancels after that.
unfoldable pub finish_locked : CertState → Option Certificate → Option Error → CertState × Option ℕ
finish_locked s cert last_error = (
  record s { cert = checked_cert cert last_error; issue_context = none; last_error = last_error },
  s.issue_context,
)

unfoldable pub finish_issue :
    CertState → Contexts → Option Certificate → Option Error → CertState × Contexts
finish_issue s ctxs cert last_error =
    let (s', old_context) = finish_locked s cert last_error in (s', cancel old_context ctxs)

-- `Cert`
unfoldable pub get_cert : CertState → Option Certificate × Option Error
get_cert s =
    if not (is_some s.cert) && not (is_some s.last_error)
    then (s.cert, some cache_miss)
    else (s.cert, s.last_error)

unfoldable pub cert_set : CertState → Bool → Option Certificate → CertState
cert_set s locked cert = record s { cert = cert; use_as_is = locked; last_error = none }

unfoldable pub get_use_as_is : CertState → Bool
get_use_as_is s = s.use_as_is

-- What ends the `select` of `WaitFinishIssue`: the caller's context, with its error, or the
-- context of the issue, when the state is what it is then.
pub data Wake : Type 0 where
  ctx_done : Error → Wake
  issue_done : CertState → Wake

-- The first argument is the state when the method is called.
pub wait_finish_issue : CertState → Wake → Option Certificate × Option Error
wait_finish_issue s wake = elim s.issue_context [
  | none ↦ (s.cert, s.last_error)
  | some _ ↦ elim wake [ ctx_done e ↦ (none, some e) | issue_done later ↦ get_cert later ]
]

-- ===== src/Cert/State/Waiting.antt =====
-- `WaitFinishIssue` of internal/cert_manager/cert-state.go: a waiter is woken when the issue that it
-- waits for has finished, and not before.
use lets_proxy.Base.{
  ℕ, ◌<◌, ◌≡◌, ◌≢◌, ◌⊎◌, inl, inr, List, ◌∷◌, ◌++◌, Option, some, arith, In, Some-other, In-split,
  Option-cases, refl, some-injective, subst, Error,
}
use lets_proxy.Cert.Check.{Certificate}
use lets_proxy.Cert.State.{start_issue, cancel, finish_locked, cert_set}
use lets_proxy.Cert.State.Issue.{
  World, start_world, started, finished, cancelled, Step, starts, finishes, cancels, sets, Reach,
  here, next, Inv, Pending, Reach-Inv, start-Inv,
}

-- The issue with this context is in progress, or it is over: its context was made and is done or about
-- to be cancelled, and is not the context of an issue in progress.
data Follows (id : ℕ) (w : World) : Type 0 where
  current : w.state.issue_context ≡ some id → Follows id w
  over :
      In id w.contexts.done ⊎ In id w.cancelling
      → id < w.contexts.made
      → w.state.issue_context ≢ some id
      → Follows id w

started-Follows : (id : ℕ) (w : World) → Inv w → Follows id w → Follows id (started w)
unfolding started start_issue
started-Follows id w v (current e) = rw (e, started, start_issue) (current e)
started-Follows id w v (over m h ne) = elim (Option-cases w.state.issue_context) [
  | inl idle ↦
      rw (idle, started, start_issue)
        (over m (omega arith) (λ q. absurd (omega (arith, some-injective _ _ q))))
  | inr (id', busy) ↦ rw (busy, started, start_issue) (over m h ne)
]

finished-Follows :
    (id n : ℕ) (cert : Option Certificate) (last_error : Option Error) (w : World)
    → Inv w
    → Follows id w
    → Follows id (finished w n cert last_error)
unfolding finished finish_locked
finished-Follows id n cert last_error w v (current e) =
    let p : Pending (some id) w.contexts w.cancelling = rw e at v.pending in
    rw (e, finished, finish_locked) (over (inr (inl refl)) p.0 (λ q. cc))
finished-Follows id n cert last_error w v (over m h ne) =
    elim (Option-cases w.state.issue_context) [
      | inl idle ↦ rw (idle, finished, finish_locked) (over m h (λ q. cc))
      | inr (id', busy) ↦ rw (busy, finished, finish_locked) (over (later id' m) h (λ q. cc))
    ]
  where
    later :
        (id' : ℕ)
        → In id w.contexts.done ⊎ In id w.cancelling
        → In id w.contexts.done ⊎ In id (id' ∷ w.cancelling)
    later id' (inl d) = inl d
    later id' (inr c) = inr (inr c)

cancelled-Follows :
    (id : ℕ) (w : World) (xs : List ℕ) (i : ℕ) (ys : List ℕ)
    → w.cancelling ≡ xs ++ i ∷ ys
    → Follows id w
    → Follows id (cancelled w xs i ys)
unfolding cancelled cancel
cancelled-Follows id w xs i ys e (current q) = current q
cancelled-Follows id w xs i ys e (over (inl d) h ne) = over (inl (inr d)) h ne
cancelled-Follows id w xs i ys e (over (inr c) h ne) =
    elim (Some-other (λ x. id ≡ x) xs i ys (subst (In id) e c)) [
      | inl same ↦ over (inl (inl same)) h ne
      | inr others ↦ over (inr others) h ne
    ]

Step-Follows : {id : ℕ} {w u : World} → Inv w → Step w u → Follows id w → Follows id u
unfolding cert_set
Step-Follows {id} {w} v starts f = started-Follows id w v f
Step-Follows {id} {w} v (finishes n cert last_error e) f =
    finished-Follows id n cert last_error w v f
Step-Follows {id} {w} v (cancels xs i ys e) f = cancelled-Follows id w xs i ys e f
Step-Follows v (sets locked cert) (current e) = current e
Step-Follows v (sets locked cert) (over m h ne) = over m h ne

Reach-Follows : {id : ℕ} {w u : World} → Inv w → Follows id w → Reach w u → Follows id u
Reach-Follows v f here = f
Reach-Follows v f (next r s) = Step-Follows (Reach-Inv v r) s (Reach-Follows v f r)

-- A step that cancels a context which waits for it, and leaves the state.
abbrev pub Wakes : ℕ → World → Type 0
Wakes id u = (v : World) × Step u v × (v.state ≡ u.state) × In id v.contexts.done

cancel-Wakes : (id : ℕ) (u : World) → In id u.cancelling → Wakes id u
unfolding cancelled cancel
cancel-Wakes id u m =
    let (xs, ys, e) = In-split id u.cancelling m in
    (cancelled u xs id ys, cancels xs id ys e, refl, inl refl)

-- A caller that finds an issue in progress waits on its context. From then on, whatever happens: when
-- that context is done, that issue is no longer in progress, so that the caller is not woken before
-- the state is updated; and when that issue is no longer in progress, the context is done, or its
-- cancelling is the one step that is left, which is possible and wakes the caller.
pub reached_wake :
    (n id : ℕ) (w u : World)
    → Reach (start_world n) w
    → w.state.issue_context ≡ some id
    → Reach w u
    → (In id u.contexts.done → u.state.issue_context ≢ some id)
      × (u.state.issue_context ≢ some id → In id u.contexts.done ⊎ Wakes id u)
reached_wake n id w u r e r' =
    let v = Reach-Inv (start-Inv n) r in woken (Reach-Inv v r') (Reach-Follows v (current e) r')
  where
    done_or_wakes : In id u.contexts.done ⊎ In id u.cancelling → In id u.contexts.done ⊎ Wakes id u
    done_or_wakes (inl d) = inl d
    done_or_wakes (inr c) = inr (cancel-Wakes id u c)

    woken :
        Inv u
        → Follows id u
        → (In id u.contexts.done → u.state.issue_context ≢ some id)
          × (u.state.issue_context ≢ some id → In id u.contexts.done ⊎ Wakes id u)
    woken v (current e) =
        let p : Pending (some id) u.contexts u.cancelling = rw e at v.pending in
        (λ m. absurd (p.1 m), λ ne. absurd (ne e))
    woken v (over m h ne) = (λ _. ne, λ _. done_or_wakes m)

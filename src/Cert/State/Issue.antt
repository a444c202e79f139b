-- ===== src/Cert/State/Issue.antt =====
-- internal/cert_manager/cert-state.go under any interleaving of its callers.
use lets_proxy.Base.{
  ℕ, suc, ◌≤◌, ◌<◌, ◌≡◌, refl, ◌⊎◌, inl, inr, List, [], Option, none, some, Bool, true, false,
  Error, arith, In, Option-cases, cache_miss, ◌↔◌, All, All-In, All-mono, ◌++◌, ◌∷◌, subst,
  In-middle, All-middle,
}
use lets_proxy.Cert.Check.{Certificate}
use lets_proxy.Cert.State.{
  CertState, Contexts, empty_cert_state, start_issue, checked_cert, cancel, finish_locked, get_cert,
  cert_set,
}

-- The state, the contexts, the number of callers to whom `StartIssue` said yes and that have
-- not called `FinishIssue` since (createCertificateForDomains calls it in a defer), and the contexts
-- that a `FinishIssue` which has released the mutex is about to cancel.
pub record World : Type 0 where
  pub state : CertState
  pub contexts : Contexts
  pub issuing : ℕ
  pub cancelling : List ℕ

abbrev pub start_world : ℕ → World
start_world n = record {
  state = empty_cert_state;
  contexts = record { made = n; done = [] };
  issuing = 0;
  cancelling = [];
}

abbrev count_issue : Bool → ℕ → ℕ
count_issue true n = suc n
count_issue false n = n

unfoldable pub started : World → World
started w =
    let (s, c, yes_) = start_issue w.state w.contexts in
    record w { state = s; contexts = c; issuing = count_issue yes_ w.issuing }

abbrev pub with_old : Option ℕ → List ℕ → List ℕ
with_old none ids = ids
with_old (some id) ids = id ∷ ids

-- `FinishIssue` until it releases the mutex.
unfoldable pub finished : World → ℕ → Option Certificate → Option Error → World
finished w n cert last_error =
    let (s, old_context) = finish_locked w.state cert last_error in
    record w { state = s; issuing = n; cancelling = with_old old_context w.cancelling }

-- The rest of `FinishIssue`: the call of `oldCancel`. `xs` and `ys` are the others that wait for theirs.
unfoldable pub cancelled : World → List ℕ → ℕ → List ℕ → World
cancelled w xs id ys = record w { contexts = cancel (some id) w.contexts; cancelling = xs ++ ys }

pub data Step (w : World) : World → Type 0 where
  starts : Step w (started w)
  finishes :
      (n : ℕ) (cert : Option Certificate) (last_error : Option Error)
      → w.issuing ≡ suc n
      → Step w (finished w n cert last_error)
  cancels :
      (xs : List ℕ) (id : ℕ) (ys : List ℕ)
      → w.cancelling ≡ xs ++ id ∷ ys
      → Step w (cancelled w xs id ys)
  sets :
      (locked : Bool) (cert : Option Certificate)
      → Step w (record w { state = cert_set w.state locked cert })

pub data Reach (w : World) : World → Type 0 where
  here : Reach w w
  next : {u v : World} → Reach w u → Step u v → Reach w v

-- The number of issues in progress, as the state shows it.
abbrev pub in_progress : Option ℕ → ℕ
in_progress none = 0
in_progress (some _) = 1

abbrev pub Exclusive : Option Certificate → Option Error → Type 0
Exclusive (some _) (some _) = ⊥
Exclusive _ _ = Unit

-- The context of the issue in progress, if any, was made, is not done, and nobody is about to cancel
-- it.
abbrev pub Pending : Option ℕ → Contexts → List ℕ → Type 0
Pending none ctxs ids = Unit
Pending (some id) ctxs ids = (id < ctxs.made) × (¬ In id ctxs.done) × ¬ In id ids

pub record Inv (w : World) : Type 0 where
  pub one : w.issuing ≡ in_progress w.state.issue_context
  pub exclusive : Exclusive w.state.cert w.state.last_error
  pub pending : Pending w.state.issue_context w.contexts w.cancelling
  pub known : All (λ id. id < w.contexts.made) w.contexts.done
  pub awaited : All (λ id. id < w.contexts.made) w.cancelling

abbrev Below : ℕ → List ℕ → Type 0
Below n = All (λ id. id < n)

unmade : (n : ℕ) (ids : List ℕ) → Below n ids → ¬ In n ids
unmade n ids b m = absurd (omega (arith, All-In (λ id. id < n) ids n b m))

started-Inv : (w : World) → Inv w → Inv (started w)
unfolding started start_issue
started-Inv w v = elim (Option-cases w.state.issue_context) [
  | inl idle ↦
      rw (idle, started, start_issue)
        (record {
          one = ground (arith, v.one);
          exclusive = v.exclusive;
          pending = (
            omega arith,
            unmade w.contexts.made w.contexts.done v.known,
            unmade w.contexts.made w.cancelling v.awaited,
          );
          known = All-mono (λ id h. omega arith) w.contexts.done v.known;
          awaited = All-mono (λ id h. omega arith) w.cancelling v.awaited;
        })
  | inr (id, busy) ↦
      rw (busy, started, start_issue)
        (record {
          one = ground (arith, v.one);
          exclusive = v.exclusive;
          pending = v.pending;
          known = v.known;
          awaited = v.awaited;
        })
]

Exclusive-checked_cert :
    (cert : Option Certificate) (last_error : Option Error)
    → Exclusive (checked_cert cert last_error) last_error
unfolding checked_cert
Exclusive-checked_cert none none = tt
Exclusive-checked_cert none (some e) = tt
Exclusive-checked_cert (some c) none = tt
Exclusive-checked_cert (some c) (some e) = tt

Below-with_old :
    (o : Option ℕ) (ctxs : Contexts) (ids : List ℕ)
    → Pending o ctxs ids
    → Below ctxs.made ids
    → Below ctxs.made (with_old o ids)
Below-with_old none ctxs ids p k = k
Below-with_old (some id) ctxs ids p k = (p.0, k)

finished-Inv :
    (w : World) (n : ℕ) (cert : Option Certificate) (last_error : Option Error)
    → w.issuing ≡ suc n
    → Inv w
    → Inv (finished w n cert last_error)
unfolding finished finish_locked
finished-Inv w n cert last_error e v = record {
  one = ground (arith, v.one);
  exclusive = Exclusive-checked_cert cert last_error;
  pending = tt;
  known = v.known;
  awaited = Below-with_old w.state.issue_context w.contexts w.cancelling v.pending v.awaited;
}

Pending-cancel :
    (o : Option ℕ) (ctxs : Contexts) (xs : List ℕ) (id : ℕ) (ys : List ℕ)
    → Pending o ctxs (xs ++ id ∷ ys)
    → Pending o (cancel (some id) ctxs) (xs ++ ys)
unfolding cancel
Pending-cancel none ctxs xs id ys p = tt
Pending-cancel (some o) ctxs xs id ys (b, d, n) = (
  b,
  λ m. elim m [ inl e ↦ n (In-middle o xs id ys (inl e)) | inr h ↦ d h ],
  λ m. n (In-middle o xs id ys (inr m)),
)

cancelled-Inv :
    (w : World) (xs : List ℕ) (id : ℕ) (ys : List ℕ)
    → w.cancelling ≡ xs ++ id ∷ ys
    → Inv w
    → Inv (cancelled w xs id ys)
unfolding cancelled cancel
cancelled-Inv w xs id ys e v =
    let k : Below w.contexts.made (xs ++ id ∷ ys) = rw e at v.awaited in
    let (b, others) = All-middle (λ i. i < w.contexts.made) xs id ys k in
    record {
      one = v.one;
      exclusive = v.exclusive;
      pending =
          Pending-cancel w.state.issue_context w.contexts xs id ys
            (subst (Pending w.state.issue_context w.contexts) e v.pending);
      known = (b, v.known);
      awaited = others;
    }

Step-Inv : {w u : World} → Step w u → Inv w → Inv u
unfolding cert_set
Step-Inv {w} starts v = started-Inv w v
Step-Inv {w} (finishes n cert last_error e) v = finished-Inv w n cert last_error e v
Step-Inv {w} (cancels xs id ys e) v = cancelled-Inv w xs id ys e v
Step-Inv {w} (sets locked none) v = record {
  one = v.one;
  exclusive = tt;
  pending = v.pending;
  known = v.known;
  awaited = v.awaited;
}
Step-Inv {w} (sets locked (some c)) v = record {
  one = v.one;
  exclusive = tt;
  pending = v.pending;
  known = v.known;
  awaited = v.awaited;
}

pub Reach-Inv : {w u : World} → Inv w → Reach w u → Inv u
Reach-Inv v here = v
Reach-Inv v (next r s) = Step-Inv s (Reach-Inv v r)

pub start-Inv : (n : ℕ) → Inv (start_world n)
start-Inv n = record { one = refl; exclusive = tt; pending = tt; known = tt; awaited = tt }

-- However the callers of one state interleave, at most one of them issues a certificate at a time,
-- and `StartIssue` says yes exactly when none does.
pub reached_one_issuer :
    (n : ℕ) (w : World)
    → Reach (start_world n) w
    → (w.issuing ≤ 1) × (((start_issue w.state w.contexts).2 ≡ true) ↔ (w.issuing ≡ 0))
unfolding start_issue
reached_one_issuer n w r = ground (arith, (Reach-Inv (start-Inv n) r).one)

-- `Cert` of a reachable state gives a certificate or an error: never both, and never neither.
pub reached_cert_or_error :
    (n : ℕ) (w : World)
    → Reach (start_world n) w
    → ((c : Certificate) × (get_cert w.state ≡ (some c, none)))
      ⊎ ((e : Error) × (get_cert w.state ≡ (none, some e)))
unfolding get_cert
reached_cert_or_error n w r =
    split w.state.cert w.state.last_error refl refl (Reach-Inv (start-Inv n) r).exclusive
  where
    split :
        (c : Option Certificate) (e : Option Error)
        → w.state.cert ≡ c
        → w.state.last_error ≡ e
        → Exclusive w.state.cert w.state.last_error
        → ((c : Certificate) × (get_cert w.state ≡ (some c, none)))
          ⊎ ((e : Error) × (get_cert w.state ≡ (none, some e)))
    split none none p q x = inr (cache_miss, ground arith)
    split none (some e) p q x = inr (e, ground arith)
    split (some c) none p q x = inl (c, ground arith)
    split (some c) (some e) p q x =
        absurd (let y : Exclusive (some c) (some e) = rw (p, q) at x in y)

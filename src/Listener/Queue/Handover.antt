-- ===== src/Listener/Queue/Handover.antt =====
-- internal/tlslistener/tlslistenershandler.go: no connection is lost or handed over twice, and nothing
-- is sent on the closed channel.
use lets_proxy.Base.{
  ◌≡◌, ◌<◌, ◌≤◌, ℕ, suc, List, [], ◌∷◌, ◌++◌, Bool, true, false, length, text, message,
}
use lets_proxy.Listener.Queue.{Listener, new_listener, put, put_end, goes_on, fails, accept, close}

-- A history: the connections that `Put` took, those that `Accept` returned, in their order, and
-- whether a `Close` has returned without an error. A `Put` ends when its connection was received:
-- there are then more calls that hold the lock than connections that wait.
pub data Reach : Listener → List ℕ → List ℕ → Bool → Type 0 where
  here : Reach new_listener [] [] false
  puts :
      {l : Listener} {taken given : List ℕ} {ended : Bool} (conn : ℕ) {l' : Listener}
      → Reach l taken given ended
      → put l conn ≡ goes_on tt l'
      → Reach l' (taken ++ conn ∷ []) given ended
  ends :
      {l : Listener} {taken given : List ℕ} {ended : Bool}
      → Reach l taken given ended
      → length l.connections.senders < l.readers
      → Reach (put_end l) taken given ended
  accepts :
      {l : Listener} {taken given : List ℕ} {ended : Bool} (conn : ℕ) {l' : Listener}
      → Reach l taken given ended
      → accept l ≡ goes_on conn l'
      → Reach l' taken (given ++ conn ∷ []) ended
  closes :
      {l : Listener} {taken given : List ℕ} {ended : Bool} {l' : Listener}
      → Reach l taken given ended
      → close l ≡ goes_on tt l'
      → Reach l' taken given true

record Inv (l : Listener) (taken given : List ℕ) (ended : Bool) : Type 0 where
  order : taken ≡ given ++ l.connections.senders
  held : length l.connections.senders ≤ l.readers
  flag : l.closed ≡ ended
  channel : l.connections.is_closed ≡ ended
  empty : ended ≡ true → l.connections.senders ≡ []

-- The listener when a `Put` sends.
abbrev sending : Listener → ℕ → Listener
sending l conn = record l {
  connections = record l.connections { senders = l.connections.senders ++ conn ∷ [] };
  readers = suc l.readers;
}

-- What holds before and after the first `Close`.
abbrev pub Serves : Listener → List ℕ → List ℕ → Bool → Type 0
Serves l taken given false = (conn : ℕ) → (l' : Listener) × (put l conn ≡ goes_on tt l')
Serves l taken given true =
    (taken ≡ given)
    × ((conn : ℕ) → put l conn ≡ fails (message (text "listener closed")))
    × (accept l ≡ fails (message (text "listener closed")))
    × (l.readers ≡ 0 → close l ≡ fails (message (text "close closed proxy listener")))

-- ===== src/Listener/Queue.antt =====
-- internal/tlslistener/tlslistenershandler.go: `listenerType`, which hands over connections from those
-- who register them to the server. The steps are those between which the mutex or the channel can
-- make a call wait.
pub mod Handover
mod Tests
use lets_proxy.Base.{
  ℕ, zero, suc, ◌-◌, List, [], ◌∷◌, ◌++◌, Bool, true, false, text, if◌then◌else◌, Error, message,
}

-- The channel without a buffer: whether it is closed, and the connections that wait to be received, in
-- their order.
pub record Channel : Type 0 where
  pub is_closed : Bool
  pub senders : List ℕ

-- `listenerType`: `readers` are the read locks that are held on `mu`. The write lock is held within
-- one step only.
pub record Listener : Type 0 where
  pub closed : Bool
  pub connections : Channel
  pub readers : ℕ

unfoldable pub new_listener : Listener
new_listener = record {
  closed = false;
  connections = record { is_closed = false; senders = [] };
  readers = 0;
}

-- What a call comes to: it waits, it returns an error, it panics, or it goes on.
pub data Outcome (Value : Type 0) : Type 0 where
  waits : Outcome Value
  fails : Error → Outcome Value
  panics : Outcome Value
  goes_on : Value → Listener → Outcome Value

-- `Put` until it sends: it holds the read lock from then on. A send on a closed channel panics.
unfoldable pub put : Listener → ℕ → Outcome (Unit {0})
put l conn =
    if l.closed
    then fails (message (text "listener closed"))
    else if l.connections.is_closed
    then panics
    else goes_on tt (record l {
      connections = record l.connections { senders = l.connections.senders ++ conn ∷ [] };
      readers = suc l.readers;
    })

-- The end of a `Put` whose connection was received: it gives back its read lock.
unfoldable pub put_end : Listener → Listener
put_end l = record l { readers = l.readers - 1 }

-- `Accept`: a receive gets the connection of the first sender.
unfoldable pub accept : Listener → Outcome ℕ
accept l = elim l.connections.senders [
  | conn ∷ rest ↦ goes_on conn (record l { connections = record l.connections { senders = rest } })
  | [] ↦ if l.connections.is_closed then fails (message (text "listener closed")) else waits
]

-- `Close`: the lock is given when nobody holds a read lock. To close a closed channel panics.
unfoldable pub close : Listener → Outcome (Unit {0})
close l = elim l.readers [
  | suc _ ↦ waits
  | zero ↦
      if l.closed
      then fails (message (text "close closed proxy listener"))
      else if l.connections.is_closed
      then panics
      else goes_on tt
          (record l { closed = true; connections = record l.connections { is_closed = true } })
]

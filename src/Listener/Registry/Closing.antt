-- ===== src/Listener/Registry/Closing.antt =====
-- internal/tlslistener/tlslistenershandler.go and context_conn.go: the gauge and the contexts, however
-- the calls for several connections interleave.
use lets_proxy.Base.{
  ◌≡◌, ◌+◌, ◌⊎◌, List, [], ◌∷◌, ◌++◌, Option, some, Bool, true, Str, Error, length, All, Some, In,
}
use lets_proxy.Base.Dict.{lookup}
use lets_proxy.Listener.Registry.{
  ContextInfo, Registry, Connection, new_registry, register_connection, delete_context,
  cancel_context, call_close_handler,
}

-- The registry, and the connections by how far their closing is: open, with the handler called, with
-- the context deleted, and closed.
pub record World : Type 0 where
  pub registry : Registry
  pub opened : List Connection
  pub counted : List Connection
  pub deleted : List Connection
  pub closed : List Connection

abbrev pub start_world : World
start_world = record {
  registry = new_registry;
  opened = [];
  counted = [];
  deleted = [];
  closed = [];
}

abbrev pub registered : World → Str → Bool → World
registered w key tls = record w {
  registry = (register_connection w.registry key tls).0;
  opened = (register_connection w.registry key tls).1 ∷ w.opened;
}

-- What happens to the connections: one is registered, under any key; and an open one passes through
-- `Close`, or `finalizeContextConnection`, which calls the handler with an error. `xs` and `ys` are the
-- other connections of that stage.
pub data Step (w : World) : World → Type 0 where
  registers : (key : Str) (tls : Bool) → Step w (registered w key tls)
  counts :
      (xs : List Connection) (c : Connection) (ys : List Connection) (e : Option Error)
      → w.opened ≡ xs ++ c ∷ ys
      → Step w (record w {
        registry = call_close_handler w.registry c e;
        opened = xs ++ ys;
        counted = c ∷ w.counted;
      })
  deletes :
      (xs : List Connection) (c : Connection) (ys : List Connection)
      → w.counted ≡ xs ++ c ∷ ys
      → Step w (record w {
        registry = delete_context w.registry c;
        counted = xs ++ ys;
        deleted = c ∷ w.deleted;
      })
  cancels :
      (xs : List Connection) (c : Connection) (ys : List Connection)
      → w.deleted ≡ xs ++ c ∷ ys
      → Step w (record w {
        registry = cancel_context w.registry c;
        deleted = xs ++ ys;
        closed = c ∷ w.closed;
      })

pub data Reach : World → Type 0 where
  here : Reach start_world
  next : {w u : World} → Reach w → Step w u → Reach u

abbrev pub Has : Str → Connection → Type 0
Has key c = c.key ≡ key

-- The counters and the map agree with the stages of the connections.
pub record Agrees (w : World) : Type 0 where
  pub gauge : w.registry.counters.inflight_inc ≡ w.registry.counters.inflight_dec + length w.opened
  pub total : w.registry.counters.total ≡ w.registry.counters.inflight_inc
  pub finished :
      w.registry.counters.inflight_dec
      ≡ w.registry.counters.finished_ok + w.registry.counters.finished_err
  pub handled : All (λ c. c.has_close_handler ≡ true) w.opened
  pub used :
      (key : Str) (info : ContextInfo)
      → lookup key w.registry.connections_context ≡ some info
      → Some (Has key) w.opened ⊎ Some (Has key) w.counted
  pub cancelled : All (λ c. In c.ctx w.registry.done) w.closed

-- ===== src/Listener/Registry.antt =====
-- internal/tlslistener/tlslistenershandler.go and context_conn.go: the contexts of the connections. A
-- context is named by a number; `done` are those that are cancelled.
pub mod Closing
pub mod Counted
mod Tests
use lets_proxy.Base.{
  ℕ, suc, List, [], ◌∷◌, ◌++◌, Option, none, some, Bool, true, false, Str, text, Error, message,
  Result, ok, err,
}
use lets_proxy.Base.Dict.{lookup, insert, remove}
use lets_proxy.Metrics.{Counters, start, finish}
use lets_proxy.Metrics

-- `contextInfo`: the context with its values.
pub record ContextInfo : Type 0 where
  pub ctx : ℕ
  pub tls : Bool

-- `ListenersHandler`, what it keeps of connections.
pub record Registry : Type 0 where
  pub connections_context : List (Str × ContextInfo)
  pub made : ℕ
  pub done : List ℕ
  pub counters : Counters

-- `ContextConnextion`: the key, the context, and whether `connCloseHandler` is set.
pub record Connection : Type 0 where
  pub key : Str
  pub ctx : ℕ
  pub has_close_handler : Bool

-- `init` and `initMetrics`
unfoldable pub new_registry : Registry
new_registry = record {
  connections_context = [];
  made = 0;
  done = [];
  counters = Metrics.toef_counters;
}

abbrev pub connection_key : Str → Str → Str
connection_key remote_addr local_addr = remote_addr ++ text "-" ++ local_addr

-- `registerConnection`: a key that is there keeps its context.
unfoldable pub register_connection : Registry → Str → Bool → Registry × Connection
register_connection p key tls = elim (lookup key p.connections_context) [
  | some info ↦ (
    record p { counters = Metrics.start p.counters },
    record { key = key; ctx = info.ctx; has_close_handler = true },
  )
  | none ↦ (
    record p {
      connections_context = insert key (record { ctx = p.made; tls = tls }) p.connections_context;
      made = suc p.made;
      counters = Metrics.start p.counters;
    },
    record { key = key; ctx = p.made; has_close_handler = true },
  )
]

-- The `CloseFunc` of a connection: with the mutex held the context is deleted, and after that it is
-- cancelled.
unfoldable pub delete_context : Registry → Connection → Registry
delete_context p c = record p { connections_context = remove c.key p.connections_context }

unfoldable pub cancel_context : Registry → Connection → Registry
cancel_context p c = record p { done = c.ctx ∷ p.done }

unfoldable pub close_func : Registry → Connection → Registry
close_func p c = cancel_context (delete_context p c) c

-- The call of `connCloseHandler`, if it is set.
unfoldable pub call_close_handler : Registry → Connection → Option Error → Registry
call_close_handler p c e = elim c.has_close_handler [
  | true ↦ record p { counters = Metrics.finish p.counters e }
  | false ↦ p
]

-- `Close`: its receiver is a copy, so that what it resets is lost with it.
unfoldable pub close : Registry → Connection → Registry
close p c = close_func (call_close_handler p c none) c

-- `finalizeContextConnection`: here the receiver is a pointer, and the reset is seen by `Close`.
unfoldable pub finalize : Registry → Connection → Registry
finalize p c =
    close (call_close_handler p c (some (message (text "Leak connection"))))
      (record c { has_close_handler = false })

-- `GetConnectionContext`
pub get_connection_context : Registry → Str → Str → Result ContextInfo
get_connection_context p remote_addr local_addr =
    elim (lookup (connection_key remote_addr local_addr) p.connections_context) [
      | some info ↦ ok info
      | none ↦ err (message (text "not found registered connection"))
    ]

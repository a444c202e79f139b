-- ===== src/Listener/Registry/Counted.antt =====
-- internal/tlslistener/tlslistenershandler.go: the gauge of open connections when one is
-- closed twice.
use lets_proxy.Base.{
  ◌≡◌, refl, suc, ◌+◌, List, [], ◌∷◌, none, Bool, true, Str, arith, length, str_eq_refl,
}
use lets_proxy.Base.Dict.{
  lookup, insert, remove, lookup-insert_self, Distinct, Distinct-insert, length-remove,
  lookup-remove, remove_absent,
}
use lets_proxy.Metrics.{start, finish}
use lets_proxy.Listener.Registry.{
  ContextInfo, Registry, register_connection, close_func, delete_context, cancel_context,
  call_close_handler, close,
}

-- The gauge and the counters agree with the registered connections.
abbrev pub IsCounted : Registry → Type 0
IsCounted p =
    Distinct p.connections_context
    × (p.counters.inflight_inc ≡ p.counters.inflight_dec + length p.connections_context)
    × (p.counters.total ≡ p.counters.inflight_inc)
    × (p.counters.inflight_dec ≡ p.counters.finished_ok + p.counters.finished_err)

length-insert_absent :
    (k : Str) (v : ContextInfo) (m : List (Str × ContextInfo))
    → lookup k m ≡ none
    → length (insert k v m) ≡ suc (length m)
unfolding insert lookup
length-insert_absent k v [] e = refl
length-insert_absent k v ((j, w) ∷ m) e = ground (arith, length-insert_absent k v m)

register_connection-absent :
    (p : Registry) (key : Str) (tls : Bool)
    → lookup key p.connections_context ≡ none
    → register_connection p key tls ≡ (
      record p {
        connections_context = insert key (record { ctx = p.made; tls = tls }) p.connections_context;
        made = suc p.made;
        counters = start p.counters;
      },
      record { key = key; ctx = p.made; has_close_handler = true },
    )
unfolding register_connection
register_connection-absent p key tls absent = rw (register_connection, absent) refl

-- A connection that is closed twice is counted twice: the gauge is then below the number of the
-- registered connections by one. The connection's key must be new.
pub close-twice :
    (p : Registry) (key : Str) (tls : Bool)
    → IsCounted p
    → lookup key p.connections_context ≡ none
    → let (p1, c) = register_connection p key tls in
      let p3 = close (close p1 c) c in
      suc p3.counters.inflight_inc ≡ p3.counters.inflight_dec + length p3.connections_context
unfolding register_connection close close_func delete_context cancel_context call_close_handler
    start finish
close-twice p key tls counted absent =
    let info : ContextInfo = record { ctx = p.made; tls = tls } in
    let m = insert key info p.connections_context in
    let gone = lookup-remove key key m in
    rw (register_connection-absent p key tls absent) (
      ground (
        arith,
        counted.1,
        str_eq_refl key,
        length-insert_absent key info p.connections_context absent,
        length-remove key m info (Distinct-insert key info p.connections_context counted.0)
            (lookup-insert_self key info p.connections_context),
        remove_absent key (remove key m) (ground (arith, gone, str_eq_refl key)),
      ))

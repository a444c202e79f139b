-- ===== src/Listener/Registry/Tests.antt =====
-- internal/tlslistener/tlslistenershandler.go: a connection that is registered and closed.
use lets_proxy.Base.{◌≡◌, refl, suc, ◌+◌, length, [], ◌∷◌, true, Str, text}
use lets_proxy.Base.Dict.{lookup}
use lets_proxy.Listener.Registry.{new_registry, register_connection, close, Connection}
use lets_proxy.Listener.Registry.Closing.{World, start_world, registered}
use lets_proxy.Listener.Registry.Counted.{close-twice, IsCounted}

abbrev key : Str
key = text "a-b"

abbrev conn : Connection
conn = (register_connection new_registry key true).1

-- One connection is open, then it is closed.
abbrev closed_world : World
closed_world = record start_world {
  registry = close (registered start_world key true).registry conn;
  closed = conn ∷ [];
}

new_registry-IsCounted : IsCounted new_registry
unfolding new_registry lets_proxy.Metrics.toef_counters
new_registry-IsCounted = (tt, refl, refl, refl)

close-twice_example :
    let (p1, c) = register_connection new_registry key true in
    let p3 = close (close p1 c) c in
    suc p3.counters.inflight_inc ≡ p3.counters.inflight_dec + length p3.connections_context
unfolding new_registry lookup
close-twice_example = close-twice new_registry key true new_registry-IsCounted refl

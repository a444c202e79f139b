-- ===== src/Listener/Queue/Tests.antt =====
-- internal/tlslistener/tlslistenershandler.go: one connection is handed over before the close.
use lets_proxy.Base.{◌≡◌, refl, ℕ, List, [], ◌∷◌, true, false}
use lets_proxy.Listener.Queue.{Listener, waits, close}

abbrev final : Listener
final = record {
  closed = true;
  connections = record { is_closed = true; senders = [] };
  readers = 0;
}

abbrev one : List ℕ
one = 7 ∷ []

-- Close waits for a Put that nobody accepts.
close_waits_test :
    close (record {
      closed = false;
      connections = record { is_closed = false; senders = 7 ∷ [] };
      readers = 1;
    })
    ≡ waits
unfolding close
close_waits_test = refl

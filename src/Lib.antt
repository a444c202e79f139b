-- ===== src/Lib.antt =====
-- lets-proxy2: a reverse proxy that gets TLS certificates for the domains it serves.
--
-- A connection's hello reaches the certificate manager (internal/cert_manager), which looks for a
-- certificate in its local state (a value cache of internal/cache, of certificate states), then in
-- the storage (a byte cache of internal/cache), and else issues one through an account of
-- internal/acme_client_manager for the domains that internal/domain_checker allows.
--
-- Files:
--   Base: lists, texts as lists of bytes, errors and results, maps as association lists.
--   Cache/Lru: internal/cache/value_lru.go. A call under the lock is one step; the goroutines that a
--     call starts are counted and are steps of their own.
--   Cache/Bytes, Cache/Memory, Cache/Disk: internal/cache/interface.go, memory.go and disk.go. The
--     interface is a record of operations and a record of laws, which both implementations keep.
--   Cert/Check: internal/cert_manager/helpers.go. Cert/Description: cert_desctiption.go.
--     Cert/State: cert-state.go, with the interleavings of its callers.
--   Domain: internal/domain/domain.go.
--   Manager/Storage, Manager/Hello, Manager/Serve: the parts of internal/cert_manager/manager.go that
--     read and write the storage, that read the client's hello, and that answer it (GetCertificate,
--     getCertificate).
--   Manager/Challenge, Manager/Order, Manager/Key, Manager/Issue: the parts of manager.go that issue a
--     certificate: the answers to the challenges and HandleHTTPValidation, createOrderForDomains with
--     filterDomains and deactivatePendingAuthz, the private key, and issueNewCert with what it calls.
--   Acme/State, Acme/Accounts, Acme/Manager: internal/acme_client_manager, state.go and
--     client_manager.go. Goroutines and timers are lists in the state.
--   Checker: internal/domain_checker, chains.go, simple.go, config.go, ip_list.go and
--     ip_list_sources.go.
--   Dns/Resolver, Dns/Parallel: internal/dns, resolver.go and parallel.go.
--   Proxy/Director, Proxy/Config, Proxy/Server: internal/proxy, directors.go, config.go, http-proxy.go
--     and transport.go.
--   SecretHandler: internal/secrethandler/secret_handler.go. Metrics: internal/metrics/metrics.go.
--   Listener/Registry, Listener/Queue, Listener/Version: internal/tlslistener: the registered
--     connections and their counters, the proxy listener, the configuration and the TLS version.
--   Contexts: internal/contexthelper/contexthelper.go.
--   Command/Includes: the reading of the configuration of cmd/config.go.
--   Fixtures: concrete data of the tests, which stand in the Tests modules.
--
-- A pointer that may be nil is an Option, an instant a number of nanoseconds, a Go map an
-- association list, an int that may be negative a ℤ. The library calls (x509, tls, idna, regexp,
-- net, json, acme, pem, miekg/dns) are parameters. Some loops run on fuel: the migration of the
-- stored accounts on 2, as a state passes at most from version 0 to 1, the choice of the next
-- account on the number of accounts, as it goes round the list once, and the search for the PEM
-- block of a key on one more than the length of the text, as a decoded block leaves less behind it;
-- all are shown to end within it. The loops of an order and of the clients run on the number of
-- rounds that begin before their context is done, and then end with the error that the source gives
-- for it; a lookup runs on maxDNSRecursion, as in the source. The reading of the configuration runs
-- on the depth of its inclusions, of which two more than the limit on the files are enough.
--
-- The manager's model that answers a hello takes the issue of a certificate as a parameter, since the
-- modelled issue needs the state of the authority as well. The authority and the manager of the
-- accounts are one parameter of the issue. Not modelled: the loops of internal/tlslistener that
-- accept connections, the counters of the other parts, the timer that renews a list of addresses
-- and the rest of cmd (planned), and logging, profiling, the pages of metrics and the reverse proxy
-- itself, which are the libraries'.
pub mod Acme
pub mod Base
pub mod Cache
pub mod Cert
pub mod Checker
pub mod Command
pub mod Contexts
pub mod Dns
pub mod Domain
pub mod Fixtures
pub mod Listener
pub mod Manager
pub mod Metrics
pub mod Proxy
pub mod SecretHandler

-- ===== src/Proxy/Config/Target.antt =====
-- internal/proxy/config.go and directors.go: where a request is sent.
use lets_proxy.Base.{
  ◌≡◌, refl, ap, ◌∙◌, List, [], ◌∷◌, ◌++◌, Option, none, some, Bool, true, false, Str, text,
  if◌then◌else◌, str_eq, Error, ok, Result-cases, is_result, is_error, Option-cases, List-cases,
  Bool-cases, arith, inl, inr,
}
use lets_proxy.Base.Dict.{lookup, insert, lookup-insert}
use lets_proxy.Proxy.Director.{
  TcpAddr, Request, Director, same_ip, to_host, dest_map, set_headers, Printing, url_of, url_or_new,
  set_url_host, put_headers, header_value, direct, direct_chain, new_director_chain, protocol_http,
  protocol_https,
}
use lets_proxy.Proxy.Config.{
  Config, HttpProxy, Parsing, make_map, parse_lines, resolve_target, get_default_target_director,
  parse_tcp_map_pair, get_map_director, parse_header, get_headers_director, get_schema_director,
  get_chain, apply,
}

-- The first value, or else the second.
abbrev pub or_else : Option Str → Option Str → Option Str
or_else (some a) p = some a
or_else none p = p

abbrev pub get_or : Option Str → Str → Str
get_or (some a) s = a
get_or none s = s

-- The value of the last pair for the key.
abbrev pub last_match : Str → List (Str × Str) → Option Str
last_match key [] = none
last_match key ((k, v) ∷ pairs) =
    or_else (last_match key pairs) (if str_eq k key then some v else none)

or_else_if :
    (o : Option Str) (b : Bool) (v : Str) (p : Option Str)
    → or_else o (if b then some v else p) ≡ or_else (or_else o (if b then some v else none)) p
or_else_if (some a) b v p = refl
or_else_if none true v p = refl
or_else_if none false v p = refl

or_else-none : (o : Option Str) → or_else o none ≡ o
or_else-none (some a) = refl
or_else-none none = refl

lookup-make_map :
    (key : Str) (pairs m : List (Str × Str))
    → lookup key (make_map pairs m) ≡ or_else (last_match key pairs) (lookup key m)
unfolding make_map
lookup-make_map key [] m = refl
lookup-make_map key ((k, v) ∷ pairs) m =
    lookup-make_map key pairs (insert k v m)
    ∙ ap (or_else (last_match key pairs)) (lookup-insert k key v m)
    ∙ or_else_if (last_match key pairs) (str_eq k key) v (lookup key m)

lookup-make_map_nil :
    (key : Str) (pairs : List (Str × Str)) → lookup key (make_map pairs []) ≡ last_match key pairs
unfolding lookup
lookup-make_map_nil key pairs = lookup-make_map key pairs [] ∙ or_else-none (last_match key pairs)

module _ (printing : Printing) where
  -- The headers change neither the URL nor the host.
  put_headers_frame :
      (headers : List (Str × Str)) (r : Request) (host port : Str)
      → let r' = put_headers printing r host port headers in (r'.url ≡ r.url) × (r'.host ≡ r.host)
  unfolding put_headers
  put_headers_frame [] r host port = (refl, refl)
  put_headers_frame ((name, val) ∷ headers) r host port =
      put_headers_frame headers
        (record r {
          header = insert (printing.canonical name) (header_value r host port val) r.header;
        })
        host port

  -- The target of the configuration: an address without an IP stands for the one of the request.
  abbrev pub default_host : TcpAddr → Request → Str
  default_host target r =
      if str_eq target.ip []
      then r.local_addr.ip ++ text ":" ++ printing.itoa target.port
      else printing.addr_string target

  abbrev mapped : List (Str × Str) → Request → Request
  mapped pairs r = elim (last_match (printing.addr_string r.local_addr) pairs) [
    | none ↦ r
    | some dest ↦ set_url_host r dest
  ]

  mapped_url :
      (pairs : List (Str × Str)) (r : Request) (h : Str)
      → (mapped pairs (set_url_host r h)).host ≡ r.host
        × ((url_of (mapped pairs (set_url_host r h))).url_host
            ≡ get_or (last_match (printing.addr_string r.local_addr) pairs) h)
  unfolding set_url_host
  mapped_url pairs r h =
      elim (Option-cases (last_match (printing.addr_string r.local_addr) pairs)) [
        | inl n ↦ (rw (mapped, n) refl, rw (mapped, n) refl)
        | inr (dest, n) ↦ (rw (mapped, n) refl, rw (mapped, n) refl)
      ]

  direct_dest_map :
      (pairs : List (Str × Str)) (r : Request)
      → direct printing (dest_map (make_map pairs [])) r ≡ ok (mapped pairs r)
  unfolding direct
  direct_dest_map pairs r =
      let found = lookup-make_map_nil (printing.addr_string r.local_addr) pairs in
      elim (Option-cases (last_match (printing.addr_string r.local_addr) pairs)) [
        | inl n ↦ ground (arith, found, n)
        | inr (dest, n) ↦ ground (arith, found, n)
      ]

  module _ (parsing : Parsing) (c : Config) where
    default_target_lem :
        (d : Director)
        → get_default_target_director printing parsing c ≡ ok d
        → (target : TcpAddr) × (resolve_target printing parsing c.default_target ≡ ok target)
          × ((r : Request) → direct printing d r ≡ ok (set_url_host r (default_host target r)))
    unfolding get_default_target_director direct
    default_target_lem d h = elim (Bool-cases (str_eq (parsing.trim_space c.default_target) [])) [
      | inl t ↦ absurd (ground arith)
      | inr f ↦ elim (Result-cases (resolve_target printing parsing c.default_target)) [
        | is_error e q ↦ absurd (ground arith)
        | is_result target q ↦ (
          target,
          q,
          elim (Bool-cases (str_eq target.ip [])) [
            | inl t ↦
                let e : d ≡ same_ip (printing.itoa target.port) = ground arith in
                λ r. rw (e, t) refl
            | inr u ↦
                let e : d ≡ to_host (printing.addr_string target) = ground arith in
                λ r. rw (e, u) refl
          ],
        )
      ]
    ]

    map_lem :
        (md : Option Director)
        → get_map_director printing parsing c ≡ ok md
        → (pairs : List (Str × Str)) × (parse_lines
              (parse_tcp_map_pair printing parsing)
              c.target_map
            ≡ ok pairs)
          × ((rest : List (Option Director)) (r : Request)
              → direct_chain printing (new_director_chain (md ∷ rest)) r
                ≡ direct_chain printing (new_director_chain rest) (mapped pairs r))
    unfolding get_map_director direct_chain new_director_chain direct parse_lines
    map_lem md h = elim (List-cases c.target_map) [
      | inl q ↦ let e : md ≡ none = ground arith in ([], rw q refl, λ rest r. rw e refl)
      | inr (line, lines, q) ↦
          elim (Result-cases (parse_lines (parse_tcp_map_pair printing parsing) (line ∷ lines))) [
            | is_error e f ↦ absurd (ground arith)
            | is_result pairs f ↦
                let e : md ≡ some (dest_map (make_map pairs [])) = ground arith in
                (pairs, rw q f, λ rest r. rw (e, direct_chain, direct_dest_map pairs r) refl)
          ]
    ]

    headers_lem :
        (hd : Option Director) (rest : List (Option Director)) (r : Request)
        → get_headers_director printing parsing c ≡ ok hd
        → (r' : Request) × (direct_chain printing (new_director_chain (hd ∷ rest)) r
            ≡ direct_chain printing (new_director_chain rest) r')
          × (r'.url ≡ r.url)
          × (r'.host ≡ r.host)
    unfolding get_headers_director direct_chain new_director_chain direct
    headers_lem hd rest r h = elim (List-cases c.headers) [
      | inl q ↦ let e : hd ≡ none = ground arith in (r, rw e refl, refl, refl)
      | inr (line, lines, q) ↦
          elim (Result-cases (parse_lines (parse_header printing parsing) (line ∷ lines))) [
            | is_error e f ↦ absurd (ground arith)
            | is_result pairs f ↦
                let e : hd ≡ some (set_headers (make_map pairs [])) = ground arith in
                let (host, port) = printing.split_host_port r.remote_addr in
                let (same_url, same_host) = put_headers_frame (make_map pairs []) r host port in
                (
                  put_headers printing r host port (make_map pairs []),
                  rw e refl,
                  same_url,
                  same_host,
                )
          ]
    ]

    -- Each request is sent by the map or to the target.
    abbrev pub Routed : List Director → Type 0
    Routed directors =
        (target : TcpAddr) × (pairs : List (Str × Str)) × (resolve_target printing parsing
            c.default_target
          ≡ ok target)
        × (parse_lines (parse_tcp_map_pair printing parsing) c.target_map ≡ ok pairs)
        × ((r : Request)
            → (r' : Request) × (direct_chain printing directors r ≡ ok r')
              × (r'.url
                  ≡ some (record {
                    scheme = if c.https_backend then protocol_https else protocol_http;
                    url_host =
                        get_or (last_match (printing.addr_string r.local_addr) pairs)
                          (default_host target r);
                  }))
              × (r'.host ≡ r.host))

    chain_lem :
        (d : Director) (md hd : Option Director)
        → get_default_target_director printing parsing c ≡ ok d
        → get_map_director printing parsing c ≡ ok md
        → get_headers_director printing parsing c ≡ ok hd
        → Routed (
            new_director_chain
              (some d ∷ md ∷ hd ∷ some (get_schema_director printing parsing c) ∷ []))
    unfolding direct_chain new_director_chain direct get_schema_director set_url_host
    chain_lem d md hd q1 q2 q3 =
        let (target, t, to_target) = default_target_lem d q1 in
        let (pairs, ps, by_map) = map_lem md q2 in
        let last : List (Option Director) = some (get_schema_director printing parsing c) ∷ [] in
        let scheme : Str = if c.https_backend then protocol_https else protocol_http in
        (
          target,
          pairs,
          t,
          ps,
          λ r.
              let r1 = set_url_host r (default_host target r) in
              let r2 = mapped pairs r1 in
              let (r3, by_headers, same_url, same_host) = headers_lem hd last r2 q3 in
              let (host, url) = mapped_url pairs r (default_host target r) in
              (
                record r3 { url = some (record (url_of r3) { scheme = scheme }) },
                rw (direct_chain, to_target r) (by_map (hd ∷ last) r1 ∙ by_headers),
                ap (λ u. some (record { scheme = scheme; url_host = u }))
                    (ap (λ o. (url_or_new o).url_host) same_url ∙ url),
                same_host ∙ host,
              ),
        )

    -- After an Apply without an error each request is sent by the last line of the target map for the
    -- address at which it came in, or else to the default target, whose address is that of the
    -- request if it has none of its own; with the scheme of the backend, and with its own Host header.
    -- Apply without an error means that the default target and every line of the map are addresses.
    -- After an Apply with an error the directors and the timeout are those from before.
    pub apply_lem :
        (p : HttpProxy)
        → ((apply printing parsing c p).1 ≡ none → Routed (apply printing parsing c p).0.director)
          × ((e : Error)
              → (apply printing parsing c p).1 ≡ some e
              → ((apply printing parsing c p).0.director ≡ p.director)
                × ((apply printing parsing c p).0.idle_timeout ≡ p.idle_timeout))
    unfolding apply get_chain
    apply_lem p = (works, fails)
      where
        works :
            (apply printing parsing c p).1 ≡ none → Routed (apply printing parsing c p).0.director
        works h = elim (Result-cases (get_default_target_director printing parsing c)) [
          | is_error e q ↦ absurd (ground arith)
          | is_result d q1 ↦ elim (Result-cases (get_map_director printing parsing c)) [
            | is_error e q ↦ absurd (ground arith)
            | is_result md q2 ↦ elim (Result-cases (get_headers_director printing parsing c)) [
              | is_error e q ↦ absurd (ground arith)
              | is_result hd q3 ↦ rw (apply, get_chain, q1, q2, q3) (chain_lem d md hd q1 q2 q3)
            ]
          ]
        ]

        fails :
            (e : Error)
            → (apply printing parsing c p).1 ≡ some e
            → ((apply printing parsing c p).0.director ≡ p.director)
              × ((apply printing parsing c p).0.idle_timeout ≡ p.idle_timeout)
        fails e h = elim (Result-cases (get_chain printing parsing c)) [
          | is_error f q ↦ rw (apply, q) (refl, refl)
          | is_result chain q ↦ absurd (ground arith)
        ]

-- ===== src/Dns/Resolver/Chain.antt =====
-- internal/dns/resolver.go: a lookup follows a chain of aliases.
use lets_proxy.Base.{
  ◌≡◌, refl, sym, ap, ◌⊎◌, inl, inr, ◌↔◌, ℕ, zero, suc, List, [], ◌∷◌, ◌++◌, Option, none, some,
  false, Str, ◌==◌, if◌then◌else◌, truncated_response, ok, err, Result-cases, Option-cases,
  is_result, is_error, arith,
}
use mathlib.Core.List.{append-nil, append_assoc}
use lets_proxy.Dns.Resolver.{
  Record, address, cname, other_record, Exchange, ctx_done, completed, Client, addresses, alias,
  read_answer, read_exchange, lookup_with_client, Resolver, lookup,
}

-- The addresses of a type among the records, in their order.
abbrev pub of_type : ℕ → List Record → List Str
of_type record_type [] = []
of_type record_type (address r_type ip ∷ records) =
    let rest = of_type record_type records in if r_type == record_type then ip ∷ rest else rest
of_type record_type (cname target ∷ records) = of_type record_type records
of_type record_type (other_record ∷ records) = of_type record_type records

abbrev pub first_alias : List Record → Option Str
first_alias [] = none
first_alias (address r_type ip ∷ records) = first_alias records
first_alias (cname target ∷ records) = some target
first_alias (other_record ∷ records) = first_alias records

-- The answer of a server, neither truncated nor an error.
abbrev pub Answers : Client → ℕ → Str → ℕ → List Record → Type 0
Answers client n host record_type records =
    client n host record_type
    ≡ completed (some (record { truncated = false; answer = records })) none

-- The host resolves to the addresses through fewer aliases than there are queries.
pub data Resolves (client : Client) (record_type : ℕ) : ℕ → Str → List Str → Type 0 where
  direct :
      (n : ℕ) (host : Str) (records : List Record)
      → Answers client n host record_type records
      → first_alias records ≡ none
      → Resolves client record_type (suc n) host (of_type record_type records)
  via :
      (n : ℕ) (host target : Str) (records : List Record) (ips : List Str)
      → Answers client n host record_type records
      → first_alias records ≡ some target
      → Resolves client record_type n target ips
      → Resolves client record_type (suc n) host ips

read_answer_lem :
    (record_type : ℕ) (records : List Record) (before : List Str)
    → read_answer record_type records before ≡ elim (first_alias records) [
      | none ↦ addresses (before ++ of_type record_type records)
      | some target ↦ alias target
    ]
unfolding read_answer
read_answer_lem record_type [] before = ap addresses (sym (append-nil before))
read_answer_lem record_type (address r_type ip ∷ records) before = ground (
  arith,
  append_assoc before (ip ∷ []) (of_type record_type records),
  read_answer_lem record_type records before,
  read_answer_lem record_type records (before ++ ip ∷ []),
)
read_answer_lem record_type (cname target ∷ records) before = refl
read_answer_lem record_type (other_record ∷ records) before =
    read_answer_lem record_type records before

read_exchange_ok :
    (x : Exchange) (records : List Record)
    → read_exchange x ≡ ok records
    → x ≡ completed (some (record { truncated = false; answer = records })) none
unfolding read_exchange
read_exchange_ok (ctx_done e) records h = absurd (ground arith)
read_exchange_ok (completed none none) records h = absurd (ground arith)
read_exchange_ok (completed none (some e)) records h = absurd (ground arith)
read_exchange_ok (completed (some msg) e) records h = ground arith

module _ (client : Client) (record_type : ℕ) where
  lookup→Resolves :
      (n : ℕ) (host : Str) (ips : List Str)
      → lookup_with_client n client host record_type ≡ ok ips
      → Resolves client record_type n host ips
  unfolding lookup_with_client
  lookup→Resolves zero host ips h = absurd (ground arith)
  lookup→Resolves (suc n) host ips h =
      elim (Result-cases (read_exchange (client n host record_type))) [
        | is_error e q ↦ absurd (ground arith)
        | is_result records q ↦
            let answers = read_exchange_ok (client n host record_type) records q in
            let read = read_answer_lem record_type records [] in
            elim (Option-cases (first_alias records)) [
              | inl none_first ↦
                  let same : of_type record_type records ≡ ips = ground (arith, read) in
                  rw (← same) (direct n host records answers none_first)
              | inr (target, first) ↦
                  via n host target records ips answers first
                    (lookup→Resolves n target ips (ground (arith, read)))
            ]
      ]

  Resolves→lookup :
      (n : ℕ) (host : Str) (ips : List Str)
      → Resolves client record_type n host ips
      → lookup_with_client n client host record_type ≡ ok ips
  unfolding lookup_with_client read_exchange
  Resolves→lookup n host ips (direct m h records answers none_first) =
      ground (arith, answers, read_answer_lem record_type records [])
  Resolves→lookup n host ips (via m h target records i answers first rest) =
      ground
        (arith, answers, read_answer_lem record_type records [], Resolves→lookup m target i rest)

-- lookup succeeds exactly with the addresses to which the host resolves over UDP, within the bound on
-- the queries, or, if an answer over UDP was truncated, over TCP. A host resolves to the addresses of
-- the type in a whole answer without an alias, in their order, or to those of the first alias in it.
pub lookup_iff :
    (r : Resolver) (host : Str) (record_type : ℕ) (ips : List Str)
    → (lookup r host record_type ≡ ok ips) ↔ (
        Resolves r.udp record_type r.max_dns_recursion_deep host ips
        ⊎ ((lookup_with_client r.max_dns_recursion_deep r.udp host record_type
              ≡ err truncated_response)
            × Resolves r.tcp record_type r.max_dns_recursion_deep host ips))
unfolding lookup
lookup_iff r host record_type ips =
    let n = r.max_dns_recursion_deep in
    let tcp = lookup→Resolves r.tcp record_type n host ips in
    (
      λ h. elim (Result-cases (lookup_with_client n r.udp host record_type)) [
        | is_result by_udp q ↦ inl (lookup→Resolves r.udp record_type n host ips (ground arith))
        | is_error truncated_response q ↦ inr (q, tcp (ground arith))
        | is_error e q ↦ absurd (ground arith)
      ],
      λ h. elim h [
        | inl by_udp ↦ ground (arith, Resolves→lookup r.udp record_type n host ips by_udp)
        | inr (t, by_tcp) ↦ ground (arith, t, Resolves→lookup r.tcp record_type n host ips by_tcp)
      ],
    )

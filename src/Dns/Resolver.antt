-- ===== src/Dns/Resolver.antt =====
-- internal/dns/resolver.go: the direct resolver. A client of `miekg/dns` is a parameter: what an
-- exchange comes to, by the number of queries that are left, the host and the type of record.
pub mod Chain
use lets_proxy.Base.{
  has_suffix, ℕ, zero, suc, List, [], ◌∷◌, ◌++◌, Option, none, some, Bool, true, false, Str, text,
  ◌==◌, ◌&&◌, if◌then◌else◌, Error, truncated_response, is_truncated, message, Result, ok, err,
}

abbrev pub max_dns_recursion : ℕ
max_dns_recursion = 10

abbrev pub err_panic : Error
err_panic = message (text "panic")

-- `mdns.TypeA` and `mdns.TypeAAAA`
abbrev pub type_a : ℕ
type_a = 1

abbrev pub type_aaaa : ℕ
type_aaaa = 28

-- A record of an answer: an address with its type, an alias, or one that is not looked at.
pub data Record : Type 0 where
  address : ℕ → Str → Record
  cname : Str → Record
  other_record : Record

pub record Msg : Type 0 where
  pub truncated : Bool
  pub answer : List Record

-- What ends the query: the context, done before it or in the `select`, with its error, or the
-- exchange. A panic of the client closes
-- the channel, which gives a nil message without an error.
pub data Exchange : Type 0 where
  ctx_done : Error → Exchange
  completed : Option Msg → Option Error → Exchange

abbrev pub Client : Type 0
Client = ℕ → Str → ℕ → Exchange

-- What the loop over the records comes to: addresses, or the first alias.
pub data Found : Type 0 where
  addresses : List Str → Found
  alias : Str → Found

-- The loop over the records.
unfoldable pub read_answer : ℕ → List Record → List Str → Found
read_answer record_type [] res_ips = addresses res_ips
read_answer record_type (address r_type ip ∷ records) res_ips =
    read_answer record_type records (if r_type == record_type then res_ips ++ ip ∷ [] else res_ips)
read_answer record_type (cname target ∷ records) res_ips = alias target
read_answer record_type (other_record ∷ records) res_ips = read_answer record_type records res_ips

-- A completed exchange: the records to read, or an error.
unfoldable pub read_exchange : Exchange → Result (List Record)
read_exchange (ctx_done e) = err e
read_exchange (completed none none) = err err_panic
read_exchange (completed none (some e)) = err e
read_exchange (completed (some msg) e) =
    if msg.truncated
    then err truncated_response
    else elim e [ some e' ↦ err e' | none ↦ ok msg.answer ]

-- `lookupWithClient`
unfoldable pub lookup_with_client : ℕ → Client → Str → ℕ → Result (List Str)
lookup_with_client zero client host record_type =
    err (message (text "max recursion while resolve domain"))
lookup_with_client (suc recursion) client host record_type =
    elim (read_exchange (client recursion host record_type)) [
      | err e ↦ err e
      | ok records ↦ elim (read_answer record_type records []) [
        | addresses ips ↦ ok ips
        | alias target ↦ lookup_with_client recursion client target record_type
      ]
    ]

-- `Resolver`
pub record Resolver : Type 0 where
  pub udp : Client
  pub tcp : Client
  pub max_dns_recursion_deep : ℕ

-- `NewResolver`, with the clients for the two networks.
unfoldable pub new_resolver : Client → Client → Resolver
new_resolver udp tcp = record { udp = udp; tcp = tcp; max_dns_recursion_deep = max_dns_recursion }

-- `lookup`: over TCP, if the answer over UDP was truncated.
unfoldable pub lookup : Resolver → Str → ℕ → Result (List Str)
lookup r host record_type =
    let by_udp = lookup_with_client r.max_dns_recursion_deep r.udp host record_type in
    let by_tcp = lookup_with_client r.max_dns_recursion_deep r.tcp host record_type in
    elim by_udp [ ok ips ↦ ok ips | err e ↦ if is_truncated e then by_tcp else err e ]

-- `LookupIPAddr`: the error for A stands before the one for AAAA.
unfoldable pub lookup_ip_addr : Resolver → Str → Result (List Str)
lookup_ip_addr r host =
    let host = if has_suffix host (text ".") then host else host ++ text "." in
    elim (lookup r host type_a) [
      | err e ↦ err e
      | ok ips_a ↦ elim (lookup r host type_aaaa) [
        | err e ↦ err e
        | ok ips_aaaa ↦ ok (ips_a ++ ips_aaaa)
      ]
    ]

-- ===== src/Dns/Resolver.antt =====
-- crates/kernway-dns/src/resolver.rs: the stub resolver over the messages and the cache of its shard. The random
-- generator, the clock and the exchange with a server, over UDP or TCP and within the timeout, are parameters.
-- Other tasks of the shard run while a query waits, so an exchange may leave any state, also of the cache.
pub mod Query
pub mod Sound
mod Tests
use kernway.Prelude.{
  ℕ, zero, suc, ◌+◌, ◌*◌, ◌≤◌, ◌⊎◌, inl, inr, Bool, true, false, not, Option, none, some, List, [],
  ◌∷◌, ◌++◌, map, ltb, leb, ◌==◌, if◌then◌else◌, length, min, Bytes, bytes_eq, codes, is_empty,
  decimal,
}
use kernway.Dns.Message.{
  DnsError, mismatch, name_not_found, server_failure, no_addresses, io, Read, value, failed,
  panicked, no_fuel, Address, v4, v6, ResolvedAddr, Response, type_a, type_aaaa, encode_query,
  encode_query_edns, parse_response, be16,
}
use kernway.Dns.Cache.{second, negative_ttl, hit, negative, Cache, get, put_positive, put_negative}

pub record Resolver : Type 0 where
  pub servers : List ℕ
  pub attempts : ℕ
  pub search : List Bytes
  pub ndots : ℕ

abbrev pub rcode_nxdomain : ℕ
rcode_nxdomain = 3

abbrev pub edns_udp_size : ℕ
edns_udp_size = 1232

-- `strip_suffix('.')`
absolute : Bytes → Option Bytes
absolute [] = none
absolute (c ∷ []) = if c == b'.' then some [] else none
absolute (c ∷ d ∷ s) = elim (absolute (d ∷ s)) [ none ↦ none | some t ↦ some (c ∷ t) ]

dots : Bytes → ℕ
dots [] = 0
dots (c ∷ s) = let rest = dots s in if c == b'.' then 1 + rest else rest

-- The names to try for a host, in order.
pub candidates : Resolver → Bytes → List Bytes
candidates r host = elim (absolute host) [
  | some name ↦ name ∷ []
  | none ↦
      let suffixed = map (λ d. host ++ b'.' ∷ d) r.search in
      if is_empty r.search
      then host ∷ []
      else if leb r.ndots (dots host)
      then host ∷ suffixed
      else suffixed ++ host ∷ []
]

pub cache_key : ℕ → Bytes → Bytes
cache_key qtype name = decimal qtype ++ b':' ∷ name

abbrev pub ip_bytes : Address → Bytes
ip_bytes (v4 a b c d) = a ∷ b ∷ c ∷ d ∷ []
ip_bytes (v6 octets) = octets

abbrev pub ips_of : List ResolvedAddr → List Bytes
ips_of addrs = map (λ a. ip_bytes a.ip) addrs

-- `map(|a| a.ttl).min().unwrap_or(0)`
pub shortest : List ResolvedAddr → ℕ
shortest [] = 0
shortest (a ∷ []) = a.ttl
shortest (a ∷ b ∷ addrs) = min a.ttl (shortest (b ∷ addrs))

-- A reply has the id of its query and no error, and is to be asked for again over TCP where it was cut.
pub checked : ℕ → Response → Read Response
checked id resp =
    if not (resp.id == id)
    then failed mismatch
    else if resp.rcode == 0
    then value resp
    else if resp.rcode == rcode_nxdomain
    then failed name_not_found
    else failed (server_failure resp.rcode)

-- The length in front of a query over TCP.
pub framed : Bytes → Bytes
framed query = be16 (length query) ++ query

pub record Shard (W : Type 0) : Type 0 where
  pub cache : Cache
  pub world : W

abbrev pub and_then :
    {W A B : Type 0} → Read A × Shard W → (A → Shard W → Read B × Shard W) → Read B × Shard W
and_then (value a, s) f = f a s
and_then (failed e, s) f = (failed e, s)
and_then (panicked, s) f = (panicked, s)
and_then (no_fuel, s) f = (no_fuel, s)

module _ {W : Type 0} (now : Shard W → ℕ) (random_id : Shard W → ℕ × Shard W)
    (udp tcp : ℕ → Bytes → Shard W → Read Bytes × Shard W) where
  pub query_tcp : ℕ → Bytes → ℕ → Shard W → Read (List ResolvedAddr) × Shard W
  query_tcp server host qtype s =
      let (id, s1) = random_id s in
      and_then (encode_query id host qtype, s1)
        (λ query s. and_then (tcp server (framed query) s) (λ reply s.
          and_then (parse_response reply, s)
            (λ resp s. and_then (checked id resp, s) (λ resp s. (value resp.addresses, s)))))

  pub query_one : ℕ → Bytes → ℕ → Shard W → Read (List ResolvedAddr) × Shard W
  query_one server host qtype s =
      let (id, s1) = random_id s in
      and_then (encode_query_edns id host qtype edns_udp_size, s1)
        (λ query s. and_then (udp server query s) (λ reply s.
          and_then (parse_response reply, s)
            (λ resp s.
              and_then (checked id resp, s)
                (λ resp s.
                  if resp.truncated
                  then query_tcp server host qtype s
                  else (value resp.addresses, s)))))

  -- Addresses are cached under the shortest time to live among them, unless it is zero.
  pub remember : Bytes → List ResolvedAddr → Shard W → Shard W
  remember key addrs s =
      if ltb 0 (shortest addrs)
      then record s {
        cache = put_positive s.cache key (ips_of addrs) (shortest addrs * second) (now s);
      }
      else s

  -- What a server said: an answer to return, or the error to keep in mind.
  pub data Said : Type 0 where
    settled : Read (List Bytes) → Said
    passed : DnsError → Said

  pub heard : Bytes → Read (List ResolvedAddr) × Shard W → Said × Shard W
  heard key (value [], s) = (passed no_addresses, s)
  heard key (value (a ∷ addrs), s) =
      (settled (value (ips_of (a ∷ addrs))), remember key (a ∷ addrs) s)
  heard key (failed name_not_found, s) = (
    settled (failed name_not_found),
    record s { cache = put_negative s.cache key negative_ttl (now s) },
  )
  heard key (failed e, s) = (passed e, s)
  heard key (panicked, s) = (settled panicked, s)
  heard key (no_fuel, s) = (settled no_fuel, s)

  -- One server after another.
  pub ask : List ℕ → Bytes → ℕ → DnsError → Shard W → Said × Shard W
  ask [] name qtype last s = (passed last, s)
  ask (server ∷ servers) name qtype last s =
      let (said, s1) = heard (cache_key qtype name) (query_one server name qtype s) in
      elim said [ settled result ↦ (settled result, s1) | passed e ↦ ask servers name qtype e s1 ]

  pub rounds : ℕ → List ℕ → Bytes → ℕ → DnsError → Shard W → Read (List Bytes) × Shard W
  rounds zero servers name qtype last s = (failed last, s)
  rounds (suc attempts) servers name qtype last s =
      let again = rounds attempts servers name qtype in
      let (said, s1) = ask servers name qtype last s in
      elim said [ settled result ↦ (result, s1) | passed e ↦ again e s1 ]

  pub resolve_cached : Resolver → Bytes → ℕ → Shard W → Read (List Bytes) × Shard W
  resolve_cached r name qtype s = elim (get s.cache (cache_key qtype name) (now s)) [
    | some (hit ips) ↦ (value ips, s)
    | some negative ↦ (failed name_not_found, s)
    | none ↦
        if is_empty r.servers
        then (failed (io (codes "no nameservers configured")), s)
        else rounds r.attempts r.servers name qtype no_addresses s
  ]

  pub try_candidates : List Bytes → Resolver → ℕ → DnsError → Shard W → Read (List Bytes) × Shard W
  try_candidates [] r qtype last s = (failed last, s)
  try_candidates (name ∷ names) r qtype last s =
      let (result, s1) = resolve_cached r name qtype s in
      elim result [
        | value [] ↦ try_candidates names r qtype no_addresses s1
        | value (ip ∷ ips) ↦ (value (ip ∷ ips), s1)
        | failed e ↦ try_candidates names r qtype e s1
        | panicked ↦ (panicked, s1)
        | no_fuel ↦ (no_fuel, s1)
      ]

  pub lookup_family : Resolver → Bytes → ℕ → Shard W → Read (List Bytes) × Shard W
  lookup_family r host qtype s = try_candidates (candidates r host) r qtype no_addresses s

  -- IPv4 first; an unknown name is unknown for both.
  pub lookup_host : Resolver → Bytes → Shard W → Read (List Bytes) × Shard W
  lookup_host r host s =
      let (result, s1) = lookup_family r host type_a s in
      elim result [
        | value [] ↦ lookup_family r host type_aaaa s1
        | value (ip ∷ ips) ↦ (value (ip ∷ ips), s1)
        | failed name_not_found ↦ (failed name_not_found, s1)
        | failed _ ↦ lookup_family r host type_aaaa s1
        | panicked ↦ (panicked, s1)
        | no_fuel ↦ (no_fuel, s1)
      ]

-- ===== src/Dns/Resolver/Query.antt =====
-- crates/kernway-dns/src/resolver.rs: whose replies a query accepts.
use kernway.Prelude.{
  ℕ, ◌≡◌, ◌⊎◌, inl, inr, refl, ap, ◌∙◌, List, arith, ◌==◌, ==_iff, Bool-cases, Bytes, bytes_eq,
}
use kernway.Dns.Message.{
  Read, value, failed, panicked, no_fuel, ResolvedAddr, Response, encode_query, encode_query_edns,
  parse_response,
}
use kernway.Dns.Resolver.{edns_udp_size, checked, framed, Shard, and_then, query_tcp, query_one}

and_then_inv :
    {W A B : Type 0} (m : Read A × Shard W) (f : A → Shard W → Read B × Shard W) (b : B)
    (t : Shard W)
    → and_then m f ≡ (value b, t)
    → (a : A) × (s : Shard W) × (m ≡ (value a, s)) × (f a s ≡ (value b, t))
and_then_inv (value a, s) f b t h = (a, s, refl, h)
and_then_inv (failed e, s) f b t h = absurd (ground (arith, h))
and_then_inv (panicked, s) f b t h = absurd (ground (arith, h))
and_then_inv (no_fuel, s) f b t h = absurd (ground (arith, h))

checked_inv :
    (id : ℕ) (resp r : Response)
    → checked id resp ≡ value r
    → (resp.id ≡ id) × (resp.rcode ≡ 0) × (resp ≡ r)
unfolding checked
checked_inv id resp r h = elim (Bool-cases (resp.id == id)) [
  | inr other ↦ let x = rw (checked, other) at h in absurd (ground (arith, x))
  | inl own ↦ elim (Bool-cases (resp.rcode == 0)) [
    | inl clean ↦
        let x = rw (checked, own, clean) at h in
        ((==_iff resp.id id).0 own, (==_iff resp.rcode 0).0 clean, ground (arith, x))
    | inr bad ↦ elim (Bool-cases (resp.rcode == 3)) [
      | inl gone ↦ let x = rw (checked, own, bad, gone) at h in absurd (ground (arith, x))
      | inr other ↦ let x = rw (checked, own, bad, other) at h in absurd (ground (arith, x))
    ]
  ]
]

module _ {W : Type 0} (now : Shard W → ℕ) (random_id : Shard W → ℕ × Shard W)
    (udp tcp : ℕ → Bytes → Shard W → Read Bytes × Shard W) where
  -- A server answered a query of this shard with the addresses: its reply has the id that was drawn for the
  -- query, and no error.
  pub record Matches (server : ℕ) (host : Bytes) (qtype : ℕ) (addrs : List ResolvedAddr)
      : Type 0 where
    pub asked : Shard W
    pub query : Bytes
    pub sent : Shard W
    pub reply : Bytes
    pub resp : Response
    pub exchanged :
        ((encode_query_edns (random_id asked).0 host qtype edns_udp_size ≡ value query)
          × ((udp server query sent).0 ≡ value reply))
        ⊎ ((encode_query (random_id asked).0 host qtype ≡ value query)
            × ((tcp server (framed query) sent).0 ≡ value reply))
    pub parsed : parse_response reply ≡ value resp
    pub own : resp.id ≡ (random_id asked).0
    pub clean : resp.rcode ≡ 0
    pub gives : resp.addresses ≡ addrs

  query_tcp_sound :
      (server : ℕ) (host : Bytes) (qtype : ℕ) (s t : Shard W) (addrs : List ResolvedAddr)
      → query_tcp now random_id udp tcp server host qtype s ≡ (value addrs, t)
      → Matches server host qtype addrs
  unfolding query_tcp
  query_tcp_sound server host qtype s t addrs h =
      let id = (random_id s).0 in
      let (query, s2, e1, h1) =
        and_then_inv (encode_query id host qtype, (random_id s).1) _ addrs t h in
      let (reply, s3, e2, h2) = and_then_inv (tcp server (framed query) s2) _ addrs t h1 in
      let (resp, s4, e3, h3) = and_then_inv (parse_response reply, s3) _ addrs t h2 in
      let (r, s5, e4, h4) = and_then_inv (checked id resp, s4) _ addrs t h3 in
      let (own, clean, same) = checked_inv id resp r (ap (λ p. p.0) e4) in
      record {
        asked = s;
        query = query;
        sent = s2;
        reply = reply;
        resp = resp;
        exchanged = inr (ap (λ p. p.0) e1, ap (λ p. p.0) e2);
        parsed = ap (λ p. p.0) e3;
        own = own;
        clean = clean;
        gives = ap (λ (x : Response). x.addresses) same ∙ ground (arith, h4);
      }

  pub query_one_sound :
      (server : ℕ) (host : Bytes) (qtype : ℕ) (s t : Shard W) (addrs : List ResolvedAddr)
      → query_one now random_id udp tcp server host qtype s ≡ (value addrs, t)
      → Matches server host qtype addrs
  unfolding query_one
  query_one_sound server host qtype s t addrs h =
      let id = (random_id s).0 in
      let (query, s2, e1, h1) =
        and_then_inv (encode_query_edns id host qtype edns_udp_size, (random_id s).1) _ addrs t h in
      let (reply, s3, e2, h2) = and_then_inv (udp server query s2) _ addrs t h1 in
      let (resp, s4, e3, h3) = and_then_inv (parse_response reply, s3) _ addrs t h2 in
      let (r, s5, e4, h4) = and_then_inv (checked id resp, s4) _ addrs t h3 in
      let (own, clean, same) = checked_inv id resp r (ap (λ p. p.0) e4) in
      elim (Bool-cases r.truncated) [
        | inl cut ↦ query_tcp_sound server host qtype s5 t addrs (rw cut at h4)
        | inr whole ↦
            let x = rw whole at h4 in
            record {
              asked = s;
              query = query;
              sent = s2;
              reply = reply;
              resp = resp;
              exchanged = inl (ap (λ p. p.0) e1, ap (λ p. p.0) e2);
              parsed = ap (λ p. p.0) e3;
              own = own;
              clean = clean;
              gives = ap (λ (x : Response). x.addresses) same ∙ ground (arith, x);
            }
      ]

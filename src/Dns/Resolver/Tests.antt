-- ===== src/Dns/Resolver/Tests.antt =====
-- A resolver of two servers, of which the first does not answer.
use kernway.Prelude.{
  ℕ, ◌+◌, ◌*◌, ◌≡◌, refl, none, some, List, [], ◌∷◌, ◌++◌, Bytes, bytes_eq, codes, decimal, lookup,
  insert, retain, split, if◌then◌else◌, ◌==◌,
}
use kernway.Dns.Message
use kernway.Dns.Message.{
  io, Read, value, failed, be16, without_dot, encode_labels, encode_name, opt_record, query_header,
  encode_query_inner, encode_query, encode_query_edns, u8, u16, u32, take_bytes, label_turn,
  pointer_turn, turn, walk, name, skip_name, skip_questions, record_address, answers, response,
  parse_response,
}
use kernway.Dns.Cache.{
  second, hit, empty, answer, fresh, get, clamp, swept, put, put_positive, put_negative,
}
use kernway.Dns.Resolver.{
  Resolver, absolute, dots, candidates, cache_key, shortest, checked, Shard, query_tcp, query_one,
  remember, heard, ask, rounds, resolve_cached, try_candidates, lookup_family, lookup_host, framed,
}

naming : Unit {0}
unfolding absolute dots candidates
naming = tt

abbrev resolver : Resolver
resolver = record { servers = 1 ∷ 2 ∷ []; attempts = 2; search = codes "lan" ∷ []; ndots = 1 }

tried :
    (candidates resolver (codes "db") ≡ codes "db.lan" ∷ codes "db" ∷ [])
    × (candidates resolver (codes "a.b") ≡ codes "a.b" ∷ codes "a.b.lan" ∷ [])
    × (candidates resolver (codes "a.b.") ≡ codes "a.b" ∷ [])
unfolding naming
tried = (refl, refl, refl)

abbrev clock : Shard ℕ → ℕ
clock s = s.world

abbrev next_id : Shard ℕ → ℕ × Shard ℕ
next_id s = (7, record s { world = s.world + 1 })

abbrev reply_bytes : Bytes
reply_bytes =
    be16 7
    ++ (be16 0x8180
        ++ (be16 0
            ++ (be16 1
                ++ (be16 0
                    ++ (be16 0
                        ++ (0 ∷ be16 1
                            ++ (be16 1
                                ++ (be16 0 ++ (be16 60 ++ (be16 4 ++ (10 ∷ 0 ∷ 0 ∷ 1 ∷ [])))))))))))

abbrev exchange : ℕ → Bytes → Shard ℕ → Read Bytes × Shard ℕ
exchange server query s =
    if server == 1 then (failed (io (codes "timeout")), s) else (value reply_bytes, s)

abbrev cold : Shard ℕ
cold = record { cache = empty; world = 0 }

resolving : Unit {0}
unfolding lookup insert retain split decimal answer fresh get clamp swept put put_positive
    put_negative without_dot encode_labels encode_name opt_record query_header encode_query_inner
    encode_query encode_query_edns u8 u16 u32 take_bytes label_turn pointer_turn turn walk name
    skip_name skip_questions record_address Message.answer answers response parse_response absolute
    dots candidates cache_key shortest checked framed query_tcp query_one remember heard ask rounds
    resolve_cached try_candidates lookup_family lookup_host
resolving = tt

abbrev resolved : Read (List Bytes) × Shard ℕ
resolved = resolve_cached clock next_id exchange exchange resolver (codes "a.b") 1 cold

abbrev ip : Bytes
ip = 10 ∷ 0 ∷ 0 ∷ 1 ∷ []

resolves :
    (resolved.0 ≡ value (ip ∷ []))
    × (get resolved.1.cache (cache_key 1 (codes "a.b")) (59 * second) ≡ some (hit (ip ∷ [])))
    × (get resolved.1.cache (cache_key 1 (codes "a.b")) (60 * second + 2) ≡ none)
unfolding resolving
resolves = (refl, refl, refl)

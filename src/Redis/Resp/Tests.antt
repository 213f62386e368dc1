-- ===== src/Redis/Resp/Tests.antt =====
-- RESP2 of crates/kernway-redis/src/resp.rs on the replies of its own tests.
use kernway.Prelude.{
  ℕ, ◌^◌, ◌≡◌, ◌≢◌, ◌<◌, refl, List, [], ◌∷◌, ◌++◌, arith, length, take, Bytes, codes, is_utf8, pos,
  negsuc, decimal, digits_from, digits, parse_u64, parse_i64,
}
use kernway.Redis.Resp.{
  Value, nil, int, bulk, array, no_values, value_then, server, protocol, done, partial_reply,
  failed, crlf, encode_arg, encode_args, encode, find_crlf, as_str, or_not_integer, as_int,
  hex_digit, hex, bulk_reply, items, array_reply, reply, at_line, parse_fuel, parse,
}
use kernway.Redis.Resp.Incremental.{parse-append}
use kernway.Redis.Resp.Commands.{bulks}
use kernway.Redis.Resp.RoundTrip.{parse-encode}

resp : Unit {0}
unfolding is_utf8 decimal digits_from digits parse_u64 parse_i64 encode_arg encode_args encode
    find_crlf as_str or_not_integer as_int hex_digit hex bulk_reply items array_reply reply at_line
    parse_fuel parse
resp = tt

abbrev size : ℕ
size = 24

abbrev nested : Bytes
nested = codes "*2" ++ crlf ++ codes "$3" ++ crlf ++ codes "foo" ++ crlf ++ codes ":7" ++ crlf

abbrev elements : Value
elements = array (value_then (bulk (codes "foo")) (value_then (int (pos 7)) no_values))

replies :
    (parse size nested ≡ done (elements, 17))
    × (parse size (codes "$-1" ++ crlf) ≡ done (nil, 5))
    × (parse size (codes ":-2" ++ crlf) ≡ done (int (negsuc 1), 5))
    × (parse size (codes "-ERR" ++ crlf) ≡ failed (server (codes "ERR")))
    × (parse size (codes "?" ++ crlf) ≡ failed (protocol (codes "unknown reply type byte 0x3f")))
    × (parse size (take 14 nested) ≡ partial_reply)
    × (parse size (codes "$x" ++ crlf) ≡ failed (protocol (codes "reply is not an integer")))
unfolding resp
replies = (refl, refl, refl, refl, refl, refl, refl)

commands :
    encode (codes "GET" ∷ codes "k" ∷ []) []
    ≡ codes "*2"
      ++ crlf
      ++ codes "$3"
      ++ crlf
      ++ codes "GET"
      ++ crlf
      ++ codes "$1"
      ++ crlf
      ++ codes "k"
      ++ crlf
unfolding resp
commands = refl

nested-decided : parse size nested ≢ partial_reply
nested-decided = rw replies.0 (λ bad. ground (arith, bad))

parse-append_example : parse size (nested ++ codes "+") ≡ parse size nested
parse-append_example = parse-append size nested (codes "+") (omega arith) nested-decided

abbrev get_k : List Bytes
get_k = codes "GET" ∷ codes "k" ∷ []

parse-encode_example :
    parse size (encode get_k [] ++ codes "+") ≡ done (array (bulks get_k), length (encode get_k []))
parse-encode_example = parse-encode size get_k (codes "+") (omega arith) short
  where
    short : length (encode get_k [] ++ codes "+") < 2 ^ 62
    short = rw commands (omega arith)

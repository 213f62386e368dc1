-- ===== src/Dns/Message/Tests.antt =====
-- Messages of crates/kernway-dns/src/message.rs on concrete bytes.
use kernway.Prelude.{
  ℕ, zero, suc, ◌≤◌, ◌≡◌, ◌≢◌, refl, false, [], ◌∷◌, ◌++◌, length, take, Bytes, codes, split,
}
use kernway.Dns.Message.{
  max_name, truncated, malformed_name, name_too_long, value, failed, panicked, no_fuel, map_read,
  v4, Reader, without_dot, encode_labels, encode_name, opt_record, query_header, encode_query_inner,
  encode_query, encode_query_edns, u8, u16, u32, take_bytes, label_turn, pointer_turn, turn, walk,
  name, skip_name, skip_questions, record_address, answer, answers, response, parse_response, be16,
}
use kernway.Dns.Message.Total.{parse_response-total}
use kernway.Dns.Message.RoundTrip.{name-encode_name}

messages : Unit {0}
unfolding split without_dot encode_labels encode_name opt_record query_header encode_query_inner
    encode_query encode_query_edns u8 u16 u32 take_bytes label_turn pointer_turn turn walk name
    skip_name skip_questions record_address answer answers response parse_response
messages = tt

queries :
    (map_read (take 4) (encode_query 0xABCD (codes "a.bc") 1) ≡ value (0xAB ∷ 0xCD ∷ 1 ∷ 0 ∷ []))
    × (encode_name (codes "a.bc.") ≡ value (1 ∷ b'a' ∷ 2 ∷ b'b' ∷ b'c' ∷ 0 ∷ []))
    × (encode_name (codes ".") ≡ value (0 ∷ []))
    × (encode_name (codes "a..b") ≡ failed name_too_long)
    × (map_read length (encode_query_edns 1 (codes "a.bc") 1 1232) ≡ value 33)
unfolding messages
queries = (refl, refl, refl, refl, refl)

-- An answer whose name is a pointer to the question.
abbrev pointed_reply : Bytes
pointed_reply =
    be16 7
    ++ (be16 0x8180
        ++ (be16 1
            ++ (be16 1
                ++ (be16 0
                    ++ (be16 0
                        ++ (1 ∷ b'a' ∷ 0 ∷ be16 1
                            ++ (be16 1
                                ++ (0xC0 ∷ 12 ∷ be16 1
                                    ++ (be16 1
                                        ++ (be16 0
                                            ++ (be16 60
                                                ++ (be16 4 ++ (10 ∷ 0 ∷ 0 ∷ 1 ∷ [])))))))))))))

replies :
    (parse_response pointed_reply
      ≡ value (record {
        id = 7;
        truncated = false;
        rcode = 0;
        addresses = record { ip = v4 10 0 0 1; ttl = 60 } ∷ [];
      }))
    × (parse_response (take 30 pointed_reply) ≡ failed truncated)
unfolding messages
replies = (refl, refl)

abbrev at_start : Bytes → Reader
at_start buf = record { buf = buf; pos = 0 }

-- Each of these pointers leads strictly backward, and yet the labels lead round in a circle: the limit on
-- the jumps ends the loop.
backward_circle : name (at_start (1 ∷ b'a' ∷ 0xC0 ∷ 0 ∷ [])) ≡ failed malformed_name
unfolding messages
backward_circle = refl

repeat : ℕ → Bytes
repeat zero = []
repeat (suc n) = b'a' ∷ repeat n

abbrev label : ℕ → Bytes
label n = n ∷ repeat n

-- A name of 256 bytes on the on_wire, which `encode_name` refuses, is decoded.
one_byte_more :
    let long = label 63 ++ (label 63 ++ (label 63 ++ (label 62 ++ 0 ∷ []))) in
    (length long ≡ 256)
    × (map_read (λ p. length p.0) (name (at_start long)) ≡ value 254)
    × (map_read length
          (encode_name (repeat 63 ++ b'.' ∷ repeat 63 ++ b'.' ∷ repeat 63 ++ b'.' ∷ repeat 62))
        ≡ failed name_too_long)
unfolding messages repeat
one_byte_more = (refl, refl, refl)

abbrev on_wire : Bytes
on_wire = 1 ∷ b'a' ∷ 2 ∷ b'b' ∷ b'c' ∷ 0 ∷ []

name-encode_name_example :
    let buf = (9 ∷ 9 ∷ []) ++ (on_wire ++ 7 ∷ []) in
    (length on_wire ≤ max_name)
    × (name (record { buf = buf; pos = 2 }) ≡ value (codes "a.bc", record { buf = buf; pos = 8 }))
unfolding messages
name-encode_name_example = name-encode_name (codes "a.bc.") on_wire (9 ∷ 9 ∷ []) (7 ∷ []) refl

-- A name, a byte, and a pointer to the name.
abbrev pointed : Bytes
pointed = 1 ∷ b'a' ∷ 0 ∷ 0 ∷ 0xC0 ∷ 0 ∷ []

parse_response-total_example :
    (parse_response pointed_reply ≢ panicked) × (parse_response pointed_reply ≢ no_fuel)
parse_response-total_example = parse_response-total pointed_reply

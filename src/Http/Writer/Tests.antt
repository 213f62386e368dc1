-- ===== src/Http/Writer/Tests.antt =====
-- Responses of crates/kernway-http/src/writer.rs as bytes.
use kernway.Prelude.{
  ℕ, ◌≡◌, refl, Option, none, some, [], ◌∷◌, ◌++◌, arith, codes, lookup, lowercase, to_lower,
}
use kernway.Http.Parser.{strip_cr, head_end_from, find_head_end}
use kernway.Core.Fields
use kernway.Core.Fields.{Fields}
use kernway.Http.Writer.{
  close, empty_body, bytes, file, body_len, Response, body_bytes, itoa_from, itoa, status_text,
  is_reserved, header_lines, encode_head, encode_response_with, encode_response, crlf,
}
use kernway.Http.Writer.Framing.{IsFramedBy, head_lines, encode_response-framed}

writing : Unit {0}
unfolding strip_cr head_end_from find_head_end lookup lowercase to_lower Fields.range Fields.iter
    body_len body_bytes itoa_from itoa status_text is_reserved header_lines encode_head
    encode_response_with encode_response
writing = tt

abbrev fields : Fields
fields = record {
  buf = codes "x-abConnectionz";
  entries =
      record { name_start = 0; name_end = 3; value_start = 3; value_end = 4 }
      ∷ record { name_start = 4; name_end = 14; value_start = 14; value_end = 15 }
      ∷ [];
}

abbrev greeting : Response
greeting = record { status = 200; headers = fields; body = bytes (codes "hi") }

writes :
    (encode_response greeting
      ≡ some (
          codes "HTTP/1.1 200 OK"
          ++ (crlf
              ++ (codes "x-a: b"
                  ++ (crlf
                      ++ (codes "content-length: 2"
                          ++ (crlf
                              ++ (codes "connection: close"
                                  ++ (crlf ++ (crlf ++ codes "hi"))))))))))
    × (body_len (file (codes "f") 100 (some (10, 30))) ≡ 20)
    × (itoa 0 ≡ some (codes "0"))
unfolding writing
writes = (refl, refl, refl)

-- A line end in the value of a header is written as it is, and the head ends there.
abbrev split_head : Response
split_head = record {
  status = 200;
  headers = record {
    buf = codes "a" ++ (crlf ++ crlf);
    entries = record { name_start = 0; name_end = 1; value_start = 1; value_end = 5 } ∷ [];
  };
  body = empty_body;
}

writes_split :
    elim (encode_response split_head) as (λ _. Option (ℕ × ℕ)) [
      | none ↦ none
      | some out ↦ find_head_end out
    ]
    ≡ some (24, 2)
unfolding writing
writes_split = refl

encode_response-framed_example : IsFramedBy greeting close (head_lines greeting close 2)
unfolding writing
encode_response-framed_example =
    encode_response-framed greeting close (omega arith) tt (omega arith)
      ((refl, refl), ((refl, refl), tt))

-- ===== src/Http/Parser/Tests.antt =====
-- The parser of crates/kernway-http/src/parser.rs on concrete requests.
use kernway.Prelude.{
  ◌≡◌, ◌≢◌, refl, [], ◌∷◌, ◌++◌, arith, take, Bytes, codes, split, trim_start, trim_end, trim,
  split_once, parse_u64, is_utf8, lowercase, uppercase,
}
use kernway.Core.Fields
use kernway.Core.Fields.{Fields}
use kernway.Http.Parser.{
  http11, ok, err, panic, bad_request_line, Request, complete, incomplete, complete_head, strip_cr,
  head_end_from, find_head_end, finish_lines, lines_of, split_pair, add_param, params_from,
  parse_query_string, version_of, split_target, split_query, request_line_from, parse_request_line,
  split_header, add_header, headers_from, content_length, first_line, other_lines, decode_head,
  head_of, parse_head_inner, parse_head, with_body, parse_bytes,
}
use kernway.Http.Parser.Incremental.{parse_bytes-append}
use kernway.Http.Parser.Framing.{IsFramed, parse_bytes-IsFramed}
use kernway.Http.Parser.Sizes.{parse_bytes-safe}

abbrev crlf : Bytes
crlf = 13 ∷ 10 ∷ []

abbrev post : Bytes
post =
    codes "post /a?k=v HTTP/1.1" ++ crlf ++ codes "Content-Length: 2" ++ crlf ++ crlf ++ codes "hi"

abbrev posted : Request
posted = record {
  method = codes "POST";
  path = codes "/a";
  version = http11;
  headers = record {
    buf = codes "content-length2";
    entries = record { name_start = 0; name_end = 14; value_start = 14; value_end = 15 } ∷ [];
  };
  query = record {
    buf = codes "kv";
    entries = record { name_start = 0; name_end = 1; value_start = 1; value_end = 2 } ∷ [];
  };
  body = codes "hi";
}

parser : Unit {0}
unfolding split trim_start trim_end trim split_once parse_u64 is_utf8 lowercase uppercase
    Fields.range Fields.normalized Fields.matches Fields.name_matches Fields.offset Fields.push
    Fields.append Fields.find_last Fields.get strip_cr head_end_from find_head_end finish_lines
    lines_of split_pair add_param params_from parse_query_string version_of split_target split_query
    request_line_from parse_request_line split_header add_header headers_from content_length
    first_line other_lines decode_head head_of parse_head_inner parse_head with_body parse_bytes
parser = tt

abbrev bodiless : Request
bodiless = record posted { body = [] }

post-parses :
    (parse_bytes post ≡ ok (complete posted 45))
    × (parse_bytes (take 44 post) ≡ ok incomplete)
    × (parse_head (take 43 post) ≡ ok (complete_head bodiless 43 2))
    × (parse_bytes (codes "x" ++ 10 ∷ 10 ∷ []) ≡ err (bad_request_line (codes "x")))
    × (parse_bytes (255 ∷ 10 ∷ 10 ∷ []) ≡ err (bad_request_line (codes "head is not valid UTF-8")))
unfolding parser
post-parses = (refl, refl, refl, refl, refl)

post-decided : parse_bytes post ≢ ok incomplete
post-decided = rw post-parses.0 (λ bad. ground (arith, bad))

parse_bytes-append_example : parse_bytes (post ++ post) ≡ parse_bytes post
parse_bytes-append_example = parse_bytes-append post post post-decided

parse_bytes-IsFramed_example : IsFramed post posted 45
parse_bytes-IsFramed_example = parse_bytes-IsFramed post posted 45 post-parses.0

parse_bytes-safe_example : parse_bytes post ≢ panic
parse_bytes-safe_example = parse_bytes-safe post

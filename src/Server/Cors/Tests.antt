-- ===== src/Server/Cors/Tests.antt =====
-- A policy of crates/kernway-server/src/cors.rs for one origin.
use kernway.Prelude.{
  ◌≡◌, refl, true, Option, none, some, [], ◌∷◌, ◌++◌, length, Bytes, codes, lowercase, to_lower,
  arith,
}
use kernway.Core.Fields
use kernway.Core.Fields.{Fields}
use kernway.Http.Parser.{Request, http11}
use kernway.Http.Writer.{Response, empty_body}
use kernway.Server.Cors.{
  Cors, ◌>>=◌, new_cors, allow_origin, allow_any_origin, allow_methods, allow_headers,
  allow_any_header, expose_headers, allow_credentials, max_age_of, header, allow_origin_value,
  stamp_common, allowed_headers, preflight, is_preflight, stamped, answered, handle,
}
use kernway.Server.Cors.Decision.{allow_origin_name, Grants, Allows, handle-Allows}

crossing : Unit {0}
unfolding lowercase to_lower Fields.range Fields.normalized Fields.matches Fields.name_matches
    Fields.offset Fields.push Fields.insert Fields.find_last Fields.get Fields.contains_key
    allow_origin allow_any_origin allow_methods allow_headers allow_any_header expose_headers
    allow_credentials max_age_of allow_origin_value stamp_common allowed_headers preflight
    is_preflight stamped answered handle
crossing = tt

abbrev field : Bytes → Bytes → Fields
field name value = record {
  buf = name ++ value;
  entries =
      record {
        name_start = 0;
        name_end = length name;
        value_start = length name;
        value_end = length (name ++ value);
      }
      ∷ [];
}

abbrev request : Bytes → Request
request origin = record {
  method = codes "GET";
  path = codes "/";
  version = http11;
  headers = field (codes "origin") origin;
  query = Fields.new;
  body = [];
}

abbrev policy : Cors
policy = allow_credentials (allow_origin new_cors (codes "https://a")) true

abbrev next : Request → Option Response
next req =
    some
      (record { status = 200; headers = field (codes "vary") (codes "Accept"); body = empty_body })

abbrev seen : Bytes → Option Response → Option Bytes
seen name o = o >>= λ r. Fields.get true r.headers name

decisions :
    (seen allow_origin_name (handle next policy (request (codes "https://a")))
      ≡ some (codes "https://a"))
    × (seen allow_origin_name (handle next policy (request (codes "https://b"))) ≡ none)
    × (allow_origin_value (allow_any_origin new_cors) (codes "https://b") ≡ some (codes "*"))
unfolding crossing
decisions = (refl, refl, refl)

-- A response that varies by something else loses that when it is stamped; one to an origin that is not allowed
-- is not marked as varying by origin.
varies :
    (seen (codes "vary") (handle next policy (request (codes "https://a"))) ≡ some (codes "Origin"))
    × (seen (codes "vary") (handle next policy (request (codes "https://b")))
        ≡ some (codes "Accept"))
unfolding crossing
varies = (refl, refl)

abbrev allowed : Response
allowed = elim (handle next policy (request (codes "https://a"))) [
  | some r ↦ r
  | none ↦ record { status = 0; headers = Fields.new; body = empty_body }
]

next-Allows : (req : Request) (r : Response) → next req ≡ some r → Allows none r.headers
unfolding crossing
next-Allows req r h =
    let first : Response = record {
      status = 200;
      headers = field (codes "vary") (codes "Accept");
      body = empty_body;
    } in
    let same : first ≡ r = ground (arith, h) in rw (← same) ((omega arith, tt), refl)

handle-Allows_example :
    Grants policy
      (header (request (codes "https://a")) (codes "origin"))
      (Fields.get true allowed.headers allow_origin_name)
unfolding crossing
handle-Allows_example =
    handle-Allows next policy (request (codes "https://a")) allowed
      (next-Allows (request (codes "https://a"))) refl

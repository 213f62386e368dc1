-- ===== src/Http/Writer.antt =====
-- crates/kernway-http/src/writer.rs: a response as bytes. A body that is read from a file or a stream is known by
-- its length; nothing stands for a panic.
pub mod Digits
pub mod Lines
pub mod Framing
mod Tests
use kernway.Prelude.{
  ℕ, zero, suc, ◌+◌, ◌-◌, ◌*◌, ◌/◌, ◌%◌, ◌^◌, ◌||◌, Bool, true, false, Option, none, some, List, [],
  ◌∷◌, ◌++◌, ◌==◌, if◌then◌else◌, length, Bytes, codes, eq_ignore_case, Map, nat_eq, lookup,
  unwrap_or,
}
use kernway.Core.Fields
use kernway.Core.Fields.{Fields}

pub data Connection : Type 0 where
  close keep_alive : Connection

abbrev pub header_value : Connection → Bytes
header_value close = codes "close"
header_value keep_alive = codes "keep-alive"

pub data Body : Type 0 where
  empty_body : Body
  bytes : Bytes → Body
  file : (path : Bytes) (len : ℕ) (range : Option (ℕ × ℕ)) → Body
  stream : (len : ℕ) → Body

-- `Body::len`
pub body_len : Body → ℕ
body_len empty_body = 0
body_len (bytes b) = length b
body_len (file path len none) = len
body_len (file path len (some (start, end_))) = (end_ + 2 ^ 64 - start) % 2 ^ 64
body_len (stream len) = len

pub record Response : Type 0 where
  pub status : ℕ
  pub headers : Fields
  pub body : Body

pub body_bytes : Body → Bytes
body_bytes (bytes b) = b
body_bytes _ = []

abbrev pub crlf : Bytes
crlf = 13 ∷ 10 ∷ []

-- The loop of `itoa`: the place in its buffer, and the digits behind it.
pub itoa_from : ℕ → ℕ → Bytes → Option Bytes
itoa_from zero n digits = none
itoa_from (suc start) n digits =
    let rest = itoa_from start (n / 10) ((48 + n % 10) ∷ digits) in
    if n / 10 == 0 then some ((48 + n % 10) ∷ digits) else rest

pub itoa : ℕ → Option Bytes
itoa n = itoa_from 20 n []

abbrev pub status_texts : Map ℕ Bytes
status_texts =
    (200, codes "OK")
    ∷ (201, codes "Created")
    ∷ (204, codes "No Content")
    ∷ (206, codes "Partial Content")
    ∷ (304, codes "Not Modified")
    ∷ (400, codes "Bad Request")
    ∷ (401, codes "Unauthorized")
    ∷ (403, codes "Forbidden")
    ∷ (404, codes "Not Found")
    ∷ (405, codes "Method Not Allowed")
    ∷ (416, codes "Range Not Satisfiable")
    ∷ (422, codes "Unprocessable Entity")
    ∷ (429, codes "Too Many Requests")
    ∷ (500, codes "Internal Server Error")
    ∷ (503, codes "Service Unavailable")
    ∷ []

pub status_text : ℕ → Bytes
status_text code = unwrap_or (lookup code status_texts) (codes "Unknown")

-- The headers that the transport sets itself.
pub is_reserved : Bytes → Bool
is_reserved name =
    eq_ignore_case name (codes "connection") || eq_ignore_case name (codes "content-length")

pub header_lines : List (Bytes × Bytes) → Bytes
header_lines [] = []
header_lines ((name, value) ∷ pairs) =
    let rest = header_lines pairs in
    if is_reserved name then rest else name ++ (codes ": " ++ (value ++ (crlf ++ rest)))

-- The last two headers, and the end of the head.
abbrev pub fixed_lines : Bytes → Connection → Bytes
fixed_lines size connection =
    codes "content-length: "
    ++ (size ++ (crlf ++ (codes "connection: " ++ (header_value connection ++ (crlf ++ crlf)))))

pub encode_head : Response → Connection → ℕ → Option Bytes
encode_head r connection content_length = elim (itoa r.status) [
  | none ↦ none
  | some status ↦ elim (itoa content_length) [
    | none ↦ none
    | some size ↦
        let fields = header_lines (Fields.iter r.headers) ++ fixed_lines size connection in
        some (codes "HTTP/1.1 " ++ (status ++ (32 ∷ (status_text r.status ++ (crlf ++ fields)))))
  ]
]

pub encode_response_with : Response → Connection → Option Bytes
encode_response_with r connection = elim (encode_head r connection (body_len r.body)) [
  | none ↦ none
  | some head ↦ some (head ++ body_bytes r.body)
]

pub encode_response : Response → Option Bytes
encode_response r = encode_response_with r close

-- `head_estimate`
head_estimate : Response → ℕ
head_estimate r = 64 + Fields.byte_len r.headers + length r.headers.entries * 4

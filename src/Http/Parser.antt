-- ===== src/Http/Parser.antt =====
-- crates/kernway-http/src/parser.rs: `parse_head` and `parse_bytes`, which decode a request from the
-- front of a buffer that may not hold all of it yet. `panic` stands for the source's panics: on text
-- that outgrows the offsets of `Fields`, and on a slice past the end of the buffer; trimming and upper case are those of ASCII text.
pub mod HeadEnd
pub mod Sizes
pub mod Framing
pub mod Incremental
mod Tests
use kernway.Prelude.{
  ℕ, ◌+◌, ◌-◌, ◌*◌, leb, Bool, true, false, not, ◌&&◌, Option, none, some, List, [], ◌∷◌, ◌++◌, ltb,
  ◌==◌, if◌then◌else◌, unwrap_or, length, take, drop, Bytes, bytes_eq, codes, same, is_empty, split,
  uppercase, is_utf8, trim, split_once, parse_u64,
}
use mathlib.Core.Option
use kernway.Core.Fields
use kernway.Core.Fields.{Fields}

-- `ParseError`; reading from a buffer in memory has no `Io`.
pub data ParseError : Type 0 where
  bad_request_line : Bytes → ParseError
  too_large : ParseError

pub data Outcome (A : Type 0) : Type 0 where
  ok : A → Outcome A
  err : ParseError → Outcome A
  panic : Outcome A

infixl 5 ◌>>=◌
abbrev pub ◌>>=◌ : {A B : Type 0} → Outcome A → (A → Outcome B) → Outcome B
ok a >>= f = f a
err e >>= f = err e
panic >>= f = panic

abbrev pub or_panic : {A : Type 0} → Option A → Outcome A
or_panic none = panic
or_panic (some a) = ok a

pub data HttpVersion : Type 0 where
  http10 http11 : HttpVersion

pub record Request : Type 0 where
  pub method : Bytes
  pub path : Bytes
  pub version : HttpVersion
  pub headers : Fields
  pub query : Fields
  pub body : Bytes

pub data Parsed : Type 0 where
  complete : Request → (consumed : ℕ) → Parsed
  incomplete : Parsed

pub data ParsedHead : Type 0 where
  complete_head : Request → (head_end content_length : ℕ) → ParsedHead
  incomplete_head : ParsedHead

abbrev pub max_head_bytes : ℕ
max_head_bytes = 8 * 1024

abbrev pub max_body_bytes : ℕ
max_body_bytes = 10 * 1024 * 1024

-- `strip_suffix(b"\r")`, where there is one.
unfoldable pub strip_cr : Bytes → Bytes
strip_cr [] = []
strip_cr (c ∷ []) = if c == 13 then [] else c ∷ []
strip_cr (c ∷ d ∷ s) = c ∷ strip_cr (d ∷ s)

-- The loop of `find_head_end`: the bytes of the line so far, their end, and the lines before.
unfoldable pub head_end_from : Bytes → ℕ → ℕ → Bytes → Option (ℕ × ℕ)
head_end_from line pos lines [] = none
head_end_from line pos lines (c ∷ s) =
    let rest =
      head_end_from (if c == 10 then [] else line ++ c ∷ []) (pos + 1)
        (if c == 10 then lines + 1 else lines) s in
    if c == 10 && is_empty (strip_cr line) then some (pos + 1, lines) else rest

unfoldable pub find_head_end : Bytes → Option (ℕ × ℕ)
find_head_end buf = head_end_from [] 0 0 buf

-- `str::lines`
finish_lines : List Bytes → List Bytes
finish_lines [] = []
finish_lines (w ∷ []) = if is_empty w then [] else w ∷ []
finish_lines (w ∷ v ∷ ws) = strip_cr w ∷ finish_lines (v ∷ ws)

pub lines_of : Bytes → List Bytes
lines_of s = finish_lines (split 10 s)

abbrev and_then : Option Fields → (Fields → Option Fields) → Option Fields
and_then none f = none
and_then (some more) f = f more

-- `key=value`, or a key alone.
split_pair : Bytes → Bytes × Bytes
split_pair pair = unwrap_or (split_once b'=' pair) (pair, [])

add_param : Bytes → Fields → Option Fields
add_param pair params =
    if is_empty (split_pair pair).0
    then some params
    else Fields.append false params (split_pair pair).0 (split_pair pair).1

params_from : List Bytes → Fields → Option Fields
params_from [] params = some params
params_from (pair ∷ pairs) params = and_then (add_param pair params) (params_from pairs)

-- `parse_query_string`; an empty piece has an empty key and is skipped too.
pub parse_query_string : Bytes → Option Fields
parse_query_string query = params_from (split b'&' query) Fields.new

version_of : Option Bytes → HttpVersion
version_of none = http10
version_of (some v) = if same (trim v) (codes "HTTP/1.0") then http10 else http11

pub record RequestLine : Type 0 where
  pub method : Bytes
  pub path : Bytes
  pub query : Fields
  pub version : HttpVersion

abbrev target_from : Bytes → Option (Bytes × Bytes) → Bytes × Option Bytes
target_from rest none = (rest, none)
target_from rest (some (target, version)) = (target, some version)

-- The target and the version behind it.
split_target : Bytes → Bytes × Option Bytes
split_target rest = target_from rest (split_once 32 rest)

split_query : Bytes → Bytes × Bytes
split_query target = unwrap_or (split_once b'?' target) (target, [])

request_line_from : Bytes → Option (Bytes × Bytes) → Outcome RequestLine
request_line_from line none = err (bad_request_line line)
request_line_from line (some (method, rest)) =
    let (target, version) = split_target rest in
    let (path, query) = split_query target in
    if is_empty method then err (bad_request_line line) else do
      params ← or_panic (parse_query_string query)
      ok (record {
        method = uppercase method;
        path = path;
        query = params;
        version = version_of version;
      })

pub parse_request_line : Bytes → Outcome RequestLine
parse_request_line line = request_line_from line (split_once 32 line)

pub split_header : Bytes → Option (Bytes × Bytes)
split_header line = Option.map (λ (n, v). (trim n, trim v)) (split_once b':' line)

abbrev header_pair : Fields → Option (Bytes × Bytes) → Option Fields
header_pair headers none = some headers
header_pair headers (some (n, v)) = Fields.append true headers n v

add_header : Bytes → Fields → Option Fields
add_header line headers = header_pair headers (split_header line)

-- The header lines up to an empty one.
pub headers_from : List Bytes → Fields → Option Fields
headers_from [] headers = some headers
headers_from (line ∷ lines) headers =
    let rest = and_then (add_header (trim line) headers) (headers_from lines) in
    if is_empty (trim line) then some headers else rest

-- `headers.get("content-length").and_then(|v| v.parse().ok()).unwrap_or(0)`
pub content_length : Fields → ℕ
content_length headers = elim (Fields.get true headers (codes "content-length")) [
  | none ↦ 0
  | some v ↦ unwrap_or (parse_u64 v) 0
]

first_line : List Bytes → Bytes
first_line [] = []
first_line (line ∷ lines) = line

other_lines : List Bytes → List Bytes
other_lines [] = []
other_lines (line ∷ lines) = lines

-- The head once its end is known.
pub decode_head : Bytes → ℕ → Outcome (Request × ℕ × ℕ)
decode_head head head_end =
    if not (is_utf8 head) then err (bad_request_line (codes "head is not valid UTF-8")) else do
      let lines = lines_of head
      line ← parse_request_line (trim (first_line lines))
      headers ← or_panic (headers_from (other_lines lines) Fields.new)
      ok (
        record {
          method = line.method;
          path = line.path;
          version = line.version;
          headers = headers;
          query = line.query;
          body = [];
        },
        head_end,
        content_length headers,
      )

-- `buf[start..end]`, which panics when the range is not one of the buffer.
abbrev pub slice : ℕ → ℕ → Bytes → Outcome Bytes
slice start end_ buf =
    if leb start end_ && leb end_ (length buf)
    then ok (take (end_ - start) (drop start buf))
    else panic

head_of : Bytes → Option (ℕ × ℕ) → Outcome (Option (Request × ℕ × ℕ))
head_of buf none = if ltb max_head_bytes (length buf) then err too_large else ok none
head_of buf (some (head_end, lines)) =
    if ltb max_head_bytes head_end
    then err too_large
    else do text ← slice 0 head_end buf; head ← decode_head text head_end; ok (some head)

pub parse_head_inner : Bytes → Outcome (Option (Request × ℕ × ℕ))
parse_head_inner buf = head_of buf (find_head_end buf)

pub parse_head : Bytes → Outcome ParsedHead
parse_head buf = do
  found ← parse_head_inner buf
  elim found [
    | none ↦ ok incomplete_head
    | some (request, head_end, length_) ↦ ok (complete_head request head_end length_)
  ]

with_body : Bytes → Option (Request × ℕ × ℕ) → Outcome Parsed
with_body buf none = ok incomplete
with_body buf (some (request, head_end, body_length)) =
    if ltb max_body_bytes body_length
    then err too_large
    else if ltb (length buf) (head_end + body_length)
    then ok incomplete
    else do
      body ← slice head_end (head_end + body_length) buf
      ok (complete (record request { body = body }) (head_end + body_length))

pub parse_bytes : Bytes → Outcome Parsed
parse_bytes buf = do found ← parse_head_inner buf; with_body buf found

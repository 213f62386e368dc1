-- ===== src/Http/Parser/Sizes.antt =====
-- crates/kernway-http/src/parser.rs: a head is too short for its fields to outgrow their offsets, and
-- its slices are in range, so the parser never panics.
use kernway.Prelude.{
  ℕ, suc, ◌+◌, ◌^◌, ◌≤◌, ◌<◌, ◌≡◌, ◌≢◌, refl, Option, none, some, List, [], ◌∷◌, arith, ◌==◌, ltb,
  ltb→le, Bool-cases, Option-cases, inl, inr, length, unwrap_or, take, Bytes, length-take, true,
  false, is_empty, split, push_head, split_once, length-split_once, trim, length-trim, is_utf8,
}
use kernway.Http.Parser.HeadEnd.{inner_known, slice-body}
use kernway.Core.Fields
use kernway.Core.Fields.{Fields}
use kernway.Core.Fields.View.{append_grows}
use kernway.Http.Parser.{
  Outcome, ok, err, panic, ◌>>=◌, Request, strip_cr, finish_lines, lines_of, split_pair, add_param,
  params_from, parse_query_string, split_target, split_query, request_line_from, parse_request_line,
  split_header, add_header, headers_from, first_line, other_lines, decode_head, head_of,
  parse_head_inner, with_body, parse_bytes, find_head_end, max_head_bytes, max_body_bytes,
}

-- The bytes of all pieces together.
abbrev total : List Bytes → ℕ
total [] = 0
total (w ∷ ws) = length w + total ws

total-push_head : (x : ℕ) (ws : List Bytes) → total (push_head x ws) ≤ suc (total ws)
total-push_head x [] = omega arith
total-push_head x (w ∷ ws) = omega arith

total-split : (c : ℕ) (s : Bytes) → total (split c s) ≤ length s
unfolding split
total-split c [] = omega arith
total-split c (x ∷ s) = elim (Bool-cases (x == c)) [
  | inl e ↦ rw e (omega (arith, total-split c s))
  | inr e ↦ rw e (omega (arith, total-split c s, total-push_head x (split c s)))
]

length-strip_cr : (s : Bytes) → length (strip_cr s) ≤ length s
unfolding strip_cr
length-strip_cr [] = omega arith
length-strip_cr (c ∷ []) = ground arith
length-strip_cr (c ∷ d ∷ s) = omega (arith, length-strip_cr (d ∷ s))

total-finish_lines : (ws : List Bytes) → total (finish_lines ws) ≤ total ws
unfolding finish_lines
total-finish_lines [] = omega arith
total-finish_lines (w ∷ []) = ground arith
total-finish_lines (w ∷ v ∷ ws) = omega (arith, length-strip_cr w, total-finish_lines (v ∷ ws))

total-lines_of : (s : Bytes) → total (lines_of s) ≤ length s
unfolding lines_of
total-lines_of s = omega (arith, total-finish_lines (split 10 s), total-split 10 s)

-- Both parts of a pair, and the pair.
pair_le :
    (c : ℕ) (s : Bytes)
    → length (unwrap_or (split_once c s) (s, [])).0 + length (unwrap_or (split_once c s) (s, [])).1
      ≤ length s
pair_le c s = elim (Option-cases (split_once c s)) [
  | inl e ↦ rw e (omega arith)
  | inr ((a, b), e) ↦ rw e (omega (arith, length-split_once c s a b e))
]

add_param_grows :
    (pair : Bytes) (f : Fields)
    → Fields.byte_len f + length pair < 2 ^ 32
    → (g : Fields) × (add_param pair f ≡ some g)
      × (Fields.byte_len g ≤ Fields.byte_len f + length pair)
unfolding add_param split_pair
add_param_grows pair f h =
    let kv : Bytes × Bytes = split_pair pair in
    let room : length kv.0 + length kv.1 ≤ length pair = pair_le b'=' pair in
    let (g, added, grown) = append_grows false f kv.0 kv.1 (omega (arith, room)) in
    elim (Bool-cases (is_empty kv.0)) [
      | inl e ↦ rw e (f, refl, omega arith)
      | inr e ↦ rw e (g, added, omega (arith, grown, room))
    ]

params_grow :
    (pairs : List Bytes) (f : Fields)
    → Fields.byte_len f + total pairs < 2 ^ 32
    → (g : Fields) × (params_from pairs f ≡ some g)
unfolding params_from
params_grow [] f h = (f, refl)
params_grow (pair ∷ pairs) f h =
    let (g, added, grown) = add_param_grows pair f (omega arith) in
    rw added (params_grow pairs g (omega (arith, grown)))

add_header_grows :
    (line : Bytes) (f : Fields)
    → Fields.byte_len f + length line < 2 ^ 32
    → (g : Fields) × (add_header line f ≡ some g)
      × (Fields.byte_len g ≤ Fields.byte_len f + length line)
unfolding add_header split_header
add_header_grows line f h = elim (Option-cases (split_once b':' line)) [
  | inl e ↦ rw e (f, refl, omega arith)
  | inr ((n, v), e) ↦
      let room = length-split_once b':' line n v e in
      let (g, added, grown) =
        append_grows true f (trim n) (trim v) (omega (arith, room, length-trim n, length-trim v)) in
      rw e (g, added, omega (arith, grown, room, length-trim n, length-trim v))
]

headers_grow :
    (lines : List Bytes) (f : Fields)
    → Fields.byte_len f + total lines < 2 ^ 32
    → (g : Fields) × (headers_from lines f ≡ some g)
unfolding headers_from
headers_grow [] f h = (f, refl)
headers_grow (line ∷ lines) f h =
    let (g, added, grown) = add_header_grows (trim line) f (omega (arith, length-trim line)) in
    elim (Bool-cases (is_empty (trim line))) [
      | inl e ↦ rw e (f, refl)
      | inr e ↦ rw (e, added) (headers_grow lines g (omega (arith, grown, length-trim line)))
    ]

query_parses :
    (query : Bytes) → length query < 2 ^ 32 → (g : Fields) × (parse_query_string query ≡ some g)
unfolding parse_query_string Fields.byte_len
query_parses query h =
    params_grow (split b'&' query) Fields.new (omega (arith, total-split b'&' query))

target_le : (rest : Bytes) → length (split_target rest).0 ≤ length rest
unfolding split_target
target_le rest = elim (Option-cases (split_once 32 rest)) [
  | inl e ↦ rw e (omega arith)
  | inr ((t, v), e) ↦ rw e (omega (arith, length-split_once 32 rest t v e))
]

-- Steps that do not panic, in order.
bind-safe :
    {A B : Type 0} (m : Outcome A) (f : A → Outcome B)
    → m ≢ panic
    → ((a : A) → f a ≢ panic)
    → (m >>= f) ≢ panic
bind-safe (ok a) f h k = k a
bind-safe (err e) f h k = λ bad. ground (arith, bad)
bind-safe panic f h k = λ bad. h refl

request_line_parses : (line : Bytes) → length line < 2 ^ 32 → parse_request_line line ≢ panic
unfolding parse_request_line request_line_from split_query
request_line_parses line h = elim (Option-cases (split_once 32 line)) [
  | inl e ↦ rw e (λ bad. ground (arith, bad))
  | inr ((m, rest), e) ↦
      let query : Bytes = (split_query (split_target rest).0).1 in
      let (g, parsed) = query_parses query (
        omega (
          arith,
          length-split_once 32 line m rest e,
          target_le rest,
          pair_le b'?' (split_target rest).0,
        )) in
      elim (Bool-cases (is_empty m)) [
        | inl none_ ↦ rw (e, none_) (λ bad. ground (arith, bad))
        | inr some_ ↦ rw (e, some_, parsed) (λ bad. ground (arith, bad))
      ]
]

first_le :
    (lines : List Bytes) → length (first_line lines) + total (other_lines lines) ≤ total lines
unfolding first_line other_lines
first_le [] = omega arith
first_le (line ∷ lines) = omega arith

head_decodes : (head : Bytes) (e : ℕ) → length head < 2 ^ 32 → decode_head head e ≢ panic
unfolding decode_head Fields.byte_len
head_decodes head e h =
    let lines = lines_of head in
    let room = first_le lines in
    let small = total-lines_of head in
    let (g, parsed) = headers_grow (other_lines lines) Fields.new (omega (arith, room, small)) in
    elim (Bool-cases (is_utf8 head)) [
      | inr bad ↦ rw bad (λ b. ground (arith, b))
      | inl good ↦ rw good (
          bind-safe (parse_request_line (trim (first_line lines))) _
            (request_line_parses (trim (first_line lines))
              (omega (arith, room, small, length-trim (first_line lines))))
            (λ line. rw parsed (λ b. ground (arith, b))))
    ]

inner-safe : (buf : Bytes) → parse_head_inner buf ≢ panic
unfolding parse_head_inner head_of
inner-safe buf = elim (Option-cases (find_head_end buf)) [
  | inl k ↦ rw k (λ bad. ground (arith, bad))
  | inr ((e, l), k) ↦ elim (Bool-cases (ltb max_head_bytes e)) [
    | inl big ↦ rw (inner_known buf e l k, big) (λ bad. ground (arith, bad))
    | inr small ↦
        let fits = ltb→le max_head_bytes e small in
        rw (inner_known buf e l k, small)
          (bind-safe (decode_head (take e buf) e) _
            (head_decodes (take e buf) e (omega (arith, length-take e buf, fits)))
            (λ head bad. ground (arith, bad)))
  ]
]

with_body-safe : (buf : Bytes) (found : Option (Request × ℕ × ℕ)) → with_body buf found ≢ panic
unfolding with_body
with_body-safe buf none = λ bad. ground (arith, bad)
with_body-safe buf (some (r, e, n)) = elim (Bool-cases (ltb max_body_bytes n)) [
  | inl big ↦ rw big (λ bad. ground (arith, bad))
  | inr small ↦ elim (Bool-cases (ltb (length buf) (e + n))) [
    | inl short ↦ rw (small, short) (λ bad. ground (arith, bad))
    | inr long ↦
        rw (small, long, slice-body e n buf (ltb→le (length buf) (e + n) long))
          (λ bad. ground (arith, bad))
  ]
]

-- Whatever the buffer holds, `parse_bytes` gives a request, an error or "incomplete": the head limit
-- keeps the text of the headers and of the query below what their offsets hold, and the slices for the head
-- and the body are taken only when the buffer holds them, so it panics in neither place.
pub parse_bytes-safe : (buf : Bytes) → parse_bytes buf ≢ panic
unfolding parse_bytes
parse_bytes-safe buf =
    bind-safe (parse_head_inner buf) (with_body buf) (inner-safe buf) (with_body-safe buf)

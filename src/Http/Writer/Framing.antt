-- ===== src/Http/Writer/Framing.antt =====
-- crates/kernway-http/src/writer.rs: a response is framed the way crates/kernway-http/src/parser.rs reads frames.
use kernway.Prelude.{
  ℕ, ◌+◌, ◌^◌, ◌<◌, ◌≡◌, refl, sym, ap, ◌∙◌, inl, inr, some, List, [], ◌∷◌, ◌++◌, nat_eq, arith,
  Bool-cases, length, Bytes, codes, append_assoc, decimal, decimal-IsDigit, keep, map, not, ◌&&◌,
  eq_ignore_case,
}
use kernway.Http.Parser.{find_head_end}
use kernway.Core.Fields
use kernway.Http.Writer.{
  Body, empty_body, bytes, file, stream, Connection, header_value, body_len, Response, body_bytes,
  crlf, status_text, is_reserved, header_lines, fixed_lines, encode_head, encode_response_with,
}
use kernway.Http.Writer.Lines.{
  AreClean, line_of, line-shape, written, status_line, whole_head, head_end-whole,
}
use kernway.Http.Writer.Digits.{itoa-decimal, digits-no_lf, status_text-no_lf}

-- The lines of a head and the empty line behind them.
abbrev pub text_of_lines : List Bytes → Bytes
text_of_lines [] = crlf
text_of_lines (line ∷ lines) = line ++ (crlf ++ text_of_lines lines)

-- The headers that a response may set.
abbrev pub own_headers : List (Bytes × Bytes) → List (Bytes × Bytes)
own_headers pairs =
    keep
      (λ p.
        not (eq_ignore_case p.0 (codes "content-length"))
        && not (eq_ignore_case p.0 (codes "connection")))
      pairs

abbrev pub head_lines : Response → Connection → ℕ → List Bytes
head_lines r connection size =
    (codes "HTTP/1.1 " ++ (decimal r.status ++ 32 ∷ status_text r.status))
    ∷ (map (λ p. p.0 ++ (codes ": " ++ p.1)) (own_headers (Fields.iter r.headers))
        ++ (codes "content-length: " ++ decimal size)
          ∷ (codes "connection: " ++ header_value connection)
          ∷ [])

headers-text :
    (pairs : List (Bytes × Bytes)) (lines : List Bytes)
    → header_lines pairs ++ text_of_lines lines
      ≡ text_of_lines (map (λ p. p.0 ++ (codes ": " ++ p.1)) (own_headers pairs) ++ lines)
unfolding header_lines is_reserved
headers-text [] lines = refl
headers-text ((name, value) ∷ pairs) lines =
    let shape = line-shape name value (header_lines pairs) (text_of_lines lines) in
    elim (Bool-cases (eq_ignore_case name (codes "content-length"))) [
      | inl a ↦ elim (Bool-cases (eq_ignore_case name (codes "connection"))) [
        | inl b ↦ rw (a, b) (headers-text pairs lines)
        | inr b ↦ rw (a, b) (headers-text pairs lines)
      ]
      | inr a ↦ elim (Bool-cases (eq_ignore_case name (codes "connection"))) [
        | inl b ↦ rw (a, b) (headers-text pairs lines)
        | inr b ↦
            rw (a, b)
              (shape ∙ ap (λ t. line_of name value ++ (crlf ++ t)) (headers-text pairs lines))
      ]
    ]

written-own : (pairs : List (Bytes × Bytes)) → written pairs ≡ length (own_headers pairs)
unfolding is_reserved
written-own [] = refl
written-own ((name, value) ∷ pairs) = ground (arith, written-own pairs)

length-lines :
    (pairs : List (Bytes × Bytes)) (a b : Bytes)
    → length (map (λ p. p.0 ++ (codes ": " ++ p.1)) pairs ++ a ∷ b ∷ []) ≡ length pairs + 2
length-lines [] a b = refl
length-lines (p ∷ pairs) a b = omega (arith, length-lines pairs a b)

fixed-text :
    (size : Bytes) (connection : Connection)
    → fixed_lines size connection
      ≡ text_of_lines (
          (codes "content-length: " ++ size)
          ∷ (codes "connection: " ++ header_value connection)
          ∷ [])
fixed-text size connection =
    let v = header_value connection in
    ap (λ t. codes "content-length: " ++ t) refl
    ∙ sym (
        append_assoc (codes "content-length: ") size
          (crlf ++ (codes "connection: " ++ (v ++ (crlf ++ crlf)))))
    ∙ ap (λ t. (codes "content-length: " ++ size) ++ (crlf ++ t))
        (sym (append_assoc (codes "connection: ") v (crlf ++ crlf)))

whole-text :
    (r : Response) (connection : Connection) (size : ℕ)
    → whole_head
        (decimal r.status)
        (status_text r.status)
        (header_lines (Fields.iter r.headers) ++ fixed_lines (decimal size) connection)
      ≡ text_of_lines (head_lines r connection size)
whole-text r connection size =
    let status = decimal r.status in
    let text = status_text r.status in
    let pairs = Fields.iter r.headers in
    let fields = header_lines pairs ++ fixed_lines (decimal size) connection in
    ap (λ t. codes "HTTP/1.1 " ++ t) (sym (append_assoc status (32 ∷ text) (crlf ++ fields)))
    ∙ ap (λ t. status_line status text ++ (crlf ++ t))
        (ap (λ t. header_lines pairs ++ t) (fixed-text (decimal size) connection)
          ∙ headers-text pairs _)

-- The body is there as bytes, or there is none.
abbrev pub IsInMemory : Body → Type 0
IsInMemory empty_body = Unit
IsInMemory (bytes b) = Unit
IsInMemory (file path len range) = ⊥
IsInMemory (stream len) = ⊥

body_len-length : (b : Body) → IsInMemory b → body_len b ≡ length (body_bytes b)
unfolding body_len body_bytes
body_len-length empty_body h = refl
body_len-length (bytes b) h = refl
body_len-length (file path len range) h = absurd h
body_len-length (stream len) h = absurd h

-- What is written is this head and the body, and a reader finds the end of the head, behind its lines.
abbrev pub IsFramedBy : Response → Connection → List Bytes → Type 0
IsFramedBy r connection lines =
    (encode_response_with r connection ≡ some (text_of_lines lines ++ body_bytes r.body))
    × (find_head_end (text_of_lines lines ++ body_bytes r.body)
        ≡ some (length (text_of_lines lines), length lines))

-- A response with its body in memory, whose headers end no line, is written as a head and its body. The
-- lines of the head are the status, the headers of the response but any "content-length" or "connection", then
-- one "content-length" with the number of bytes of the body in decimal and one "connection"; and the
-- parser of requests, which knows a head by its empty line, ends the head exactly where the body
-- begins, whatever the body holds.
pub encode_response-framed :
    (r : Response) (connection : Connection)
    → r.status < 2 ^ 16
    → IsInMemory r.body
    → length (body_bytes r.body) < 2 ^ 64
    → AreClean (Fields.iter r.headers)
    → IsFramedBy r connection (head_lines r connection (length (body_bytes r.body)))
unfolding encode_head encode_response_with
encode_response-framed r connection small memory fits clean =
    let n = length (body_bytes r.body) in
    let status = decimal r.status in
    let text = status_text r.status in
    let pairs = Fields.iter r.headers in
    let head = whole_head status text (header_lines pairs ++ fixed_lines (decimal n) connection) in
    let run : encode_head r connection (body_len r.body) ≡ some head =
      rw
        (
          encode_head,
          itoa-decimal r.status (omega (arith, small)),
          body_len-length r.body memory,
          itoa-decimal n fits,
        )
        refl in
    let wrote : encode_response_with r connection ≡ some (head ++ body_bytes r.body) =
      rw (encode_response_with, run) refl in
    let found =
      head_end-whole status text (decimal n) (body_bytes r.body) pairs connection
        (digits-no_lf status (decimal-IsDigit r.status)) (status_text-no_lf r.status)
        (digits-no_lf (decimal n) (decimal-IsDigit n)) clean in
    let count : 1 + written pairs + 1 + 1 ≡ length (head_lines r connection n) =
      omega (arith, written-own pairs, length-lines (own_headers pairs) _ _) in
    framed-same r head (text_of_lines (head_lines r connection n)) connection _ _
      (whole-text r connection n) count wrote found
  where
    framed-same :
        (r : Response) (a b : Bytes) (connection : Connection) (k l : ℕ)
        → a ≡ b
        → k ≡ l
        → encode_response_with r connection ≡ some (a ++ body_bytes r.body)
        → find_head_end (a ++ body_bytes r.body) ≡ some (length a, k)
        → (encode_response_with r connection ≡ some (b ++ body_bytes r.body))
          × (find_head_end (b ++ body_bytes r.body) ≡ some (length b, l))
    framed-same r a b connection k l e f h g = rw (← e, ← f) (h, g)

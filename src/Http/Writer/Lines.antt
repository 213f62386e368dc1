-- ===== src/Http/Writer/Lines.antt =====
-- crates/kernway-http/src/writer.rs: where crates/kernway-http/src/parser.rs ends a head that the writer wrote.
use kernway.Prelude.{
  ℕ, ◌+◌, ◌≡◌, refl, sym, ap, ◌∙◌, inl, inr, true, some, List, [], ◌∷◌, ◌++◌, nat_eq, if◌then◌else◌,
  arith, Bool-cases, length, All, Bytes, codes, append_assoc, length-append, keep,
}
use kernway.Http.Parser.{head_end_from, find_head_end}
use kernway.Http.Parser.HeadEnd.{no_lf, no_lf-append, head_end-line, head_end-stop}
use kernway.Http.Writer.{
  Connection, close, keep_alive, header_value, crlf, is_reserved, header_lines, fixed_lines,
}

-- Headers whose names and values end no line.
abbrev pub AreClean : List (Bytes × Bytes) → Type 0
AreClean pairs = All (λ (p : Bytes × Bytes). (no_lf p.0 ≡ true) × (no_lf p.1 ≡ true)) pairs

abbrev pub line_of : Bytes → Bytes → Bytes
line_of name value = name ++ (codes ": " ++ value)

pub line-shape :
    (name value r rest : Bytes)
    → (name ++ (codes ": " ++ (value ++ (crlf ++ r)))) ++ rest
      ≡ line_of name value ++ (crlf ++ (r ++ rest))
line-shape name value r rest =
    append_assoc name (codes ": " ++ (value ++ (crlf ++ r))) rest
    ∙ ap (λ t. name ++ (codes ": " ++ t)) (append_assoc value (crlf ++ r) rest)
    ∙ sym (append_assoc name (codes ": " ++ value) (crlf ++ (r ++ rest)))

abbrev pub written : List (Bytes × Bytes) → ℕ
written [] = 0
written ((name, value) ∷ pairs) =
    let rest = written pairs in if is_reserved name then rest else 1 + rest

head_end-at :
    (p q m k : ℕ) (rest : Bytes)
    → p ≡ q
    → m ≡ k
    → head_end_from [] p m rest ≡ head_end_from [] q k rest
head_end-at p q m k rest h e = rw (h, e) refl

-- The headers are lines that hold something.
head_end-headers :
    (pairs : List (Bytes × Bytes)) (pos n : ℕ) (rest : Bytes)
    → AreClean pairs
    → head_end_from [] pos n (header_lines pairs ++ rest)
      ≡ head_end_from [] (pos + length (header_lines pairs)) (n + written pairs) rest
unfolding header_lines
head_end-headers [] pos n rest h = rw (add_zero pos, add_zero n) refl
  where
    add_zero : (a : ℕ) → a + 0 ≡ a
    add_zero a = omega arith
head_end-headers ((name, value) ∷ pairs) pos n rest ((a, b), h) =
    elim (Bool-cases (is_reserved name)) [
      | inl skip ↦ rw skip (head_end-headers pairs pos n rest h)
      | inr keep ↦
          let r = header_lines pairs in
          let line = line_of name value in
          let size : length line ≡ length name + (2 + length value) =
            omega (arith, length-append name (codes ": " ++ value)) in
          let clean : no_lf line ≡ true =
            no_lf-append name (codes ": " ++ value) a (ground (arith, b)) in
          let first = head_end-line line pos n (r ++ rest) clean (omega (arith, size)) in
          let later = head_end-headers pairs (pos + length line + 2) (n + 1) rest h in
          let whole : length (name ++ (codes ": " ++ (value ++ (crlf ++ r))))
              ≡ length line + 2 + length r =
            omega (
              arith,
              size,
              length-append name (codes ": " ++ (value ++ (crlf ++ r))),
              length-append value (crlf ++ r),
            ) in
          rw keep (
            ap (head_end_from [] pos n) (line-shape name value r rest)
            ∙ first
            ∙ later
            ∙ head_end-at _ _ _ _ rest (omega (arith, whole)) (omega arith))
    ]

header_value-no_lf : (connection : Connection) → no_lf (header_value connection) ≡ true
header_value-no_lf close = refl
header_value-no_lf keep_alive = refl

-- The last two headers and the empty line end the head.
head_end-fixed :
    (size : Bytes) (connection : Connection) (pos n : ℕ) (body : Bytes)
    → no_lf size ≡ true
    → head_end_from [] pos n (fixed_lines size connection ++ body)
      ≡ some (pos + length (fixed_lines size connection), n + 1 + 1)
head_end-fixed size connection pos n body h =
    let v = header_value connection in
    let announce = codes "content-length: " ++ size in
    let fate = codes "connection: " ++ v in
    let end_ = crlf ++ (crlf ++ body) in
    let shape : fixed_lines size connection ++ body ≡ announce ++ (crlf ++ (fate ++ end_)) =
      ap (λ t. codes "content-length: " ++ t)
        (append_assoc size (crlf ++ (codes "connection: " ++ (v ++ (crlf ++ crlf)))) body
          ∙ ap (λ t. size ++ (crlf ++ (codes "connection: " ++ t)))
              (append_assoc v (crlf ++ crlf) body)) in
    let a = head_end-line announce pos n (fate ++ end_) (ground (arith, h)) (omega arith) in
    let b =
      head_end-line fate (pos + length announce + 2) (n + 1) (crlf ++ body)
        (ground (arith, header_value-no_lf connection)) (omega arith) in
    let c = head_end-stop (pos + length announce + 2 + length fate + 2) (n + 1 + 1) body in
    let whole : length (fixed_lines size connection) ≡ length announce + 2 + (length fate + 4) =
      omega (
        arith,
        length-append size (crlf ++ (codes "connection: " ++ (v ++ (crlf ++ crlf)))),
        length-append v (crlf ++ crlf),
      ) in
    let at : pos + length announce + 2 + length fate + 2 + 2
        ≡ pos + length (fixed_lines size connection) =
      omega (arith, whole) in
    ap (head_end_from [] pos n) shape ∙ a ∙ b ∙ c ∙ ap (λ p. some (p, n + 1 + 1)) at

abbrev pub status_line : Bytes → Bytes → Bytes
status_line status text = codes "HTTP/1.1 " ++ (status ++ 32 ∷ text)

abbrev pub whole_head : Bytes → Bytes → Bytes → Bytes
whole_head status text fields = codes "HTTP/1.1 " ++ (status ++ (32 ∷ (text ++ (crlf ++ fields))))

head-shape :
    (status text fields body : Bytes)
    → whole_head status text fields ++ body ≡ status_line status text ++ (crlf ++ (fields ++ body))
head-shape status text fields body =
    ap (λ t. codes "HTTP/1.1 " ++ t)
      (append_assoc status (32 ∷ (text ++ (crlf ++ fields))) body
        ∙ ap (λ t. status ++ (32 ∷ t)) (append_assoc text (crlf ++ fields) body)
        ∙ sym (append_assoc status (32 ∷ text) (crlf ++ (fields ++ body))))

length-whole_head :
    (status text fields : Bytes)
    → length (whole_head status text fields) ≡ length (status_line status text) + 2 + length fields
length-whole_head status text fields = omega (
  arith,
  length-append status (32 ∷ (text ++ (crlf ++ fields))),
  length-append text (crlf ++ fields),
  length-append status (32 ∷ text),
)

-- The whole head, behind which the body stands.
pub head_end-whole :
    (status text size body : Bytes) (pairs : List (Bytes × Bytes)) (connection : Connection)
    → no_lf status ≡ true
    → no_lf text ≡ true
    → no_lf size ≡ true
    → AreClean pairs
    → let head = whole_head status text (header_lines pairs ++ fixed_lines size connection) in
      find_head_end (head ++ body) ≡ some (length head, 1 + written pairs + 1 + 1)
unfolding find_head_end
head_end-whole status text size body pairs connection a b c h =
    let fixed = fixed_lines size connection in
    let fields = header_lines pairs ++ fixed in
    let line = status_line status text in
    let clean : no_lf line ≡ true = no_lf-append status (32 ∷ text) a (ground (arith, b)) in
    let first = head_end-line line 0 0 (fields ++ body) clean (omega arith) in
    let middle = head_end-headers pairs (length line + 2) 1 (fixed ++ body) h in
    let last =
      head_end-fixed size connection (length line + 2 + length (header_lines pairs))
        (1 + written pairs) body c in
    let total : length line + 2 + length (header_lines pairs) + length fixed
        ≡ length (whole_head status text fields) =
      omega
        (arith, length-whole_head status text fields, length-append (header_lines pairs) fixed) in
    ap (head_end_from [] 0 0) (head-shape status text fields body)
    ∙ first
    ∙ head_end-at (0 + length line + 2) (length line + 2) (0 + 1) 1 (fields ++ body) (omega arith)
        (omega arith)
    ∙ ap (head_end_from [] (length line + 2) 1) (append_assoc (header_lines pairs) fixed body)
    ∙ middle
    ∙ last
    ∙ ap (λ p. some (p, 1 + written pairs + 1 + 1)) total

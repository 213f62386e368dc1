-- ===== src/Leaf/Lexer.antt =====
-- The tokens of crates/kernleaf/src/expr.rs. An index into the text is the part of it that is left. Reading a
-- number from its digits is the language's, and a parameter.
pub mod Load
pub mod Total
use kernway.Prelude.{
  ℕ, zero, suc, ◌+◌, ◌-◌, Bool, true, false, not, ◌&&◌, ◌||◌, Option, none, some, List, [], ◌∷◌,
  leb, ◌==◌, if◌then◌else◌, Bytes, codes, split_once, same, list_eq, nat_eq,
}
use kernway.Leaf.Expr.{Tok, Parsed, parsed, failed, exhausted, ◌>>=◌}

is_digit : ℕ → Bool
is_digit c = leb b'0' c && leb c b'9'

is_alpha : ℕ → Bool
is_alpha c = (leb b'a' c && leb c b'z') || (leb b'A' c && leb c b'Z')

-- `is_ascii_whitespace`
is_white : ℕ → Bool
is_white c = c == 32 || (c == 9 || (c == 10 || (c == 12 || c == 13)))

is_ident_start : ℕ → Bool
unfolding is_alpha
is_ident_start c = is_alpha c || c == b'_'

is_ident_part : ℕ → Bool
unfolding is_alpha is_digit
is_ident_part c = is_alpha c || (is_digit c || (c == b'_' || c == b'.'))

abbrev cons_first : ℕ → Bytes × Bytes → Bytes × Bytes
cons_first c (text, rest) = (c ∷ text, rest)

abbrev cons_found : ℕ → Option (Bytes × Bytes) → Option (Bytes × Bytes)
cons_found c none = none
cons_found c (some (text, rest)) = some (c ∷ text, rest)

-- The bytes of an identifier, and what follows.
pub ident_text : Bytes → Bytes × Bytes
unfolding is_ident_part
ident_text [] = ([], [])
ident_text (c ∷ s) =
    let rest = ident_text s in if is_ident_part c then cons_first c rest else ([], c ∷ s)

abbrev starts_digit : Bytes → Bool
starts_digit [] = false
starts_digit (c ∷ s) = is_digit c

-- Digits with at most one dot among them, which a digit follows.
pub number_text : Bool → Bytes → Bytes × Bytes
unfolding is_digit
number_text seen [] = ([], [])
number_text seen (c ∷ s) =
    let dot = c == b'.' && (not seen && starts_digit s) in
    let rest = number_text (seen || dot) s in
    if is_digit c || dot then cons_first c rest else ([], c ∷ s)

-- The depth counts the braces that are open, the first one included.
pub scan_braced : ℕ → Bytes → Option (Bytes × Bytes)
scan_braced depth [] = none
scan_braced depth (c ∷ s) =
    let rest =
      scan_braced (if c == b'{' then depth + 1 else if c == b'}' then depth - 1 else depth) s in
    if c == b'}' && depth == 1 then some ([], s) else cons_found c rest

module _ {Num : Type 0} (parse_num : Bytes → Option Num) where
  keyword : Bytes → Tok Num
  keyword w =
      if same w (codes "and")
      then Tok.and
      else if same w (codes "or")
      then Tok.or
      else if same w (codes "not")
      then Tok.not
      else if same w (codes "gt")
      then Tok.gt
      else if same w (codes "lt")
      then Tok.lt
      else if same w (codes "ge")
      then Tok.ge
      else if same w (codes "le")
      then Tok.le
      else if same w (codes "eq")
      then Tok.eq_eq
      else if same w (codes "ne")
      then Tok.ne
      else if same w (codes "true")
      then Tok.true_tok
      else if same w (codes "false")
      then Tok.false_tok
      else if same w (codes "null")
      then Tok.null_tok
      else Tok.ident w

  abbrev found : (Bytes → Tok Num) → Option (Bytes × Bytes) → Parsed (Tok Num × Bytes)
  found tok none = failed
  found tok (some (text, rest)) = parsed (tok text, rest)

  -- A token of one byte, or of two if `second` follows.
  abbrev one_or_two : ℕ → Tok Num → Parsed (Tok Num × Bytes) → Bytes → Parsed (Tok Num × Bytes)
  one_or_two second long short [] = short
  one_or_two second long short (c ∷ s) = if c == second then parsed (long, s) else short

  abbrev numbered : Bytes × Bytes → Parsed (Tok Num × Bytes)
  numbered (text, rest) = elim (parse_num text) [
    | none ↦ failed
    | some n ↦ parsed (Tok.num n, rest)
  ]

  abbrev worded : Bytes × Bytes → Parsed (Tok Num × Bytes)
  worded (text, rest) = parsed (keyword text, rest)

  abbrev hashed : Bytes × Bytes → Parsed (Tok Num × Bytes)
  hashed (text, rest) = parsed (Tok.ident (b'#' ∷ text), rest)

  -- What `{` opens behind `@` or `#`.
  abbrev braced : (Bytes → Tok Num) → Parsed (Tok Num × Bytes) → Bytes → Parsed (Tok Num × Bytes)
  braced tok other [] = other
  braced tok other (c ∷ s) = if c == b'{' then found tok (scan_braced 1 s) else other

  -- Digits, words, and what no token starts with.
  long_token : ℕ → Bytes → Parsed (Tok Num × Bytes)
  unfolding keyword number_text ident_text
  long_token c s =
      if is_digit c
      then numbered (number_text false (c ∷ s))
      else if is_ident_start c
      then worded (ident_text (c ∷ s))
      else failed

  operator : ℕ → Bytes → Parsed (Tok Num × Bytes)
  unfolding long_token
  operator c s =
      if c == b'+'
      then parsed (Tok.plus, s)
      else if c == b'-'
      then parsed (Tok.minus, s)
      else if c == b'*'
      then parsed (Tok.star, s)
      else if c == b'/'
      then parsed (Tok.slash, s)
      else if c == b'%'
      then parsed (Tok.percent, s)
      else if c == b'>'
      then one_or_two b'=' Tok.ge (parsed (Tok.gt, s)) s
      else if c == b'<'
      then one_or_two b'=' Tok.le (parsed (Tok.lt, s)) s
      else if c == b'='
      then one_or_two b'=' Tok.eq_eq failed s
      else if c == b'!'
      then one_or_two b'=' Tok.ne (parsed (Tok.not, s)) s
      else if c == b'?'
      then one_or_two b':' Tok.elvis (parsed (Tok.question, s)) s
      else if c == b':'
      then parsed (Tok.colon, s)
      else long_token c s

  -- The token that starts with the byte, and what follows it.
  pub token : ℕ → Bytes → Parsed (Tok Num × Bytes)
  unfolding operator scan_braced
  token c s =
      if c == 39
      then found Tok.str (split_once 39 s)
      else if c == b'|'
      then found Tok.template_raw (split_once b'|' s)
      else if c == b'@'
      then braced Tok.url_raw (long_token c s) s
      else if c == b'#'
      then braced Tok.msg_raw (hashed (ident_text s)) s
      else if c == b','
      then parsed (Tok.comma, s)
      else if c == b'$'
      then one_or_two b'{' Tok.dollar_open (long_token c s) s
      else if c == b'*'
      then one_or_two b'{' Tok.star_open (operator c s) s
      else if c == b'}'
      then parsed (Tok.rbrace, s)
      else if c == b'('
      then parsed (Tok.lparen, s)
      else if c == b')'
      then parsed (Tok.rparen, s)
      else operator c s

  -- Each round takes a byte at least, so that the bytes are fuel enough.
  pub tokenize : ℕ → Bytes → Parsed (List (Tok Num))
  unfolding token is_white
  tokenize fuel [] = parsed []
  tokenize zero (c ∷ s) = exhausted
  tokenize (suc fuel) (c ∷ s) = elim (is_white c) [
    | true ↦ tokenize fuel s
    | false ↦ do (t, rest) ← token c s; ts ← tokenize fuel rest; parsed (t ∷ ts)
  ]

-- ===== src/Leaf/Lexer/Total.antt =====
-- The tokens of a text in crates/kernleaf/src/expr.rs hold no more than the text.
use kernway.Prelude.{
  ℕ, zero, suc, ◌+◌, ◌-◌, ◌≤◌, ◌≡◌, refl, Bool, true, false, not, ◌&&◌, ◌||◌, Option, none, some,
  List, [], ◌∷◌, arith, Bool-cases, Option-cases, inl, inr, ◌==◌, if◌then◌else◌, Bytes, split_once,
  length, length-split_once, list_eq, nat_eq,
}
use kernway.Leaf.Expr.{Tok, Parsed, parsed, failed, exhausted, ◌>>=◌}
use kernway.Leaf.Lexer.{
  is_digit, is_white, is_ident_start, is_ident_part, cons_found, starts_digit, ident_text,
  number_text, scan_braced, keyword, found, one_or_two, numbered, worded, hashed, braced,
  long_token, operator, token, tokenize,
}
use kernway.Leaf.Lexer.Load.{weight, load, weight_pos}

-- A text and what is left, out of some bytes.
abbrev Parts : ℕ → Bytes × Bytes → Type 0
Parts n (text, rest) = length text + length rest ≤ n

ident_text-Parts : (s : Bytes) → Parts (length s) (ident_text s)
unfolding ident_text
ident_text-Parts [] = omega arith
ident_text-Parts (c ∷ s) = elim (Bool-cases (is_ident_part c)) [
  | inl e ↦ rw e (omega (arith, ident_text-Parts s))
  | inr e ↦ rw e (omega arith)
]

ident_text-Parts_rest : (s : Bytes) → length (ident_text s).1 ≤ length s
ident_text-Parts_rest s = omega (arith, ident_text-Parts s)

number_text-Parts : (seen : Bool) (s : Bytes) → Parts (length s) (number_text seen s)
unfolding number_text
number_text-Parts seen [] = omega arith
number_text-Parts seen (c ∷ s) =
    let dot = c == b'.' && (not seen && starts_digit s) in
    elim (Bool-cases (is_digit c || dot)) [
      | inl e ↦ rw e (omega (arith, number_text-Parts (seen || dot) s))
      | inr e ↦ rw e (omega arith)
    ]

abbrev PartsOrNone : ℕ → Option (Bytes × Bytes) → Type 0
PartsOrNone n none = Unit
PartsOrNone n (some (text, rest)) = suc (length text + length rest) ≤ n

PartsOrNone-weaken : (n : ℕ) (o : Option (Bytes × Bytes)) → PartsOrNone n o → PartsOrNone (suc n) o
PartsOrNone-weaken n none h = tt
PartsOrNone-weaken n (some (text, rest)) h = omega (arith, h)

cons_found-Parts :
    (n c : ℕ) (o : Option (Bytes × Bytes)) → PartsOrNone n o → PartsOrNone (suc n) (cons_found c o)
cons_found-Parts n c none h = tt
cons_found-Parts n c (some (text, rest)) h = omega (arith, h)

scan_braced-Parts : (depth : ℕ) (s : Bytes) → PartsOrNone (length s) (scan_braced depth s)
unfolding scan_braced
scan_braced-Parts depth [] = tt
scan_braced-Parts depth (c ∷ s) =
    let depth2 = if c == b'{' then depth + 1 else if c == b'}' then depth - 1 else depth in
    elim (Bool-cases (c == b'}' && depth == 1)) [
      | inl e ↦ rw e (omega arith)
      | inr e ↦
          rw e (cons_found-Parts (length s) c (scan_braced depth2 s) (scan_braced-Parts depth2 s))
    ]

split_once-Parts : (c : ℕ) (s : Bytes) → PartsOrNone (length s) (split_once c s)
split_once-Parts c s = elim (Option-cases (split_once c s)) [
  | inl e ↦ rw e tt
  | inr ((a, b), e) ↦ rw e (omega (arith, length-split_once c s a b e))
]

number_text-first :
    (c : ℕ) (s : Bytes) → is_digit c ≡ true → length (number_text false (c ∷ s)).1 ≤ length s
unfolding number_text
number_text-first c s h =
    let dot = c == b'.' && (not false && starts_digit s) in
    rw (number_text, h) (omega (arith, number_text-Parts (false || dot) s))

ident_text-first :
    (c : ℕ) (s : Bytes) → is_ident_start c ≡ true → length (ident_text (c ∷ s)).1 ≤ length s
unfolding ident_text is_ident_start is_ident_part
ident_text-first c s h =
    let part : is_ident_part c ≡ true = ground (arith, h) in
    rw (ident_text, part) (omega (arith, ident_text-Parts s))

module _ {Num : Type 0} where
  -- A failure, or a token and a rest that hold no more than some bytes.
  data Fits (n : ℕ) : Parsed (Tok Num × Bytes) → Type 0 where
    fits : {t : Tok Num} {rest : Bytes} → weight t + length rest ≤ n → Fits n (parsed (t, rest))
    fails : Fits n failed

  weight-if :
      (b : Bool) (t u : Tok Num) → weight t ≡ 1 → weight u ≡ 1 → weight (if b then t else u) ≡ 1
  weight-if true t u h k = h
  weight-if false t u h k = k

  Fits-if :
      {b : Bool} {n : ℕ} {r q : Parsed (Tok Num × Bytes)}
      → (b ≡ true → Fits n r)
      → Fits n q
      → Fits n (if b then r else q)
  Fits-if {b = true} h k = h refl
  Fits-if {b = false} h k = k

  Fits-else :
      {n : ℕ} {r q : Parsed (Tok Num × Bytes)} (b : Bool)
      → Fits n r
      → Fits n q
      → Fits n (if b then r else q)
  Fits-else true h k = h
  Fits-else false h k = k

  Fits-weaken : {n m : ℕ} {r : Parsed (Tok Num × Bytes)} → n ≤ m → Fits n r → Fits m r
  Fits-weaken le (fits h) = fits (omega (arith, le, h))
  Fits-weaken le fails = fails

module _ {Num : Type 0} (parse_num : Bytes → Option Num) where
  weight-keyword : (w : Bytes) → weight (keyword parse_num w) ≡ 1
  unfolding keyword weight
  weight-keyword w = ground arith

  Fits-one_or_two :
      {n : ℕ} {short : Parsed (Tok Num × Bytes)} (second : ℕ) (long : Tok Num) (s : Bytes)
      → weight long ≡ 1
      → length s ≤ n
      → Fits (suc n) short
      → Fits (suc n) (one_or_two parse_num second long short s)
  Fits-one_or_two second long [] one le h = h
  Fits-one_or_two second long (c ∷ s) one le h =
      Fits-else _ (fits {t = long} {rest = s} (omega (arith, one, le))) h

  Fits-found :
      {n : ℕ} (tok : Bytes → Tok Num) (o : Option (Bytes × Bytes))
      → ((text : Bytes) → weight (tok text) ≤ suc (length text))
      → PartsOrNone n o
      → Fits n (found parse_num tok o)
  Fits-found tok none light h = fails
  Fits-found tok (some (text, rest)) light h = fits (omega (arith, light text, h))

  Fits-braced :
      {n : ℕ} {other : Parsed (Tok Num × Bytes)} (tok : Bytes → Tok Num) (s : Bytes)
      → ((text : Bytes) → weight (tok text) ≤ suc (length text))
      → length s ≤ n
      → Fits (suc n) other
      → Fits (suc n) (braced parse_num tok other s)
  Fits-braced tok [] light le h = h
  Fits-braced tok (c ∷ s) light le h =
      Fits-else _
        (Fits-weaken {n = length s} (omega (arith, le))
          (Fits-found tok (scan_braced 1 s) light (scan_braced-Parts 1 s)))
        h

  Fits-numbered : {n : ℕ} (p : Bytes × Bytes) → length p.1 ≤ n → Fits (suc n) (numbered parse_num p)
  unfolding weight
  Fits-numbered (text, rest) h = elim (Option-cases (parse_num text)) [
    | inl e ↦ rw (numbered, e) fails
    | inr (v, e) ↦ rw (numbered, e) (fits (omega (arith, h)))
  ]

  Fits-worded : {n : ℕ} (p : Bytes × Bytes) → length p.1 ≤ n → Fits (suc n) (worded parse_num p)
  Fits-worded (text, rest) h = fits (omega (arith, weight-keyword text, h))

  Fits-hashed : {n : ℕ} (p : Bytes × Bytes) → length p.1 ≤ n → Fits (suc n) (hashed parse_num p)
  unfolding weight
  Fits-hashed (text, rest) h = fits (omega (arith, h))

  Fits-long_token : (c : ℕ) (s : Bytes) → Fits (suc (length s)) (long_token parse_num c s)
  unfolding long_token
  Fits-long_token c s =
      Fits-if (λ e. Fits-numbered (number_text false (c ∷ s)) (number_text-first c s e))
        (Fits-if (λ e. Fits-worded (ident_text (c ∷ s)) (ident_text-first c s e)) fails)

  Fits-operator : (c : ℕ) (s : Bytes) → Fits (suc (length s)) (operator parse_num c s)
  unfolding operator weight
  Fits-operator c s = Fits-else _ (fits {t = Tok.plus} {rest = s} (omega arith)) (
      Fits-else _ (fits {t = Tok.minus} {rest = s} (omega arith)) (
        Fits-else _ (fits {t = Tok.star} {rest = s} (omega arith)) (
          Fits-else _ (fits {t = Tok.slash} {rest = s} (omega arith)) (
            Fits-else _ (fits {t = Tok.percent} {rest = s} (omega arith)) (
              Fits-else _
                (Fits-one_or_two b'=' Tok.ge s refl (omega arith)
                  (fits {t = Tok.gt} {rest = s} (omega arith)))
                (Fits-else _
                  (Fits-one_or_two b'=' Tok.le s refl (omega arith)
                    (fits {t = Tok.lt} {rest = s} (omega arith)))
                  (Fits-else _ (Fits-one_or_two b'=' Tok.eq_eq s refl (omega arith) fails) (
                    Fits-else _
                      (Fits-one_or_two b'=' Tok.ne s refl (omega arith)
                        (fits {t = Tok.not} {rest = s} (omega arith)))
                      (Fits-else _
                        (Fits-one_or_two b':' Tok.elvis s refl (omega arith)
                          (fits {t = Tok.question} {rest = s} (omega arith)))
                        (Fits-else _ (fits {t = Tok.colon} {rest = s} (omega arith))
                          (Fits-long_token c s)))))))))))

  Fits-token : (c : ℕ) (s : Bytes) → Fits (suc (length s)) (token parse_num c s)
  unfolding token weight
  Fits-token c s =
      Fits-else _
        (Fits-found Tok.str (split_once 39 s) (λ text. omega arith)
          (PartsOrNone-weaken (length s) (split_once 39 s) (split_once-Parts 39 s)))
        (Fits-else _
          (Fits-found Tok.template_raw (split_once b'|' s) (λ text. omega arith)
            (PartsOrNone-weaken (length s) (split_once b'|' s) (split_once-Parts b'|' s)))
          (Fits-else _
            (Fits-braced Tok.url_raw s (λ text. omega arith) (omega arith) (Fits-long_token c s))
            (Fits-else _
              (Fits-braced Tok.msg_raw s (λ text. omega arith) (omega arith)
                (Fits-hashed (ident_text s) (ident_text-Parts_rest s)))
              (Fits-else _ (fits {t = Tok.comma} {rest = s} (omega arith)) (
                Fits-else _
                  (Fits-one_or_two b'{' Tok.dollar_open s refl (omega arith) (Fits-long_token c s))
                  (Fits-else _
                    (Fits-one_or_two b'{' Tok.star_open s refl (omega arith) (Fits-operator c s))
                    (Fits-else _ (fits {t = Tok.rbrace} {rest = s} (omega arith)) (
                      Fits-else _ (fits {t = Tok.lparen} {rest = s} (omega arith)) (
                        Fits-else _ (fits {t = Tok.rparen} {rest = s} (omega arith))
                          (Fits-operator c s))))))))))

  -- The tokens hold no more than some bytes.
  abbrev pub Loaded : ℕ → Parsed (List (Tok Num)) → Type 0
  Loaded n (parsed toks) = load toks ≤ n
  Loaded n failed = Unit
  Loaded n exhausted = ⊥

  Loaded-cons :
      (t : Tok Num) (n m : ℕ) (r : Parsed (List (Tok Num)))
      → weight t + m ≤ n
      → Loaded m r
      → Loaded n (r >>= λ ts. parsed (t ∷ ts))
  unfolding load
  Loaded-cons t n m (parsed ts) h k = omega (arith, h, k)
  Loaded-cons t n m failed h k = tt
  Loaded-cons t n m exhausted h k = k

  Loaded-weaken : (n : ℕ) (r : Parsed (List (Tok Num))) → Loaded n r → Loaded (suc n) r
  Loaded-weaken n (parsed ts) h = omega (arith, h)
  Loaded-weaken n failed h = tt
  Loaded-weaken n exhausted h = h

  Loaded-token :
      (n : ℕ) (lex : Bytes → Parsed (List (Tok Num))) (r : Parsed (Tok Num × Bytes))
      → Fits (suc n) r
      → ((rest : Bytes) → length rest ≤ n → Loaded (length rest) (lex rest))
      → Loaded (suc n) (r >>= λ (t, rest). (lex rest >>= λ ts. parsed (t ∷ ts)))
  Loaded-token n lex (parsed (t, rest)) (fits k) h =
      Loaded-cons t (suc n) (length rest) (lex rest) k (h rest (omega (arith, k, weight_pos t)))
  Loaded-token n lex failed fails h = tt
  Loaded-token n lex exhausted fit h = elim fit [ ]

  -- Fuel for each byte is enough, and the tokens hold no more than the bytes.
  pub tokenize-Loaded :
      (fuel : ℕ) (s : Bytes) → length s ≤ fuel → Loaded (length s) (tokenize parse_num fuel s)
  unfolding tokenize load
  tokenize-Loaded zero [] h = omega arith
  tokenize-Loaded (suc fuel) [] h = omega arith
  tokenize-Loaded zero (c ∷ s) h = absurd (omega (arith, h))
  tokenize-Loaded (suc fuel) (c ∷ s) h = elim (Bool-cases (is_white c)) [
    | inl e ↦
        rw (tokenize, e)
          (Loaded-weaken (length s) (tokenize parse_num fuel s)
            (tokenize-Loaded fuel s (omega (arith, h))))
    | inr e ↦
        rw (tokenize, e)
          (Loaded-token (length s) (tokenize parse_num fuel) (token parse_num c s) (Fits-token c s)
            (λ rest le. tokenize-Loaded fuel rest (omega (arith, h, le))))
  ]

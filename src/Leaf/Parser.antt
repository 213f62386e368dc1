-- ===== src/Leaf/Parser.antt =====
-- The recursive descent of crates/kernleaf/src/expr.rs. A position in the tokens is the list of those left. The
-- methods `or` to `multiplicative` differ by their operators and by the method of their operands alone, and are
-- one function of the level. Every call takes one of fuel.
pub mod Pieces
pub mod Steps
pub mod Total
use kernway.Prelude.{
  ℕ, zero, suc, ◌+◌, Bool, true, false, not, ◌&&◌, ◌||◌, Option, none, some, List, [], ◌∷◌, any,
  ◌==◌, if◌then◌else◌, length, Bytes, split, split_once, trim, is_empty, push_head, map,
}
use kernway.Leaf.Expr.{
  UnOp, BinOp, Expr, Exprs, no_exprs, more, Params, no_params, param, Tok, Parsed, parsed, failed,
  exhausted, ◌>>=◌,
}
use kernway.Leaf.Lexer.{tokenize}

pub data Level : Type 0 where
  or_level : Level
  and_level : Level
  equality : Level
  comparison : Level
  additive : Level
  multiplicative : Level

module _ {Num : Type 0} where
  -- The operator that a level's loop goes on at.
  unfoldable pub op_at : Level → Tok Num → Option BinOp
  op_at or_level Tok.or = some BinOp.or
  op_at and_level Tok.and = some BinOp.and
  op_at equality Tok.eq_eq = some BinOp.eq
  op_at equality Tok.ne = some BinOp.ne
  op_at comparison Tok.gt = some BinOp.gt
  op_at comparison Tok.lt = some BinOp.lt
  op_at comparison Tok.ge = some BinOp.ge
  op_at comparison Tok.le = some BinOp.le
  op_at additive Tok.plus = some BinOp.add
  op_at additive Tok.minus = some BinOp.sub
  op_at multiplicative Tok.star = some BinOp.mul
  op_at multiplicative Tok.slash = some BinOp.div
  op_at multiplicative Tok.percent = some BinOp.rem
  op_at _ _ = none

unfoldable pub split_path : Bytes → Parsed (List Bytes)
split_path s =
    let path = map trim (split b'.' s) in if any is_empty path then failed else parsed path

-- The last dot's two sides: `rsplit_once('.')`.
unfoldable pub rsplit_dot : Bytes → Option (Bytes × Bytes)
rsplit_dot [] = none
rsplit_dot (c ∷ s) = elim (rsplit_dot s) [
  | some (object, method) ↦ some (c ∷ object, method)
  | none ↦ if c == b'.' then some ([], s) else none
]

abbrev ends_paren : Bytes → Bool
ends_paren [] = false
ends_paren (c ∷ []) = c == b')'
ends_paren (c ∷ d ∷ s) = ends_paren (d ∷ s)

abbrev but_last : Bytes → Bytes
but_last [] = []
but_last (c ∷ []) = []
but_last (c ∷ d ∷ s) = c ∷ but_last (d ∷ s)

-- The head of a `@{…}` or `#{…}` and the source of its parameters.
unfoldable pub head_and_params : Bytes → Bytes × Bytes
head_and_params raw = elim (split_once b'(' raw) [
  | none ↦ (raw, [])
  | some (base, rest) ↦ if ends_paren raw then (base, but_last rest) else (raw, [])
]

-- The `i32` of the depth as what has been opened and what has been closed.
unfoldable pub comma_pieces : ℕ → ℕ → Bool → Bytes → List Bytes
comma_pieces opened closed in_str [] = [] ∷ []
comma_pieces opened closed in_str (c ∷ s) =
    let up = (c == b'{' || c == b'(') && not in_str in
    let down = (c == b'}' || c == b')') && not in_str in
    let rest =
      comma_pieces (if up then opened + 1 else opened) (if down then closed + 1 else closed)
        (if c == 39 then not in_str else in_str) s in
    if c == b',' && (not in_str && opened == closed) then [] ∷ rest else push_head c rest

unfoldable pub split_top_commas : Bytes → List Bytes
unfolding comma_pieces
split_top_commas [] = []
split_top_commas (c ∷ s) = comma_pieces 0 0 false (c ∷ s)

-- `find("${")`: what stands before it and after it.
unfoldable pub find_embed : Bytes → Option (Bytes × Bytes)
find_embed [] = none
find_embed (c ∷ []) = none
find_embed (c ∷ d ∷ s) = elim (c == b'$' && d == b'{') [
  | true ↦ some ([], s)
  | false ↦ elim (find_embed (d ∷ s)) [
    | none ↦ none
    | some (before, after) ↦ some (c ∷ before, after)
  ]
]

module _ {Num : Type 0} (parse_num : Bytes → Option Num) where
  abbrev Reads : Type 0
  Reads = List (Tok Num) → Parsed (Expr Num × List (Tok Num))

  -- Text between embeds, unless there is none.
  abbrev with_text : Bytes → Exprs Num → Exprs Num
  with_text [] parts = parts
  with_text (c ∷ s) parts = more (Expr.str (c ∷ s)) parts

  abbrev finished : Expr Num × List (Tok Num) → Parsed (Expr Num)
  finished (e, []) = parsed e
  finished (e, t ∷ ts) = failed

  -- `if !self.eat(..) { return Err(..) }` behind an inner expression.
  abbrev closed_by : Tok Num → Expr Num × List (Tok Num) → Parsed (Expr Num × List (Tok Num))
  closed_by Tok.rbrace (e, Tok.rbrace ∷ ts) = parsed (e, ts)
  closed_by Tok.rparen (e, Tok.rparen ∷ ts) = parsed (e, ts)
  closed_by _ _ = failed

  unfoldable mutual
    pub parse : ℕ → Bytes → Parsed (Expr Num)
    parse zero s = exhausted
    parse (suc f) s = do toks ← tokenize parse_num (length s) s; parse_all f toks

    pub parse_all : ℕ → List (Tok Num) → Parsed (Expr Num)
    parse_all zero toks = exhausted
    parse_all (suc f) [] = failed
    parse_all (suc f) (t ∷ ts) = ternary f (t ∷ ts) >>= finished

    pub ternary : ℕ → List (Tok Num) → Parsed (Expr Num × List (Tok Num))
    ternary zero toks = exhausted
    ternary (suc f) toks = do (cond, rest) ← binary f or_level toks; ternary_rest f cond rest

    pub ternary_rest : ℕ → Expr Num → List (Tok Num) → Parsed (Expr Num × List (Tok Num))
    ternary_rest zero cond toks = exhausted
    ternary_rest (suc f) cond (Tok.elvis ∷ ts) = do
      (alt, rest) ← ternary f ts
      parsed (Expr.elvis cond alt, rest)
    ternary_rest (suc f) cond (Tok.question ∷ ts) = do
      (taken, rest) ← ternary f ts
      ternary_else f cond taken rest
    ternary_rest (suc f) cond toks = parsed (cond, toks)

    pub ternary_else : ℕ → Expr Num → Expr Num → List (Tok Num) → Parsed (Expr Num × List (Tok Num))
    ternary_else zero cond taken toks = exhausted
    ternary_else (suc f) cond taken (Tok.colon ∷ ts) = do
      (els, rest) ← ternary f ts
      parsed (Expr.ternary cond taken els, rest)
    ternary_else (suc f) cond taken toks = failed

    pub binary : ℕ → Level → List (Tok Num) → Parsed (Expr Num × List (Tok Num))
    binary zero level toks = exhausted
    binary (suc f) level toks = do (e, rest) ← operand f level toks; chain f level e rest

    pub chain : ℕ → Level → Expr Num → List (Tok Num) → Parsed (Expr Num × List (Tok Num))
    chain zero level e toks = exhausted
    chain (suc f) level e [] = parsed (e, [])
    chain (suc f) level e (t ∷ ts) = elim (op_at level t) [
      | none ↦ parsed (e, t ∷ ts)
      | some op ↦ do (r, rest) ← operand f level ts; chain f level (Expr.binary op e r) rest
    ]

    pub operand : ℕ → Level → List (Tok Num) → Parsed (Expr Num × List (Tok Num))
    operand zero level toks = exhausted
    operand (suc f) or_level toks = binary f and_level toks
    operand (suc f) and_level toks = binary f equality toks
    operand (suc f) equality toks = binary f comparison toks
    operand (suc f) comparison toks = binary f additive toks
    operand (suc f) additive toks = binary f multiplicative toks
    operand (suc f) multiplicative toks = unary f toks

    pub unary : ℕ → List (Tok Num) → Parsed (Expr Num × List (Tok Num))
    unary zero toks = exhausted
    unary (suc f) (Tok.minus ∷ ts) = do (e, rest) ← unary f ts; parsed (Expr.unary UnOp.neg e, rest)
    unary (suc f) (Tok.not ∷ ts) = do (e, rest) ← unary f ts; parsed (Expr.unary UnOp.not e, rest)
    unary (suc f) toks = primary f toks

    pub primary : ℕ → List (Tok Num) → Parsed (Expr Num × List (Tok Num))
    primary zero toks = exhausted
    primary (suc f) (Tok.num n ∷ ts) = parsed (Expr.num n, ts)
    primary (suc f) (Tok.str s ∷ ts) = parsed (Expr.str s, ts)
    primary (suc f) (Tok.true_tok ∷ ts) = parsed (Expr.bool true, ts)
    primary (suc f) (Tok.false_tok ∷ ts) = parsed (Expr.bool false, ts)
    primary (suc f) (Tok.null_tok ∷ ts) = parsed (Expr.null, ts)
    primary (suc f) (Tok.ident path ∷ ts) = named f path ts
    primary (suc f) (Tok.template_raw raw ∷ ts) = do
      parts ← parse_template f raw
      parsed (Expr.template parts, ts)
    primary (suc f) (Tok.url_raw raw ∷ ts) = do
      let (base, source) = head_and_params (trim raw)
      params ← parse_params f (split_top_commas source)
      parsed (Expr.url (trim base) params, ts)
    primary (suc f) (Tok.msg_raw raw ∷ ts) = do
      let (key, source) = head_and_params (trim raw)
      elim (trim key) [
        | [] ↦ failed
        | c ∷ s ↦ do
          args ← parse_args f (split_top_commas source)
          parsed (Expr.msg (c ∷ s) args, ts)
      ]
    primary (suc f) (Tok.dollar_open ∷ ts) = ternary f ts >>= closed_by Tok.rbrace
    primary (suc f) (Tok.star_open ∷ ts) = ternary f ts >>= closed_by Tok.rbrace
    primary (suc f) (Tok.lparen ∷ ts) = ternary f ts >>= closed_by Tok.rparen
    primary (suc f) toks = failed

    -- The arm of `primary` for an identifier.
    pub named : ℕ → Bytes → List (Tok Num) → Parsed (Expr Num × List (Tok Num))
    named zero path toks = exhausted
    named (suc f) [] toks = do path ← split_path []; parsed (Expr.var path, toks)
    named (suc f) (c ∷ s) toks = elim (c == b'#') [
      | true ↦ elim (rsplit_dot s) [
        | none ↦ failed
        | some (object, method) ↦ do
          (args, rest) ← arguments f toks
          parsed (Expr.util object method args, rest)
      ]
      | false ↦ do path ← split_path (c ∷ s); parsed (Expr.var path, toks)
    ]

    -- The `(` of a call, and `arg_list`.
    pub arguments : ℕ → List (Tok Num) → Parsed (Exprs Num × List (Tok Num))
    arguments zero toks = exhausted
    arguments (suc f) (Tok.lparen ∷ Tok.rparen ∷ ts) = parsed (no_exprs, ts)
    arguments (suc f) (Tok.lparen ∷ ts) = arg_list f ts
    arguments (suc f) toks = failed

    -- The loop of `arg_list`.
    pub arg_list : ℕ → List (Tok Num) → Parsed (Exprs Num × List (Tok Num))
    arg_list zero toks = exhausted
    arg_list (suc f) toks = do (e, rest) ← ternary f toks; arg_rest f e rest

    pub arg_rest : ℕ → Expr Num → List (Tok Num) → Parsed (Exprs Num × List (Tok Num))
    arg_rest zero e toks = exhausted
    arg_rest (suc f) e (Tok.rparen ∷ ts) = parsed (more e no_exprs, ts)
    arg_rest (suc f) e (Tok.comma ∷ ts) = do
      (args, rest) ← arg_list f ts
      parsed (more e args, rest)
    arg_rest (suc f) e toks = failed

    pub parse_template : ℕ → Bytes → Parsed (Exprs Num)
    parse_template zero raw = exhausted
    parse_template (suc f) raw = elim (find_embed raw) [
      | none ↦ parsed (with_text raw no_exprs)
      | some (before, after) ↦ elim (split_once b'}' after) [
        | none ↦ failed
        | some (source, rest) ↦ do
          e ← parse f source
          parts ← parse_template f rest
          parsed (with_text before (more e parts))
      ]
    ]

    -- The loop of `parse_url` over the parameters.
    pub parse_params : ℕ → List Bytes → Parsed (Params Num)
    parse_params zero parts = exhausted
    parse_params (suc f) [] = parsed no_params
    parse_params (suc f) (part ∷ parts) = elim (is_empty (trim part)) [
      | true ↦ parse_params f parts
      | false ↦ elim (split_once b'=' (trim part)) [
        | none ↦ failed
        | some (name, value) ↦ do
          e ← parse f (trim value)
          rest ← parse_params f parts
          parsed (param (trim name) e rest)
      ]
    ]

    -- The loop of `parse_msg` over the arguments.
    pub parse_args : ℕ → List Bytes → Parsed (Exprs Num)
    parse_args zero parts = exhausted
    parse_args (suc f) [] = parsed no_exprs
    parse_args (suc f) (part ∷ parts) = elim (is_empty (trim part)) [
      | true ↦ parse_args f parts
      | false ↦ do e ← parse f (trim part); rest ← parse_args f parts; parsed (more e rest)
    ]

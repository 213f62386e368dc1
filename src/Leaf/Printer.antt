-- ===== src/Leaf/Printer.antt =====
-- Expressions written as the tokens of crates/kernleaf/src/expr.rs, with parentheses only where the precedence of
-- the operators asks for them. Calls, embeds, addresses and messages are left out.
pub mod Steps
pub mod Levels
pub mod Operators
pub mod RoundTrip
use kernway.Prelude.{
  ℕ, zero, suc, ◌+◌, ◌≡◌, refl, Bool, true, false, Option, none, some, List, [], ◌∷◌, ◌++◌, ltb,
  ◌==◌, if◌then◌else◌, Bytes,
}
use kernway.Leaf.Expr.{UnOp, BinOp, Expr, Exprs, Params, Tok, Parsed, parsed}
use kernway.Leaf.Parser.{
  Level, or_level, and_level, equality, comparison, additive, multiplicative, op_at, split_path,
}

-- The depth of a level: 0 is that of `ternary`, 7 that of `unary` and 8 that of `primary`.
abbrev pub depth : Level → ℕ
depth or_level = 1
depth and_level = 2
depth equality = 3
depth comparison = 4
depth additive = 5
depth multiplicative = 6

abbrev pub level_of : BinOp → Level
level_of BinOp.or = or_level
level_of BinOp.and = and_level
level_of BinOp.eq = equality
level_of BinOp.ne = equality
level_of BinOp.gt = comparison
level_of BinOp.lt = comparison
level_of BinOp.ge = comparison
level_of BinOp.le = comparison
level_of BinOp.add = additive
level_of BinOp.sub = additive
level_of BinOp.mul = multiplicative
level_of BinOp.div = multiplicative
level_of BinOp.rem = multiplicative

abbrev dotted : List Bytes → Bytes
dotted [] = []
dotted (s ∷ []) = s
dotted (s ∷ t ∷ path) = s ++ (b'.' ∷ dotted (t ∷ path))

abbrev pub starts_hash : Bytes → Bool
starts_hash [] = false
starts_hash (c ∷ s) = c == b'#'

module _ {Num : Type 0} where
  abbrev pub binary_tok : BinOp → Tok Num
  binary_tok BinOp.or = Tok.or
  binary_tok BinOp.and = Tok.and
  binary_tok BinOp.eq = Tok.eq_eq
  binary_tok BinOp.ne = Tok.ne
  binary_tok BinOp.gt = Tok.gt
  binary_tok BinOp.lt = Tok.lt
  binary_tok BinOp.ge = Tok.ge
  binary_tok BinOp.le = Tok.le
  binary_tok BinOp.add = Tok.plus
  binary_tok BinOp.sub = Tok.minus
  binary_tok BinOp.mul = Tok.star
  binary_tok BinOp.div = Tok.slash
  binary_tok BinOp.rem = Tok.percent

  abbrev pub unary_tok : UnOp → Tok Num
  unary_tok UnOp.neg = Tok.minus
  unary_tok UnOp.not = Tok.not

  abbrev pub wrapped : List (Tok Num) → List (Tok Num)
  wrapped toks = Tok.lparen ∷ (toks ++ Tok.rparen ∷ [])

  abbrev pub wrap_if : Bool → List (Tok Num) → List (Tok Num)
  wrap_if paren toks = if paren then wrapped toks else toks

  -- In parentheses, if the depth is beyond that of the expression's own operator.
  unfoldable pub print : ℕ → Expr Num → List (Tok Num)
  print k (Expr.var path) = Tok.ident (dotted path) ∷ []
  print k (Expr.str s) = Tok.str s ∷ []
  print k (Expr.num n) = Tok.num n ∷ []
  print k (Expr.bool true) = Tok.true_tok ∷ []
  print k (Expr.bool false) = Tok.false_tok ∷ []
  print k Expr.null = Tok.null_tok ∷ []
  print k (Expr.template parts) = []
  print k (Expr.url base ps) = []
  print k (Expr.msg key args) = []
  print k (Expr.util object method args) = []
  print k (Expr.unary op e) = wrap_if (ltb 7 k) (unary_tok op ∷ print 7 e)
  print k (Expr.binary op l r) =
      wrap_if (ltb (depth (level_of op)) k)
        (print (depth (level_of op)) l ++ binary_tok op ∷ print (depth (level_of op) + 1) r)
  print k (Expr.ternary c a b) =
      wrap_if (ltb 0 k) (print 1 c ++ Tok.question ∷ (print 0 a ++ Tok.colon ∷ print 0 b))
  print k (Expr.elvis a b) = wrap_if (ltb 0 k) (print 1 a ++ Tok.elvis ∷ print 0 b)

  -- Expressions of literals, paths that are read back, and operators.
  abbrev pub IsPlain : Expr Num → Type 0
  IsPlain (Expr.var path) =
      (split_path (dotted path) ≡ parsed path) × (starts_hash (dotted path) ≡ false)
  IsPlain (Expr.str s) = Unit
  IsPlain (Expr.num n) = Unit
  IsPlain (Expr.bool b) = Unit
  IsPlain Expr.null = Unit
  IsPlain (Expr.template parts) = ⊥
  IsPlain (Expr.url base ps) = ⊥
  IsPlain (Expr.msg key args) = ⊥
  IsPlain (Expr.util object method args) = ⊥
  IsPlain (Expr.unary op e) = IsPlain e
  IsPlain (Expr.binary op l r) = IsPlain l × IsPlain r
  IsPlain (Expr.ternary c a b) = IsPlain c × IsPlain a × IsPlain b
  IsPlain (Expr.elvis a b) = IsPlain a × IsPlain b

  abbrev pub size : Expr Num → ℕ
  size (Expr.unary op e) = suc (size e)
  size (Expr.binary op l r) = suc (size l + size r)
  size (Expr.ternary c a b) = suc (size c + size a + size b)
  size (Expr.elvis a b) = suc (size a + size b)
  size _ = 1

pub op_at-binary_tok :
    (Num : Type 0) (op : BinOp) (level : Level)
    → op_at level (binary_tok {Num = Num} op)
      ≡ (if depth level == depth (level_of op) then some op else none)
unfolding op_at
op_at-binary_tok Num BinOp.or or_level = refl
op_at-binary_tok Num BinOp.and or_level = refl
op_at-binary_tok Num BinOp.eq or_level = refl
op_at-binary_tok Num BinOp.ne or_level = refl
op_at-binary_tok Num BinOp.gt or_level = refl
op_at-binary_tok Num BinOp.lt or_level = refl
op_at-binary_tok Num BinOp.ge or_level = refl
op_at-binary_tok Num BinOp.le or_level = refl
op_at-binary_tok Num BinOp.add or_level = refl
op_at-binary_tok Num BinOp.sub or_level = refl
op_at-binary_tok Num BinOp.mul or_level = refl
op_at-binary_tok Num BinOp.div or_level = refl
op_at-binary_tok Num BinOp.rem or_level = refl
op_at-binary_tok _ _ _ = refl

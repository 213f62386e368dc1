-- ===== src/Leaf/Expr.antt =====
-- The syntax of crates/kernleaf/src/expr.rs. The `f64` of the language is a parameter. The texts of the errors are
-- left out.
use kernway.Prelude.{Bool, List, Bytes}

pub data UnOp : Type 0 where
  neg : UnOp
  not : UnOp

pub data BinOp : Type 0 where
  or : BinOp
  and : BinOp
  eq : BinOp
  ne : BinOp
  gt : BinOp
  lt : BinOp
  ge : BinOp
  le : BinOp
  add : BinOp
  sub : BinOp
  mul : BinOp
  div : BinOp
  rem : BinOp

mutual
  pub data Expr (Num : Type 0) : Type 0 where
    var : List Bytes → Expr Num
    str : Bytes → Expr Num
    num : Num → Expr Num
    bool : Bool → Expr Num
    null : Expr Num
    template : Exprs Num → Expr Num
    url : Bytes → Params Num → Expr Num
    msg : Bytes → Exprs Num → Expr Num
    util : Bytes → Bytes → Exprs Num → Expr Num
    unary : UnOp → Expr Num → Expr Num
    binary : BinOp → Expr Num → Expr Num → Expr Num
    ternary : Expr Num → Expr Num → Expr Num → Expr Num
    elvis : Expr Num → Expr Num → Expr Num

  pub data Exprs (Num : Type 0) : Type 0 where
    no_exprs : Exprs Num
    more : Expr Num → Exprs Num → Exprs Num

  pub data Params (Num : Type 0) : Type 0 where
    no_params : Params Num
    param : Bytes → Expr Num → Params Num → Params Num

pub data Tok (Num : Type 0) : Type 0 where
  num : Num → Tok Num
  str : Bytes → Tok Num
  ident : Bytes → Tok Num
  template_raw : Bytes → Tok Num
  url_raw : Bytes → Tok Num
  msg_raw : Bytes → Tok Num
  true_tok : Tok Num
  false_tok : Tok Num
  null_tok : Tok Num
  dollar_open : Tok Num
  star_open : Tok Num
  rbrace : Tok Num
  lparen : Tok Num
  rparen : Tok Num
  plus : Tok Num
  minus : Tok Num
  star : Tok Num
  slash : Tok Num
  percent : Tok Num
  gt : Tok Num
  lt : Tok Num
  ge : Tok Num
  le : Tok Num
  eq_eq : Tok Num
  ne : Tok Num
  and : Tok Num
  or : Tok Num
  not : Tok Num
  question : Tok Num
  colon : Tok Num
  elvis : Tok Num
  comma : Tok Num

-- A result, an error, or no fuel left.
pub data Parsed {ℓ} (A : Type ℓ) : Type ℓ where
  parsed : A → Parsed A
  failed : Parsed A
  exhausted : Parsed A

infixl 5 ◌>>=◌
abbrev pub ◌>>=◌ {ℓ κ} : {A : Type ℓ} {B : Type κ} → Parsed A → (A → Parsed B) → Parsed B
parsed a >>= f = f a
failed >>= f = failed
exhausted >>= f = exhausted

-- ===== src/Leaf/Tests.antt =====
-- Expressions of crates/kernleaf/src/expr.rs with natural numbers, and the theorem on one of them.
use kernway.Prelude.{ℕ, ◌≡◌, ◌≢◌, codes, refl, [], ◌∷◌, arith, parse_u64}
use kernway.Leaf.Parser.Total.{parse-terminates}
use kernway.Leaf.Expr.{exhausted, UnOp, BinOp, Expr, Tok, parsed}
use kernway.Leaf.Parser.{parse, parse_all}
use kernway.Leaf.Printer.{print}
use kernway.Leaf.Printer.RoundTrip.{parse_all-print}

abbrev n : ℕ → Expr ℕ
n k = Expr.num k

-- 9 - (3 - 1) * -2
abbrev nested : Expr ℕ
nested =
    Expr.binary BinOp.sub (n 9)
      (Expr.binary BinOp.mul (Expr.binary BinOp.sub (n 3) (n 1)) (Expr.unary UnOp.neg (n 2)))

parenthesised :
    print 0 nested
    ≡ Tok.num 9
      ∷ Tok.minus
      ∷ Tok.lparen
      ∷ Tok.num 3
      ∷ Tok.minus
      ∷ Tok.num 1
      ∷ Tok.rparen
      ∷ Tok.star
      ∷ Tok.minus
      ∷ Tok.num 2
      ∷ []
unfolding print
parenthesised = refl

parse_all-print_example : parse_all parse_u64 600 (print 0 nested) ≡ parsed nested
parse_all-print_example = parse_all-print parse_u64 nested 600 (tt, ((tt, tt), tt)) (omega arith)

parse-terminates_example : parse parse_u64 400 (codes "|a ${b}| + 1") ≢ exhausted
parse-terminates_example = parse-terminates parse_u64 (codes "|a ${b}| + 1") 400 (omega arith)

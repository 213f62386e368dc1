-- ===== src/Leaf/Printer/RoundTrip.antt =====
-- The parser of crates/kernleaf/src/expr.rs reads back what is written with the parentheses that the precedence
-- and the associativity of its operators ask for.
use kernway.Prelude.{
  ℕ, zero, suc, ◌+◌, ◌*◌, ◌≤◌, ◌<◌, ◌≡◌, ◌≢◌, refl, Bool, true, false, Option, none, List, [], ◌∷◌,
  ◌++◌, append_assoc, append-nil, arith, ltb, Bytes,
}
use kernway.Leaf.Expr.{Expr, Tok, parsed}
use kernway.Leaf.Parser.{
  Level, or_level, op_at, parse_all, ternary, ternary_rest, ternary_else, binary, chain, primary,
  named, split_path,
}
use kernway.Leaf.Printer.{
  depth, level_of, dotted, starts_hash, binary_tok, wrap_if, print, IsPlain, size,
}
use kernway.Leaf.Printer.Steps.{starts_plain, At0, At8}
use kernway.Leaf.Printer.Levels.{everywhere}
use kernway.Leaf.Printer.Operators.{Prints, Prints-weaken, Prints-from, Prints-binary, Prints-unary}

module _ {Num : Type 0} (parse_num : Bytes → Option Num) where
  -- A condition stops in front of a question mark, or of an elvis.
  condition :
      (c : Expr Num) (b : ℕ) (t : Tok Num) (rest : List (Tok Num)) (f : ℕ)
      → ((l : Level) → op_at l t ≡ none)
      → Prints parse_num b c
      → b + 1 ≤ f
      → binary parse_num f or_level (print 1 c ++ t ∷ rest) ≡ parsed (c, t ∷ rest)
  unfolding chain
  condition c b t rest f no_op p h =
      p.level or_level (t ∷ rest) 1 (c, t ∷ rest) f (λ deeper below. no_op deeper) stop
        (omega (arith, h))
    where
      stop : (g : ℕ) → 1 ≤ g → chain parse_num g or_level c (t ∷ rest) ≡ parsed (c, t ∷ rest)
      stop zero k = absurd (omega (arith, k))
      stop (suc g) k = rw (chain, no_op or_level) refl

  abbrev question_tok : Tok Num
  question_tok = Tok.question

  abbrev elvis_tok : Tok Num
  elvis_tok = Tok.elvis

  question-op_at : (l : Level) → op_at l question_tok ≡ none
  unfolding op_at
  question-op_at or_level = refl
  question-op_at _ = refl

  elvis-op_at : (l : Level) → op_at l elvis_tok ≡ none
  unfolding op_at
  elvis-op_at or_level = refl
  elvis-op_at _ = refl

  elvis-own :
      (x y : Expr Num) (b c : ℕ)
      → Prints parse_num b x
      → Prints parse_num c y
      → At0 parse_num (b + c + 3) (print 1 x ++ Tok.elvis ∷ print 0 y) (Expr.elvis x y)
  unfolding ternary ternary_rest
  elvis-own x y b c p q rest zero h k = absurd (omega (arith, k))
  elvis-own x y b c p q rest (suc zero) h k = absurd (omega (arith, k))
  elvis-own x y b c p q rest (suc (suc f)) h k =
      rw
        (
          append_assoc (print 1 x) (Tok.elvis ∷ print 0 y) rest,
          condition x b Tok.elvis (print 0 y ++ rest) (suc f) elvis-op_at p (omega (arith, k)),
          q.at0 rest f h (omega (arith, k)),
        )
        refl

  ternary-own :
      (x y z : Expr Num) (b c d : ℕ)
      → Prints parse_num b x
      → Prints parse_num c y
      → Prints parse_num d z
      → At0 parse_num
          (b + c + d + 4)
          (print 1 x ++ Tok.question ∷ (print 0 y ++ Tok.colon ∷ print 0 z))
          (Expr.ternary x y z)
  unfolding ternary ternary_rest ternary_else
  ternary-own x y z b c d p q r rest zero h k = absurd (omega (arith, k))
  ternary-own x y z b c d p q r rest (suc zero) h k = absurd (omega (arith, k))
  ternary-own x y z b c d p q r rest (suc (suc zero)) h k = absurd (omega (arith, k))
  ternary-own x y z b c d p q r rest (suc (suc (suc f))) h k =
      rw
        (
          append_assoc (print 1 x) (Tok.question ∷ (print 0 y ++ Tok.colon ∷ print 0 z)) rest,
          append_assoc (print 0 y) (Tok.colon ∷ print 0 z) rest,
          condition x b Tok.question (print 0 y ++ (Tok.colon ∷ (print 0 z ++ rest))) (suc (suc f))
              question-op_at p (omega (arith, k)),
          q.at0 (Tok.colon ∷ (print 0 z ++ rest)) (suc f) refl (omega (arith, k)),
          r.at0 rest f h (omega (arith, k)),
        )
        refl

  Prints-ternary :
      (e : Expr Num) (toks : List (Tok Num)) (b : ℕ)
      → ((k : ℕ) → print k e ≡ wrap_if (ltb 0 k) toks)
      → At0 parse_num b toks e
      → Prints parse_num (b + 31) e
  Prints-ternary e toks b written a =
      Prints-from parse_num e toks 0 b written (omega arith) a (λ l h. absurd (ground (arith, h)))
        λ h. absurd (omega (arith, h))

  -- A single token that `primary` reads.
  Prints-leaf :
      (e : Expr Num) (t : Tok Num)
      → ((k : ℕ) → print k e ≡ t ∷ [])
      → starts_plain (t ∷ []) ≡ true
      → At8 parse_num 2 (t ∷ []) e
      → Prints parse_num 32 e
  Prints-leaf e t written plain a =
      let all = everywhere parse_num (t ∷ []) e 2 plain a in
      record {
        at0 = rw (written 0) all.at0;
        level = λ l. rw (written (depth l)) (all.level l);
        at7 = rw (written 7) all.at7;
        at8 = rw (written 8) all.at8;
      }

  named-var :
      (s : Bytes) (path : List Bytes) (f : ℕ) (toks : List (Tok Num))
      → split_path s ≡ parsed path
      → starts_hash s ≡ false
      → named parse_num (suc f) s toks ≡ parsed (Expr.var path, toks)
  unfolding named
  named-var [] path f toks e h = rw (named, e) refl
  named-var (c ∷ s) path f toks e h = rw (named, h, e) refl

  var-At8 :
      (path : List Bytes)
      → split_path (dotted path) ≡ parsed path
      → starts_hash (dotted path) ≡ false
      → At8 parse_num 2 (Tok.ident (dotted path) ∷ []) (Expr.var path)
  unfolding primary
  var-At8 path e h rest zero k = absurd (omega (arith, k))
  var-At8 path e h rest (suc zero) k = absurd (omega (arith, k))
  var-At8 path e h rest (suc (suc f)) k = named-var (dotted path) path f rest e h

  literal :
      (e : Expr Num) (t : Tok Num)
      → ((rest : List (Tok Num)) (f : ℕ) → primary parse_num (suc f) (t ∷ rest) ≡ parsed (e, rest))
      → At8 parse_num 2 (t ∷ []) e
  literal e t step rest zero h = absurd (omega (arith, h))
  literal e t step rest (suc f) h = step rest f

  Prints-size : (e : Expr Num) → IsPlain e → Prints parse_num (60 * size e) e
  unfolding print primary
  Prints-size (Expr.var path) (e, h) =
      Prints-weaken parse_num 32 60 (Expr.var path) (omega arith)
        (Prints-leaf (Expr.var path) (Tok.ident (dotted path)) (λ k. refl) refl (var-At8 path e h))
  Prints-size (Expr.str s) h = Prints-weaken parse_num 32 60 (Expr.str s) (omega arith) (
      Prints-leaf (Expr.str s) (Tok.str s) (λ k. refl) refl
        (literal (Expr.str s) (Tok.str s) (λ rest f. refl)))
  Prints-size (Expr.num n) h = Prints-weaken parse_num 32 60 (Expr.num n) (omega arith) (
      Prints-leaf (Expr.num n) (Tok.num n) (λ k. refl) refl
        (literal (Expr.num n) (Tok.num n) (λ rest f. refl)))
  Prints-size (Expr.bool true) h = Prints-weaken parse_num 32 60 (Expr.bool true) (omega arith) (
      Prints-leaf (Expr.bool true) Tok.true_tok (λ k. refl) refl
        (literal (Expr.bool true) Tok.true_tok (λ rest f. refl)))
  Prints-size (Expr.bool false) h = Prints-weaken parse_num 32 60 (Expr.bool false) (omega arith) (
      Prints-leaf (Expr.bool false) Tok.false_tok (λ k. refl) refl
        (literal (Expr.bool false) Tok.false_tok (λ rest f. refl)))
  Prints-size Expr.null h = Prints-weaken parse_num 32 60 Expr.null (omega arith) (
      Prints-leaf Expr.null Tok.null_tok (λ k. refl) refl
        (literal Expr.null Tok.null_tok (λ rest f. refl)))
  Prints-size (Expr.template parts) h = absurd h
  Prints-size (Expr.url base ps) h = absurd h
  Prints-size (Expr.msg key args) h = absurd h
  Prints-size (Expr.util object method args) h = absurd h
  Prints-size (Expr.unary op x) h =
      Prints-weaken parse_num (60 * size x + 55) (60 * suc (size x)) (Expr.unary op x) (omega arith)
        (Prints-unary parse_num op x (60 * size x) (Prints-size x h))
  Prints-size (Expr.binary op l r) (h, k) =
      Prints-weaken parse_num (60 * size l + 60 * size r + 55) (60 * suc (size l + size r))
        (Expr.binary op l r) (omega arith)
        (Prints-binary parse_num op l r (60 * size l) (60 * size r) (Prints-size l h)
          (Prints-size r k))
  Prints-size (Expr.ternary x y z) (h, k, m) =
      Prints-weaken parse_num (60 * size x + 60 * size y + 60 * size z + 4 + 31)
        (60 * suc (size x + size y + size z)) (Expr.ternary x y z) (omega arith)
        (Prints-ternary (Expr.ternary x y z)
          (print 1 x ++ Tok.question ∷ (print 0 y ++ Tok.colon ∷ print 0 z))
          (60 * size x + 60 * size y + 60 * size z + 4) (λ k. refl)
          (ternary-own x y z (60 * size x) (60 * size y) (60 * size z) (Prints-size x h)
            (Prints-size y k) (Prints-size z m)))
  Prints-size (Expr.elvis x y) (h, k) =
      Prints-weaken parse_num (60 * size x + 60 * size y + 3 + 31) (60 * suc (size x + size y))
        (Expr.elvis x y) (omega arith)
        (Prints-ternary (Expr.elvis x y) (print 1 x ++ Tok.elvis ∷ print 0 y)
          (60 * size x + 60 * size y + 3) (λ k. refl)
          (elvis-own x y (60 * size x) (60 * size y) (Prints-size x h) (Prints-size y k)))

  append-ne : (xs ys : List (Tok Num)) (t : Tok Num) → xs ++ t ∷ ys ≢ []
  append-ne [] ys t bad = ground (arith, bad)
  append-ne (x ∷ xs) ys t bad = ground (arith, bad)

  wrap-ne : (paren : Bool) (toks : List (Tok Num)) → toks ≢ [] → wrap_if paren toks ≢ []
  wrap-ne true toks h bad = ground (arith, bad)
  wrap-ne false toks h bad = h bad

  print-ne : (e : Expr Num) → IsPlain e → print 0 e ≢ []
  unfolding print
  print-ne (Expr.var path) h bad = ground (arith, bad)
  print-ne (Expr.str s) h bad = ground (arith, bad)
  print-ne (Expr.num n) h bad = ground (arith, bad)
  print-ne (Expr.bool true) h bad = ground (arith, bad)
  print-ne (Expr.bool false) h bad = ground (arith, bad)
  print-ne Expr.null h bad = ground (arith, bad)
  print-ne (Expr.template parts) h bad = h
  print-ne (Expr.url base ps) h bad = h
  print-ne (Expr.msg key args) h bad = h
  print-ne (Expr.util object method args) h bad = h
  print-ne (Expr.unary op x) h bad = ground (arith, bad)
  print-ne (Expr.binary op l r) h bad =
      wrap-ne (ltb (depth (level_of op)) 0)
        (print (depth (level_of op)) l ++ binary_tok op ∷ print (depth (level_of op) + 1) r)
        (append-ne (print (depth (level_of op)) l) (print (depth (level_of op) + 1) r)
          (binary_tok op))
        bad
  print-ne (Expr.ternary x y z) h bad =
      append-ne (print 1 x) (print 0 y ++ Tok.colon ∷ print 0 z) Tok.question bad
  print-ne (Expr.elvis x y) h bad = append-ne (print 1 x) (print 0 y) Tok.elvis bad

  parse_all-of_ternary :
      (toks : List (Tok Num)) (e : Expr Num) (f : ℕ)
      → toks ≢ []
      → ternary parse_num f toks ≡ parsed (e, [])
      → parse_all parse_num (suc f) toks ≡ parsed e
  unfolding parse_all
  parse_all-of_ternary [] e f some_toks h = absurd (some_toks refl)
  parse_all-of_ternary (t ∷ ts) e f some_toks h = rw h refl

  -- The tokens of an expression of literals, paths and operators, with parentheses only where the
  -- precedence and the associativity ask for them, are parsed to that expression, given fuel of 60
  -- for each of its nodes and one more.
  pub parse_all-print :
      (e : Expr Num) (f : ℕ)
      → IsPlain e
      → 60 * size e < f
      → parse_all parse_num f (print 0 e) ≡ parsed e
  parse_all-print e zero plain h = absurd (omega (arith, h))
  parse_all-print e (suc f) plain h =
      parse_all-of_ternary (print 0 e) e f (print-ne e plain)
        (rw append-nil at ((Prints-size e plain).at0 [] f refl (omega (arith, h))))

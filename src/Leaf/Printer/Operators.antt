-- ===== src/Leaf/Printer/Operators.antt =====
-- The unary and the binary operators of crates/kernleaf/src/expr.rs, read where they were written.
use kernway.Prelude.{
  ℕ, zero, suc, ◌+◌, ◌≤◌, ◌<◌, ◌≡◌, refl, true, false, Option, some, List, ◌∷◌, ◌++◌, append_assoc,
  arith, ltb, Bytes, Bool-cases, inl, inr, ltb→le,
}
use kernway.Leaf.Expr.{UnOp, BinOp, Expr, Tok, parsed}
use kernway.Leaf.Parser.{
  Level, or_level, and_level, equality, comparison, additive, multiplicative, op_at, chain, operand,
  unary,
}
use kernway.Leaf.Printer.{
  depth, level_of, binary_tok, unary_tok, wrapped, wrap_if, print, op_at-binary_tok,
}
use kernway.Leaf.Printer.Steps.{
  IsLow, At0, AtLevel, AtOperand, At7, At8, AtOperand-of_At7, AtLevel-of_AtOperand, operand-next,
  At0-of_AtLevel, At8-wrapped,
}
use kernway.Leaf.Printer.Levels.{Everywhere, AtLevel-weaken, levels_from, everywhere}

module _ {Num : Type 0} (parse_num : Bytes → Option Num) where
  -- The expression is read from what is written for a depth, at that depth.
  pub record Prints (b : ℕ) (e : Expr Num) : Type 0 where
    pub at0 : At0 parse_num b (print 0 e) e
    pub level : (l : Level) → AtLevel parse_num l b (print (depth l) e) e
    pub at7 : At7 parse_num b (print 7 e) e
    pub at8 : At8 parse_num b (print 8 e) e

  pub Prints-weaken : (b c : ℕ) (e : Expr Num) → b ≤ c → Prints b e → Prints c e
  Prints-weaken b c e h p = record {
    at0 = λ rest f k m. p.at0 rest f k (omega (arith, h, m));
    level = λ l. AtLevel-weaken parse_num (print (depth l) e) e l b c h (p.level l);
    at7 = λ rest f m. p.at7 rest f (omega (arith, h, m));
    at8 = λ rest f m. p.at8 rest f (omega (arith, h, m));
  }

  -- The right operand of a level's operator is written for the next depth.
  right_operand :
      (l : Level) (b : ℕ) (e : Expr Num)
      → Prints b e
      → AtOperand parse_num l (b + 2) (print (depth l + 1) e) e
  unfolding operand
  right_operand or_level b e p =
      operand-next parse_num (print 2 e) e or_level and_level b (omega arith) (λ g ts. refl)
        (p.level and_level)
  right_operand and_level b e p =
      operand-next parse_num (print 3 e) e and_level equality b (omega arith) (λ g ts. refl)
        (p.level equality)
  right_operand equality b e p =
      operand-next parse_num (print 4 e) e equality comparison b (omega arith) (λ g ts. refl)
        (p.level comparison)
  right_operand comparison b e p =
      operand-next parse_num (print 5 e) e comparison additive b (omega arith) (λ g ts. refl)
        (p.level additive)
  right_operand additive b e p =
      operand-next parse_num (print 6 e) e additive multiplicative b (omega arith) (λ g ts. refl)
        (p.level multiplicative)
  right_operand multiplicative b e p =
      λ rest f low h. AtOperand-of_At7 parse_num (print 7 e) e b p.at7 rest f low (omega (arith, h))

  binary_tok-IsLow :
      (op : BinOp) (rest : List (Tok Num)) → IsLow (level_of op) (binary_tok op ∷ rest)
  binary_tok-IsLow op rest = λ deeper below. ground (arith, op_at-binary_tok Num op deeper, below)

  own_level : (op : BinOp) → op_at (level_of op) (binary_tok {Num = Num} op) ≡ some op
  own_level op = ground (arith, op_at-binary_tok Num op (level_of op))

  -- The loop takes the operator and its right operand.
  chain-step :
      (op : BinOp) (l r : Expr Num) (b : ℕ) (toks rest : List (Tok Num)) (g : ℕ)
      → AtOperand parse_num (level_of op) b toks r
      → IsLow (level_of op) rest
      → b ≤ g
      → chain parse_num (suc g) (level_of op) l (binary_tok op ∷ (toks ++ rest))
        ≡ chain parse_num g (level_of op) (Expr.binary op l r) rest
  unfolding chain
  chain-step op l r b toks rest g a low h = rw (chain, own_level op, a rest g low h) refl

  binary-own :
      (op : BinOp) (l r : Expr Num) (b c : ℕ) (left right : List (Tok Num))
      → AtLevel parse_num (level_of op) b left l
      → AtOperand parse_num (level_of op) c right r
      → AtLevel parse_num
          (level_of op)
          (b + c + 1)
          (left ++ binary_tok op ∷ right)
          (Expr.binary op l r)
  binary-own op l r b c left right a o rest n x f low cont h =
      rw (append_assoc left (binary_tok op ∷ right) rest) (
        a (binary_tok op ∷ (right ++ rest)) (n + c + 1) x f (binary_tok-IsLow op (right ++ rest)) go
          (omega (arith, h)))
    where
      go :
          (g : ℕ)
          → n + c + 1 ≤ g
          → chain parse_num g (level_of op) l (binary_tok op ∷ (right ++ rest)) ≡ parsed x
      go zero k = absurd (omega (arith, k))
      go (suc g) k =
          rw (chain-step op l r c right rest g o low (omega (arith, k))) (cont g (omega (arith, k)))

  -- From what is read without parentheses, to what is read in them.
  pub Prints-from :
      (e : Expr Num) (toks : List (Tok Num)) (rank b : ℕ)
      → ((k : ℕ) → print k e ≡ wrap_if (ltb rank k) toks)
      → rank < 8
      → At0 parse_num b toks e
      → ((l : Level) → depth l ≤ rank → AtLevel parse_num l b toks e)
      → (7 ≤ rank → At7 parse_num b toks e)
      → Prints (b + 31) e
  Prints-from e toks rank b written small zeroth levels seventh = record {
    at0 = first;
    level = each;
    at7 = inner;
    at8 = innermost;
  }
    where
      inside : Everywhere parse_num (suc b + 30) (wrapped toks) e
      inside =
          everywhere parse_num (wrapped toks) e (suc b) refl (At8-wrapped parse_num toks e b zeroth)

      first : At0 parse_num (b + 31) (print 0 e) e
      first rest f h k =
          let open0 : ltb rank 0 ≡ false = ground arith in
          rw (written 0, open0) (zeroth rest f h (omega (arith, k)))

      each : (l : Level) → AtLevel parse_num l (b + 31) (print (depth l) e) e
      each l rest n x f low cont h = elim (Bool-cases (ltb rank (depth l))) [
        | inl deep ↦
            rw (written (depth l), deep) (inside.level l rest n x f low cont (omega (arith, h)))
        | inr shallow ↦
            rw (written (depth l), shallow)
              (levels l (ltb→le rank (depth l) shallow) rest n x f low cont (omega (arith, h)))
      ]

      inner : At7 parse_num (b + 31) (print 7 e) e
      inner rest f h = elim (Bool-cases (ltb rank 7)) [
        | inl deep ↦ rw (written 7, deep) (inside.at7 rest f (omega (arith, h)))
        | inr shallow ↦
            rw (written 7, shallow) (seventh (ltb→le rank 7 shallow) rest f (omega (arith, h)))
      ]

      innermost : At8 parse_num (b + 31) (print 8 e) e
      innermost rest f h =
          let deep : ltb rank 8 ≡ true = ground (arith, small) in
          rw (written 8, deep) (inside.at8 rest f (omega (arith, h)))

  level_bounds : (op : BinOp) → (1 ≤ depth (level_of op)) × (depth (level_of op) ≤ 6)
  level_bounds op = ground arith

  pub Prints-binary :
      (op : BinOp) (l r : Expr Num) (b c : ℕ)
      → Prints b l
      → Prints c r
      → Prints (b + c + 55) (Expr.binary op l r)
  unfolding print
  Prints-binary op l r b c p q = Prints-weaken (b + c + 23 + 31) (b + c + 55) e (omega arith) (
      Prints-from e toks (depth (level_of op)) (b + c + 23) (λ k. refl)
        (omega (arith, level_bounds op))
        (λ rest f h k.
          At0-of_AtLevel parse_num toks e (b + c + 21) (up or_level (level_bounds op).0) rest f h
            (omega (arith, k)))
        (λ l1 h.
          AtLevel-weaken parse_num toks e l1 (b + c + 21) (b + c + 23) (omega arith) (up l1 h))
        λ h. absurd (omega (arith, h, level_bounds op)))
    where
      e : Expr Num
      e = Expr.binary op l r

      toks : List (Tok Num)
      toks = print (depth (level_of op)) l ++ binary_tok op ∷ print (depth (level_of op) + 1) r

      own : AtLevel parse_num (level_of op) (b + (c + 2) + 1) toks e
      own =
          binary-own op l r b (c + 2) (print (depth (level_of op)) l)
            (print (depth (level_of op) + 1) r) (p.level (level_of op))
            (right_operand (level_of op) c r q)

      up : (l1 : Level) → depth l1 ≤ depth (level_of op) → AtLevel parse_num l1 (b + c + 21) toks e
      up l1 h =
          AtLevel-weaken parse_num toks e l1 (b + (c + 2) + 1 + 18) (b + c + 21) (omega arith)
            (levels_from parse_num toks e (level_of op) l1 (b + (c + 2) + 1) h own)

  unary-own :
      (op : UnOp) (x : Expr Num) (b : ℕ) (toks : List (Tok Num))
      → At7 parse_num b toks x
      → At7 parse_num (suc b) (unary_tok op ∷ toks) (Expr.unary op x)
  unfolding unary
  unary-own op x b toks a rest zero h = absurd (omega (arith, h))
  unary-own UnOp.neg x b toks a rest (suc f) h = rw (a rest f (omega (arith, h))) refl
  unary-own UnOp.not x b toks a rest (suc f) h = rw (a rest f (omega (arith, h))) refl

  level-shallow : (l : Level) → depth l ≤ 6
  level-shallow l = ground arith

  pub Prints-unary :
      (op : UnOp) (x : Expr Num) (b : ℕ) → Prints b x → Prints (b + 55) (Expr.unary op x)
  unfolding print
  Prints-unary op x b p = Prints-weaken (b + 23 + 31) (b + 55) e (omega arith) (
      Prints-from e toks 7 (b + 23) (λ k. refl) (omega arith)
        (λ rest f h k.
          At0-of_AtLevel parse_num toks e (b + 21) (up or_level) rest f h (omega (arith, k)))
        (λ l h. AtLevel-weaken parse_num toks e l (b + 21) (b + 23) (omega arith) (up l))
        λ h rest f k. own rest f (omega (arith, k)))
    where
      e : Expr Num
      e = Expr.unary op x

      toks : List (Tok Num)
      toks = unary_tok op ∷ print 7 x

      own : At7 parse_num (suc b) toks e
      own = unary-own op x b (print 7 x) p.at7

      up : (l : Level) → AtLevel parse_num l (b + 21) toks e
      up l = AtLevel-weaken parse_num toks e l (suc (suc (suc b)) + 18) (b + 21) (omega arith) (
          levels_from parse_num toks e multiplicative l (suc (suc (suc b))) (level-shallow l) (
            AtLevel-of_AtOperand parse_num toks e multiplicative (suc (suc b))
              (AtOperand-of_At7 parse_num toks e (suc b) own)))

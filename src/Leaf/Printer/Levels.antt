-- ===== src/Leaf/Printer/Levels.antt =====
-- From one depth of the parser in crates/kernleaf/src/expr.rs to the others, for tokens that are read at one.
use kernway.Prelude.{ℕ, suc, ◌+◌, ◌≤◌, ◌<◌, ◌≡◌, refl, true, Option, List, arith, Bytes}
use kernway.Leaf.Expr.{Expr, Tok}
use kernway.Leaf.Parser.{
  Level, or_level, and_level, equality, comparison, additive, multiplicative, binary, operand,
}
use kernway.Leaf.Printer.{depth}
use kernway.Leaf.Printer.Steps.{
  starts_plain, At0, AtLevel, At7, At8, At7-of_At8, AtOperand-of_At7, AtLevel-of_AtOperand,
  operand-next, At0-of_AtLevel,
}

module _ {Num : Type 0} (parse_num : Bytes → Option Num) where
  -- The tokens are read as the expression at every depth.
  pub record Everywhere (b : ℕ) (toks : List (Tok Num)) (e : Expr Num) : Type 0 where
    pub at0 : At0 parse_num b toks e
    pub level : (l : Level) → AtLevel parse_num l b toks e
    pub at7 : At7 parse_num b toks e
    pub at8 : At8 parse_num b toks e

  module _ (toks : List (Tok Num)) (e : Expr Num) where
    pub AtLevel-weaken :
        (l : Level) (b c : ℕ) → b ≤ c → AtLevel parse_num l b toks e → AtLevel parse_num l c toks e
    AtLevel-weaken l b c h a rest n x f low cont k = a rest n x f low cont (omega (arith, h, k))

    AtLevel-next :
        (l deeper : Level) (b : ℕ)
        → depth l < depth deeper
        → ((g : ℕ) (ts : List (Tok Num))
            → operand parse_num (suc g) l ts ≡ binary parse_num g deeper ts)
        → AtLevel parse_num deeper b toks e
        → AtLevel parse_num l (b + 3) toks e
    AtLevel-next l deeper b below next a = AtLevel-weaken l (suc (b + 2)) (b + 3) (omega arith) (
        AtLevel-of_AtOperand parse_num toks e l (b + 2)
          (operand-next parse_num toks e l deeper b below next a))

    -- What a level reads is read by each level above it.
    from_or_level :
        (l : Level) (b : ℕ)
        → depth l ≤ 1
        → AtLevel parse_num or_level b toks e
        → AtLevel parse_num l (b + 3) toks e
    from_or_level or_level b h a = AtLevel-weaken or_level b (b + 3) (omega arith) a
    from_or_level _ b h a = absurd (omega (arith, h))

    from_and_level :
        (l : Level) (b : ℕ)
        → depth l ≤ 2
        → AtLevel parse_num and_level b toks e
        → AtLevel parse_num l (b + 6) toks e
    unfolding operand
    from_and_level and_level b h a = AtLevel-weaken and_level b (b + 6) (omega arith) a
    from_and_level l b h a = AtLevel-weaken l (b + 3 + 3) (b + 6) (omega arith) (
        from_or_level l (b + 3) (omega (arith, h))
          (AtLevel-next or_level and_level b (omega arith) (λ g ts. refl) a))

    from_equality :
        (l : Level) (b : ℕ)
        → depth l ≤ 3
        → AtLevel parse_num equality b toks e
        → AtLevel parse_num l (b + 9) toks e
    unfolding operand
    from_equality equality b h a = AtLevel-weaken equality b (b + 9) (omega arith) a
    from_equality l b h a = AtLevel-weaken l (b + 3 + 6) (b + 9) (omega arith) (
        from_and_level l (b + 3) (omega (arith, h))
          (AtLevel-next and_level equality b (omega arith) (λ g ts. refl) a))

    from_comparison :
        (l : Level) (b : ℕ)
        → depth l ≤ 4
        → AtLevel parse_num comparison b toks e
        → AtLevel parse_num l (b + 12) toks e
    unfolding operand
    from_comparison comparison b h a = AtLevel-weaken comparison b (b + 12) (omega arith) a
    from_comparison l b h a = AtLevel-weaken l (b + 3 + 9) (b + 12) (omega arith) (
        from_equality l (b + 3) (omega (arith, h))
          (AtLevel-next equality comparison b (omega arith) (λ g ts. refl) a))

    from_additive :
        (l : Level) (b : ℕ)
        → depth l ≤ 5
        → AtLevel parse_num additive b toks e
        → AtLevel parse_num l (b + 15) toks e
    unfolding operand
    from_additive additive b h a = AtLevel-weaken additive b (b + 15) (omega arith) a
    from_additive l b h a = AtLevel-weaken l (b + 3 + 12) (b + 15) (omega arith) (
        from_comparison l (b + 3) (omega (arith, h))
          (AtLevel-next comparison additive b (omega arith) (λ g ts. refl) a))

    from_multiplicative :
        (l : Level) (b : ℕ)
        → depth l ≤ 6
        → AtLevel parse_num multiplicative b toks e
        → AtLevel parse_num l (b + 18) toks e
    unfolding operand
    from_multiplicative multiplicative b h a =
        AtLevel-weaken multiplicative b (b + 18) (omega arith) a
    from_multiplicative l b h a = AtLevel-weaken l (b + 3 + 15) (b + 18) (omega arith) (
        from_additive l (b + 3) (omega (arith, h))
          (AtLevel-next additive multiplicative b (omega arith) (λ g ts. refl) a))

    pub levels_from :
        (deeper l : Level) (b : ℕ)
        → depth l ≤ depth deeper
        → AtLevel parse_num deeper b toks e
        → AtLevel parse_num l (b + 18) toks e
    levels_from or_level l b h a =
        AtLevel-weaken l (b + 3) (b + 18) (omega arith) (from_or_level l b h a)
    levels_from and_level l b h a =
        AtLevel-weaken l (b + 6) (b + 18) (omega arith) (from_and_level l b h a)
    levels_from equality l b h a =
        AtLevel-weaken l (b + 9) (b + 18) (omega arith) (from_equality l b h a)
    levels_from comparison l b h a =
        AtLevel-weaken l (b + 12) (b + 18) (omega arith) (from_comparison l b h a)
    levels_from additive l b h a =
        AtLevel-weaken l (b + 15) (b + 18) (omega arith) (from_additive l b h a)
    levels_from multiplicative l b h a =
        AtLevel-weaken l (b + 18) (b + 18) (omega arith) (from_multiplicative l b h a)

    shallow : (l : Level) → depth l ≤ depth multiplicative
    shallow l = ground arith

    pub everywhere :
        (b : ℕ) → starts_plain toks ≡ true → At8 parse_num b toks e → Everywhere (b + 30) toks e
    everywhere b plain a = record {
      at0 = λ rest f h k.
          At0-of_AtLevel parse_num toks e (b + 25) (each or_level) rest f h (omega (arith, k));
      level = λ l. AtLevel-weaken l (b + 25) (b + 30) (omega arith) (each l);
      at7 = λ rest f h. inner rest f (omega (arith, h));
      at8 = λ rest f h. a rest f (omega (arith, h));
    }
      where
        inner : At7 parse_num (suc b) toks e
        inner = At7-of_At8 parse_num toks e b plain a

        each : (l : Level) → AtLevel parse_num l (b + 25) toks e
        each l = AtLevel-weaken l (b + 3 + 18) (b + 25) (omega arith) (
            levels_from multiplicative l (b + 3) (shallow l) (
              AtLevel-weaken multiplicative (suc (suc (suc b))) (b + 3) (omega arith) (
                AtLevel-of_AtOperand parse_num toks e multiplicative (suc (suc b))
                  (AtOperand-of_At7 parse_num toks e (suc b) inner))))

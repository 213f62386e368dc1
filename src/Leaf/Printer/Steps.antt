-- ===== src/Leaf/Printer/Steps.antt =====
-- What the methods of the parser in crates/kernleaf/src/expr.rs make of the tokens of an expression, from the
-- innermost to the outermost. The bounds are on the fuel.
use kernway.Prelude.{
  ℕ, zero, suc, ◌+◌, ◌≤◌, ◌<◌, ◌≡◌, refl, Bool, true, false, Option, none, List, [], ◌∷◌, ◌++◌,
  append_assoc, arith, Bytes,
}
use kernway.Leaf.Expr.{Expr, Tok, parsed}
use kernway.Leaf.Parser.{
  Level, or_level, multiplicative, op_at, ternary, ternary_rest, binary, chain, operand, unary,
  primary,
}
use kernway.Leaf.Printer.{depth, wrapped}

module _ {Num : Type 0} where
  -- What may follow a whole expression.
  abbrev pub ends : List (Tok Num) → Bool
  ends [] = true
  ends (Tok.rparen ∷ ts) = true
  ends (Tok.rbrace ∷ ts) = true
  ends (Tok.comma ∷ ts) = true
  ends (Tok.colon ∷ ts) = true
  ends (t ∷ ts) = false

  -- No operator of a deeper level comes next.
  abbrev pub IsLow : Level → List (Tok Num) → Type 0
  IsLow level [] = Unit
  IsLow level (t ∷ ts) = (deeper : Level) → depth level < depth deeper → op_at deeper t ≡ none

  abbrev pub starts_plain : List (Tok Num) → Bool
  starts_plain [] = false
  starts_plain (Tok.minus ∷ ts) = false
  starts_plain (Tok.not ∷ ts) = false
  starts_plain (t ∷ ts) = true

  ends-op_at :
      (level : Level) (t : Tok Num) (ts : List (Tok Num))
      → ends (t ∷ ts) ≡ true
      → op_at level t ≡ none
  unfolding op_at
  ends-op_at or_level Tok.rparen ts h = refl
  ends-op_at level Tok.rparen ts h = refl
  ends-op_at level Tok.rbrace ts h = ground arith
  ends-op_at level Tok.comma ts h = ground arith
  ends-op_at level Tok.colon ts h = ground arith
  ends-op_at level t ts h = absurd (ground (arith, h))

  pub ends-IsLow : (level : Level) (rest : List (Tok Num)) → ends rest ≡ true → IsLow level rest
  ends-IsLow level [] h = tt
  ends-IsLow level (t ∷ ts) h = λ deeper below. ends-op_at deeper t ts h

module _ {Num : Type 0} (parse_num : Bytes → Option Num) where
  abbrev pub At0 : ℕ → List (Tok Num) → Expr Num → Type 0
  At0 b toks e =
      (rest : List (Tok Num)) (f : ℕ)
      → ends rest ≡ true
      → b ≤ f
      → ternary parse_num f (toks ++ rest) ≡ parsed (e, rest)

  -- The loop of the level goes on with the expression, whatever that gives.
  abbrev pub AtLevel : Level → ℕ → List (Tok Num) → Expr Num → Type 0
  AtLevel level b toks e =
      (rest : List (Tok Num)) (n : ℕ) (x : Expr Num × List (Tok Num)) (f : ℕ)
      → IsLow level rest
      → ((g : ℕ) → n ≤ g → chain parse_num g level e rest ≡ parsed x)
      → n + b ≤ f
      → binary parse_num f level (toks ++ rest) ≡ parsed x

  abbrev pub AtOperand : Level → ℕ → List (Tok Num) → Expr Num → Type 0
  AtOperand level b toks e =
      (rest : List (Tok Num)) (f : ℕ)
      → IsLow level rest
      → b ≤ f
      → operand parse_num f level (toks ++ rest) ≡ parsed (e, rest)

  abbrev pub At7 : ℕ → List (Tok Num) → Expr Num → Type 0
  At7 b toks e =
      (rest : List (Tok Num)) (f : ℕ) → b ≤ f → unary parse_num f (toks ++ rest) ≡ parsed (e, rest)

  abbrev pub At8 : ℕ → List (Tok Num) → Expr Num → Type 0
  At8 b toks e =
      (rest : List (Tok Num)) (f : ℕ)
      → b ≤ f
      → primary parse_num f (toks ++ rest) ≡ parsed (e, rest)

  unary-primary :
      (toks rest : List (Tok Num)) (f : ℕ)
      → starts_plain toks ≡ true
      → unary parse_num (suc f) (toks ++ rest) ≡ primary parse_num f (toks ++ rest)
  unfolding unary
  unary-primary [] rest f h = absurd (ground (arith, h))
  unary-primary (Tok.minus ∷ ts) rest f h = absurd (ground (arith, h))
  unary-primary (Tok.not ∷ ts) rest f h = absurd (ground (arith, h))
  unary-primary (t ∷ ts) rest f h = refl

  module _ (toks : List (Tok Num)) (e : Expr Num) where
    pub At7-of_At8 : (b : ℕ) → starts_plain toks ≡ true → At8 b toks e → At7 (suc b) toks e
    At7-of_At8 b plain a rest zero h = absurd (omega (arith, h))
    At7-of_At8 b plain a rest (suc f) h =
        rw (unary-primary toks rest f plain) (a rest f (omega (arith, h)))

    pub AtOperand-of_At7 : (b : ℕ) → At7 b toks e → AtOperand multiplicative (suc b) toks e
    unfolding operand
    AtOperand-of_At7 b a rest zero low h = absurd (omega (arith, h))
    AtOperand-of_At7 b a rest (suc f) low h = a rest f (omega (arith, h))

    pub AtLevel-of_AtOperand :
        (level : Level) (b : ℕ) → AtOperand level b toks e → AtLevel level (suc b) toks e
    unfolding binary
    AtLevel-of_AtOperand level b a rest n x zero low cont h = absurd (omega (arith, h))
    AtLevel-of_AtOperand level b a rest n x (suc f) low cont h =
        rw (a rest f low (omega (arith, h))) (cont f (omega (arith, h)))

    pub chain_stops :
        (level deeper : Level) (rest : List (Tok Num)) (g : ℕ)
        → IsLow level rest
        → depth level < depth deeper
        → 1 ≤ g
        → chain parse_num g deeper e rest ≡ parsed (e, rest)
    unfolding chain
    chain_stops level deeper rest zero low below h = absurd (omega (arith, h))
    chain_stops level deeper [] (suc g) low below h = refl
    chain_stops level deeper (t ∷ ts) (suc g) low below h = rw (chain, low deeper below) refl

    IsLow-deeper :
        (level deeper : Level) (rest : List (Tok Num))
        → depth level < depth deeper
        → IsLow level rest
        → IsLow deeper rest
    IsLow-deeper level deeper [] below low = tt
    IsLow-deeper level deeper (t ∷ ts) below low =
        λ inner further. low inner (omega (arith, below, further))

    -- A level's operands are read at the next deeper level.
    pub operand-next :
        (level deeper : Level) (b : ℕ)
        → depth level < depth deeper
        → ((g : ℕ) (ts : List (Tok Num))
            → operand parse_num (suc g) level ts ≡ binary parse_num g deeper ts)
        → AtLevel deeper b toks e
        → AtOperand level (b + 2) toks e
    operand-next level deeper b below next a rest zero low h = absurd (omega (arith, h))
    operand-next level deeper b below next a rest (suc f) low h = rw (next f (toks ++ rest)) (
        a rest 1 (e, rest) f (IsLow-deeper level deeper rest below low)
          (λ g some_fuel. chain_stops level deeper rest g low below some_fuel) (omega (arith, h)))

    pub ternary_rest_ends :
        (rest : List (Tok Num)) (f : ℕ)
        → ends rest ≡ true
        → 1 ≤ f
        → ternary_rest parse_num f e rest ≡ parsed (e, rest)
    unfolding ternary_rest
    ternary_rest_ends rest zero h k = absurd (omega (arith, k))
    ternary_rest_ends [] (suc f) h k = refl
    ternary_rest_ends (Tok.rparen ∷ ts) (suc f) h k = refl
    ternary_rest_ends (Tok.rbrace ∷ ts) (suc f) h k = refl
    ternary_rest_ends (Tok.comma ∷ ts) (suc f) h k = refl
    ternary_rest_ends (Tok.colon ∷ ts) (suc f) h k = refl
    ternary_rest_ends (t ∷ ts) (suc f) h k = absurd (ground (arith, h))

    pub chain_ends :
        (level : Level) (rest : List (Tok Num)) (g : ℕ)
        → ends rest ≡ true
        → 1 ≤ g
        → chain parse_num g level e rest ≡ parsed (e, rest)
    unfolding chain
    chain_ends level rest zero h k = absurd (omega (arith, k))
    chain_ends level [] (suc g) h k = refl
    chain_ends level (t ∷ ts) (suc g) h k = rw (chain, ends-op_at level t ts h) refl

    pub At0-of_AtLevel : (b : ℕ) → AtLevel or_level b toks e → At0 (b + 2) toks e
    unfolding ternary
    At0-of_AtLevel b a rest zero h k = absurd (omega (arith, k))
    At0-of_AtLevel b a rest (suc f) h k =
        rw
          (a rest 1 (e, rest) f (ends-IsLow or_level rest h)
            (λ g some_fuel. chain_ends or_level rest g h some_fuel) (omega (arith, k)))
          (ternary_rest_ends rest f h (omega (arith, k)))

    pub At8-wrapped : (b : ℕ) → At0 b toks e → At8 (suc b) (wrapped toks) e
    unfolding primary
    At8-wrapped b a rest zero h = absurd (omega (arith, h))
    At8-wrapped b a rest (suc f) h =
        rw
          (
            append_assoc toks (Tok.rparen ∷ []) rest,
            a (Tok.rparen ∷ rest) f refl (omega (arith, h)),
          )
          refl

-- ===== src/Leaf/Lexer/Load.antt =====
-- How much text the tokens of crates/kernleaf/src/expr.rs hold, and what it means that a reader of them ends.
use kernway.Prelude.{ℕ, suc, ◌+◌, ◌≤◌, ◌<◌, ◌≢◌, List, [], ◌∷◌, arith, length}
use kernway.Leaf.Expr.{Tok, Parsed, parsed, failed, exhausted, ◌>>=◌}

module _ {Num : Type 0} where
  -- One for the token, and the text that it keeps to be parsed later.
  unfoldable pub weight : Tok Num → ℕ
  weight (Tok.template_raw raw) = suc (length raw)
  weight (Tok.url_raw raw) = suc (length raw)
  weight (Tok.msg_raw raw) = suc (length raw)
  weight _ = 1

  unfoldable pub load : List (Tok Num) → ℕ
  load [] = 0
  load (t ∷ ts) = weight t + load ts

  pub weight_pos : (t : Tok Num) → 1 ≤ weight t
  unfolding weight
  weight_pos t = ground arith

  -- A reader ends, and leaves tokens of less than a load.
  abbrev pub Leaves : {A : Type 0} → ℕ → Parsed (A × List (Tok Num)) → Type 0
  Leaves n (parsed (a, rest)) = load rest < n
  Leaves n failed = Unit
  Leaves n exhausted = ⊥

  pub Leaves-weaken :
      {A : Type 0} → (n m : ℕ) (r : Parsed (A × List (Tok Num))) → n ≤ m → Leaves n r → Leaves m r
  Leaves-weaken n m (parsed (a, rest)) le h = omega (arith, le, h)
  Leaves-weaken n m failed le h = tt
  Leaves-weaken n m exhausted le h = h

  pub Leaves-then :
      {A B : Type 0}
      → (n m : ℕ) (r : Parsed (A × List (Tok Num)))
        (k : A × List (Tok Num) → Parsed (B × List (Tok Num)))
      → Leaves n r
      → ((a : A) (rest : List (Tok Num)) → load rest < n → Leaves m (k (a, rest)))
      → Leaves m (r >>= k)
  Leaves-then n m (parsed (a, rest)) k h next = next a rest h
  Leaves-then n m failed k h next = tt
  Leaves-then n m exhausted k h next = h

-- A computation ends.
abbrev pub Ends : {A : Type 0} → Parsed A → Type 0
Ends (parsed a) = Unit
Ends failed = Unit
Ends exhausted = ⊥

pub Ends-not_exhausted : {A : Type 0} → (r : Parsed A) → Ends r → r ≢ exhausted
Ends-not_exhausted (parsed a) h bad = cc
Ends-not_exhausted failed h bad = cc
Ends-not_exhausted exhausted h bad = h

pub Ends-then :
    {A B : Type 0}
    → (r : Parsed A) (k : A → Parsed B) → Ends r
    → ((a : A) → Ends (k a))
    → Ends (r >>= k)
Ends-then (parsed a) k h next = next a
Ends-then failed k h next = tt
Ends-then exhausted k h next = h

module _ {Num : Type 0} where
  pub Leaves-after :
      {A B : Type 0}
      → (m : ℕ) (r : Parsed A) (k : A → Parsed (B × List (Tok Num))) → Ends r
      → ((a : A) → Leaves m (k a))
      → Leaves m (r >>= k)
  Leaves-after m (parsed a) k h next = next a
  Leaves-after m failed k h next = tt
  Leaves-after m exhausted k h next = h

  pub Ends-after :
      {A B : Type 0}
      → (n : ℕ) (r : Parsed (A × List (Tok Num))) (k : A × List (Tok Num) → Parsed B) → Leaves n r
      → ((a : A × List (Tok Num)) → Ends (k a))
      → Ends (r >>= k)
  Ends-after n (parsed a) k h next = next a
  Ends-after n failed k h next = tt
  Ends-after n exhausted k h next = h

-- ===== src/Leaf/Parser/Steps.antt =====
-- How single steps of the parser in crates/kernleaf/src/expr.rs end, and how deep its levels are nested.
use kernway.Prelude.{
  ℕ, ◌≤◌, ◌<◌, ◌≡◌, ◌⊎◌, refl, Option, List, [], ◌∷◌, arith, Bool-cases, inl, inr, Bytes, trim, map,
  split, any, is_empty,
}
use kernway.Leaf.Expr.{Expr, Tok, Parsed, parsed, failed, exhausted, ◌>>=◌}
use kernway.Leaf.Lexer.Load.{weight, load, Leaves, Ends}
use kernway.Leaf.Lexer.Total.{Loaded}
use kernway.Leaf.Parser.{
  Level, or_level, and_level, equality, comparison, additive, multiplicative, split_path, finished,
  closed_by, parse_all,
}

pub Bytes-cases : (s : Bytes) → (s ≡ []) ⊎ ((c : ℕ) × (t : Bytes) × (s ≡ c ∷ t))
Bytes-cases [] = inl refl
Bytes-cases (c ∷ t) = inr (c, t, refl)

pub split_path-Ends : (s : Bytes) → Ends (split_path s)
unfolding split_path
split_path-Ends s = elim (Bool-cases (any is_empty (map trim (split b'.' s)))) [
  | inl e ↦ rw (split_path, e) tt
  | inr e ↦ rw (split_path, e) tt
]

-- The calls from an operand of a level to a token.
abbrev pub rank : Level → ℕ
rank or_level = 14
rank and_level = 12
rank equality = 10
rank comparison = 8
rank additive = 6
rank multiplicative = 4

pub rank_bound : (level : Level) → rank level ≤ 14
rank_bound or_level = omega arith
rank_bound and_level = omega arith
rank_bound equality = omega arith
rank_bound comparison = omega arith
rank_bound additive = omega arith
rank_bound multiplicative = omega arith

module _ {Num : Type 0} (parse_num : Bytes → Option Num) where
  pub finished-Ends : (p : Expr Num × List (Tok Num)) → Ends (finished parse_num p)
  finished-Ends (e, []) = tt
  finished-Ends (e, t ∷ ts) = tt

  pub closed_by-rbrace :
      (e : Expr Num) (rest : List (Tok Num)) (n : ℕ)
      → load rest < n
      → Leaves n (closed_by parse_num Tok.rbrace (e, rest))
  unfolding load weight
  closed_by-rbrace e [] n h = tt
  closed_by-rbrace e (Tok.rbrace ∷ ts) n h = omega (arith, h)
  closed_by-rbrace e (t ∷ ts) n h = tt

  pub closed_by-rparen :
      (e : Expr Num) (rest : List (Tok Num)) (n : ℕ)
      → load rest < n
      → Leaves n (closed_by parse_num Tok.rparen (e, rest))
  unfolding load weight
  closed_by-rparen e [] n h = tt
  closed_by-rparen e (Tok.rparen ∷ ts) n h = omega (arith, h)
  closed_by-rparen e (t ∷ ts) n h = tt

  pub parse-of_tokens :
      (f n : ℕ) (r : Parsed (List (Tok Num)))
      → Loaded parse_num n r
      → ((toks : List (Tok Num)) → load toks ≤ n → Ends (parse_all parse_num f toks))
      → Ends (r >>= parse_all parse_num f)
  parse-of_tokens f n (parsed toks) h k = k toks h
  parse-of_tokens f n failed h k = tt
  parse-of_tokens f n exhausted h k = h

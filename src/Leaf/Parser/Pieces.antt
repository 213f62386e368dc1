-- ===== src/Leaf/Parser/Pieces.antt =====
-- How long the texts are into which crates/kernleaf/src/expr.rs cuts the inside of a `|…|`, a `@{…}` or a `#{…}`.
use kernway.Prelude.{
  ℕ, suc, ◌+◌, ◌≤◌, ◌≡◌, refl, Bool, false, not, ◌&&◌, ◌||◌, some, List, [], ◌∷◌, arith, Bool-cases,
  Option-cases, inl, inr, ◌==◌, if◌then◌else◌, Bytes, length, push_head, split_once,
  length-split_once,
}
use kernway.Leaf.Parser.{
  ends_paren, but_last, head_and_params, comma_pieces, split_top_commas, find_embed,
}

-- One for each piece, and its bytes.
unfoldable pub span : List Bytes → ℕ
span [] = 0
span (p ∷ ps) = suc (length p) + span ps

span-push_head :
    (c : ℕ) (ps : List Bytes) (n : ℕ) → span ps ≡ suc n → span (push_head c ps) ≡ suc (suc n)
unfolding span
span-push_head c [] n h = absurd (omega (arith, h))
span-push_head c (p ∷ ps) n h = omega (arith, h)

span-comma_pieces :
    (opened closed : ℕ) (in_str : Bool) (s : Bytes)
    → span (comma_pieces opened closed in_str s) ≡ suc (length s)
unfolding span comma_pieces
span-comma_pieces opened closed in_str [] = refl
span-comma_pieces opened closed in_str (c ∷ s) =
    let up = (c == b'{' || c == b'(') && not in_str in
    let down = (c == b'}' || c == b')') && not in_str in
    let opened2 = if up then opened + 1 else opened in
    let closed2 = if down then closed + 1 else closed in
    let in_str2 = if c == 39 then not in_str else in_str in
    let rest = span-comma_pieces opened2 closed2 in_str2 s in
    elim (Bool-cases (c == b',' && (not in_str && opened == closed))) [
      | inl e ↦ rw e (omega (arith, rest))
      | inr e ↦ rw e (span-push_head c (comma_pieces opened2 closed2 in_str2 s) (length s) rest)
    ]

span-split_top_commas : (s : Bytes) → span (split_top_commas s) ≤ suc (length s)
unfolding split_top_commas span
span-split_top_commas [] = omega arith
span-split_top_commas (c ∷ s) = omega (arith, span-comma_pieces 0 0 false (c ∷ s))

length-but_last : (s : Bytes) → length (but_last s) ≤ length s
length-but_last [] = omega arith
length-but_last (c ∷ []) = omega arith
length-but_last (c ∷ d ∷ s) = omega (arith, length-but_last (d ∷ s))

length-head_and_params : (raw : Bytes) → length (head_and_params raw).1 ≤ length raw
unfolding head_and_params
length-head_and_params raw = elim (Option-cases (split_once b'(' raw)) [
  | inl e ↦ rw (head_and_params, e) (omega arith)
  | inr ((base, rest), e) ↦ elim (Bool-cases (ends_paren raw)) [
    | inl p ↦
        rw (head_and_params, e, p)
          (omega (arith, length-but_last rest, length-split_once b'(' raw base rest e))
    | inr p ↦ rw (head_and_params, e, p) (omega arith)
  ]
]

-- The parameters of a `@{…}` or a `#{…}`.
pub span-params : (raw : Bytes) → span (split_top_commas (head_and_params raw).1) ≤ suc (length raw)
span-params raw =
    omega (arith, span-split_top_commas (head_and_params raw).1, length-head_and_params raw)

pub length-find_embed :
    (raw before after : Bytes)
    → find_embed raw ≡ some (before, after)
    → length after + 2 ≤ length raw
unfolding find_embed
length-find_embed [] before after h = cc
length-find_embed (c ∷ []) before after h = cc
length-find_embed (c ∷ d ∷ s) before after h = elim (Bool-cases (c == b'$' && d == b'{')) [
  | inl e ↦ let x = rw (find_embed, e) at h in ground (arith, x)
  | inr e ↦ elim (Option-cases (find_embed (d ∷ s))) [
    | inl f ↦ let x = rw (find_embed, e, f) at h in absurd (ground (arith, x))
    | inr ((b, a), f) ↦
        let x = rw (find_embed, e, f) at h in ground (arith, x, length-find_embed (d ∷ s) b a f)
  ]
]

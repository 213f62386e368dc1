-- ===== src/Static/Negotiation.antt =====
-- The negotiation of a precompressed variant in crates/kernway-static/src/lib.rs. The `f32` of a weight is a
-- parameter, with its parser, 1.0, 0.0 and the test whether it is above 0.0.
pub mod LastWord
mod Tests
use kernway.Prelude.{
  ℕ, Bool, true, false, ◌&&◌, ◌||◌, Option, none, some, List, [], ◌∷◌, ◌==◌, if◌then◌else◌, Bytes,
  codes, trim, split, split_once, lowercase, same, list_eq, nat_eq, is_empty,
}

pub data Encoding : Type 0 where
  brotli : Encoding
  gzip : Encoding

abbrev pub preference : List Encoding
preference = brotli ∷ gzip ∷ []

unfoldable pub content_token : Encoding → Bytes
content_token brotli = codes "br"
content_token gzip = codes "gzip"

unfoldable pub extension : Encoding → Bytes
extension brotli = codes ".br"
extension gzip = codes ".gz"

-- Behind `q=` or `Q=`.
unfoldable pub weight_text : Bytes → Option Bytes
weight_text [] = none
weight_text (c ∷ []) = none
weight_text (c ∷ d ∷ v) = if (c == b'q' || c == b'Q') && d == b'=' then some v else none

-- Case is ignored, as in `eq_ignore_ascii_case`.
abbrev pub is_named : Bytes → Bytes → Bool
is_named token name = same (lowercase name) (lowercase token)

module _ {Q : Type 0} where
  -- The weights that the name and the wildcard have, after a part that is not empty.
  unfoldable pub note_part : Bytes → Bytes × Q → Option Q × Option Q → Option Q × Option Q
  note_part token (name, q) (exact_q, wildcard_q) =
      if is_named token name
      then (some q, wildcard_q)
      else if same name (codes "*")
      then (exact_q, some q)
      else (exact_q, wildcard_q)

module _ {Q : Type 0} (zero : Q) (is_positive : Q → Bool) where
  unfoldable pub verdict : Option Q × Option Q → Bool
  verdict (some q, wildcard_q) = is_positive q
  verdict (none, some q) = is_positive q
  verdict (none, none) = is_positive zero

module _ {Q : Type 0} (parse_q : Bytes → Option Q) (one : Q) where
  -- `find_map` over the parameters of a part.
  unfoldable pub quality : List Bytes → Q
  unfolding weight_text
  quality [] = one
  quality (p ∷ ps) = elim (weight_text (trim p)) [
    | none ↦ quality ps
    | some v ↦ elim (parse_q (trim v)) [ none ↦ quality ps | some q ↦ q ]
  ]

  unfoldable pub split_qvalue : Bytes → Bytes × Q
  unfolding quality
  split_qvalue part = elim (split_once b';' part) [
    | none ↦ (part, one)
    | some (name, params) ↦ (trim name, quality (split b';' params))
  ]

  -- The loop of `is_accepted`.
  unfoldable pub weigh : Bytes → List Bytes → Option Q × Option Q → Option Q × Option Q
  unfolding split_qvalue note_part
  weigh token [] so_far = so_far
  weigh token (part ∷ parts) so_far = elim (is_empty (trim part)) [
    | true ↦ weigh token parts so_far
    | false ↦ weigh token parts (note_part token (split_qvalue (trim part)) so_far)
  ]

module _ {Q : Type 0} (parse_q : Bytes → Option Q) (one zero : Q) (is_positive : Q → Bool) where
  unfoldable pub is_accepted : Bytes → Bytes → Bool
  unfolding weigh verdict
  is_accepted header token =
      verdict zero is_positive (weigh parse_q one token (split b',' header) (none, none))

  -- `filter` over the two encodings.
  unfoldable pub accepted_of : Bytes → List Encoding → List Encoding
  unfolding is_accepted content_token
  accepted_of header [] = []
  accepted_of header (e ∷ es) =
      let rest = accepted_of header es in
      if is_accepted header (content_token e) then e ∷ rest else rest

  unfoldable pub accepted_encodings : Bytes → List Encoding
  unfolding accepted_of
  accepted_encodings header = accepted_of header preference

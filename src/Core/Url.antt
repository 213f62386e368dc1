-- ===== src/Core/Url.antt =====
-- crates/kernway-core/src/url.rs: percent-encoding and the fields of a form. A slice of a `str` whose end lies within
-- a character panics, which is a result here. What `from_utf8_lossy` makes of bytes that are no text
-- is a parameter.
pub mod RoundTrip
pub mod Forms
mod Tests
use kernway.Prelude.{
  ℕ, ◌+◌, ◌-◌, ◌*◌, ◌/◌, ◌%◌, Bool, true, false, not, ◌&&◌, ◌||◌, Option, none, some, List, [], ◌∷◌,
  ◌++◌, ltb, leb, ◌==◌, if◌then◌else◌, Bytes, split, split_once, same, list_eq, nat_eq,
}

unfoldable pub is_unreserved : ℕ → Bool
is_unreserved b =
    (leb b'A' b && leb b b'Z')
    || ((leb b'a' b && leb b b'z')
        || ((leb b'0' b && leb b b'9') || (b == b'-' || (b == b'_' || (b == b'.' || b == b'~')))))

-- A digit of `{:02X}`.
unfoldable pub upper_hex : ℕ → ℕ
upper_hex d = if ltb d 10 then 48 + d else 55 + d

unfoldable pub percent_encode : Bytes → Bytes
unfolding is_unreserved upper_hex
percent_encode [] = []
percent_encode (b ∷ s) =
    let rest = percent_encode s in
    if is_unreserved b then b ∷ rest else b'%' ∷ upper_hex (b / 16) ∷ upper_hex (b % 16) ∷ rest

-- `char::to_digit(16)`
pub to_digit : ℕ → Option ℕ
to_digit b =
    if leb b'0' b && leb b b'9'
    then some (b - 48)
    else if leb b'a' b && leb b b'f'
    then some (b - 87)
    else if leb b'A' b && leb b b'F'
    then some (b - 55)
    else none

abbrev pair_of : Option ℕ → Option ℕ → Option ℕ
pair_of none l = none
pair_of (some h) none = none
pair_of (some h) (some l) = some (h * 16 + l)

-- `u8::from_str_radix` of two characters, which takes a sign in front of the digits.
pub radix_pair : ℕ → ℕ → Option ℕ
unfolding to_digit
radix_pair a b = if a == b'+' then to_digit b else pair_of (to_digit a) (to_digit b)

-- A slice may end here: no byte within a character comes next.
pub is_boundary : Bytes → Bool
is_boundary [] = true
is_boundary (b ∷ s) = ltb b 0x80 || leb 0xc0 b

pub data Decoded : Type 0 where
  decoded : Bytes → Decoded
  panicked : Decoded

abbrev pub pushed : ℕ → Decoded → Decoded
pushed b (decoded out) = decoded (b ∷ out)
pushed b panicked = panicked

abbrev pub plain : ℕ → ℕ
plain b = if b == b'+' then 32 else b

-- The loop. `i + 2 < b.len()` says that two bytes follow.
pub decode_bytes : Bytes → Decoded
unfolding radix_pair is_boundary
decode_bytes [] = decoded []
decode_bytes (c ∷ []) = decoded (plain c ∷ [])
decode_bytes (c ∷ a ∷ []) = pushed (plain c) (decode_bytes (a ∷ []))
decode_bytes (c ∷ a ∷ b ∷ s) = elim (c == b'%') [
  | false ↦ pushed (plain c) (decode_bytes (a ∷ b ∷ s))
  | true ↦ elim (is_boundary s) [
    | false ↦ panicked
    | true ↦ elim (radix_pair a b) [
      | some n ↦ pushed n (decode_bytes s)
      | none ↦ pushed b'%' (decode_bytes (a ∷ b ∷ s))
    ]
  ]
]

module _ (from_utf8_lossy : Bytes → Bytes) where
  abbrev as_text : Decoded → Decoded
  as_text (decoded out) = decoded (from_utf8_lossy out)
  as_text panicked = panicked

  pub percent_decode : Bytes → Decoded
  unfolding decode_bytes
  percent_decode s = as_text (decode_bytes s)

  -- `find_map`: the first pair with the name.
  pub first_field : Bytes → List Bytes → Decoded
  unfolding percent_decode
  first_field name [] = decoded []
  first_field name (pair ∷ pairs) = elim (split_once b'=' pair) [
    | none ↦ first_field name pairs
    | some (k, v) ↦ elim (same k name) [ true ↦ percent_decode v | false ↦ first_field name pairs ]
  ]

  pub form_field : Bytes → Bytes → Decoded
  unfolding first_field
  form_field body name = first_field name (split b'&' (from_utf8_lossy body))

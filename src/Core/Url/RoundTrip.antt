-- ===== src/Core/Url/RoundTrip.antt =====
-- What the decoder of crates/kernway-core/src/url.rs makes of the encoder's output, and where it panics.
use kernway.Prelude.{
  ℕ, ◌+◌, ◌-◌, ◌*◌, ◌/◌, ◌%◌, ◌≤◌, ◌<◌, ◌≡◌, refl, true, false, some, [], ◌∷◌, ◌++◌, arith, ltb,
  leb, ◌==◌, Bytes, All, Bool-cases, inl, inr, is_utf8,
}
use kernway.Core.Url.{
  is_unreserved, upper_hex, to_digit, percent_encode, radix_pair, is_boundary, decoded, panicked,
  pushed, plain, decode_bytes, percent_decode,
}

abbrev pub IsByte : ℕ → Type 0
IsByte b = b < 256

to_digit-upper_hex : (d : ℕ) → d < 16 → to_digit (upper_hex d) ≡ some d
unfolding to_digit upper_hex
to_digit-upper_hex d h = elim (Bool-cases (ltb d 10)) [
  | inl e ↦
      let low : leb b'0' (48 + d) ≡ true = ground (arith, e) in
      let high : leb (48 + d) b'9' ≡ true = ground (arith, e) in
      let back : (48 + d) - 48 ≡ d = omega arith in rw (e, low, high, back) refl
  | inr e ↦
      let digit : leb b'0' (55 + d) ≡ true = ground (arith, e) in
      let past : leb (55 + d) b'9' ≡ false = ground (arith, e) in
      let no_letter : leb b'a' (55 + d) ≡ false = ground (arith, h) in
      let low : leb b'A' (55 + d) ≡ true = ground (arith, e) in
      let high : leb (55 + d) b'F' ≡ true = ground (arith, h) in
      let back : (55 + d) - 55 ≡ d = omega arith in
      rw (e, digit, past, no_letter, low, high, back) refl
]

upper_hex-no_sign : (d : ℕ) → (upper_hex d == b'+') ≡ false
unfolding upper_hex
upper_hex-no_sign d = ground arith

-- Every byte is read back from its two digits, the first of which is no sign.
radix_pair-upper_hex :
    (b : ℕ) → IsByte b → radix_pair (upper_hex (b / 16)) (upper_hex (b % 16)) ≡ some b
unfolding radix_pair
radix_pair-upper_hex b h =
    let no_sign : (upper_hex (b / 16) == b'+') ≡ false = upper_hex-no_sign (b / 16) in
    let whole : b / 16 * 16 + b % 16 ≡ b = omega arith in
    rw
      (
        no_sign,
        to_digit-upper_hex (b / 16) (omega (arith, h)),
        to_digit-upper_hex (b % 16) (omega arith),
        whole,
      )
      refl

decode_bytes-plain :
    (c : ℕ) (s : Bytes)
    → (c == b'%') ≡ false
    → decode_bytes (c ∷ s) ≡ pushed (plain c) (decode_bytes s)
unfolding decode_bytes
decode_bytes-plain c [] h = refl
decode_bytes-plain c (a ∷ []) h = refl
decode_bytes-plain c (a ∷ b ∷ s) h = rw (decode_bytes, h) refl

unreserved_facts :
    (b : ℕ) → is_unreserved b ≡ true → ((b == b'%') ≡ false) × (plain b ≡ b) × (ltb b 0x80 ≡ true)
unfolding is_unreserved
unreserved_facts b h = ground (arith, h)

percent_encode-is_boundary : (s : Bytes) → is_boundary (percent_encode s) ≡ true
unfolding percent_encode is_boundary
percent_encode-is_boundary [] = refl
percent_encode-is_boundary (b ∷ s) = elim (Bool-cases (is_unreserved b)) [
  | inl e ↦ ground (arith, e, unreserved_facts b e)
  | inr e ↦ ground (arith, e)
]

decode_bytes-percent :
    (a b n : ℕ) (s : Bytes)
    → is_boundary s ≡ true
    → radix_pair a b ≡ some n
    → decode_bytes (b'%' ∷ a ∷ b ∷ s) ≡ pushed n (decode_bytes s)
unfolding decode_bytes
decode_bytes-percent a b n s h e = rw (decode_bytes, h, e) refl

pub decode_bytes-encode : (s : Bytes) → All IsByte s → decode_bytes (percent_encode s) ≡ decoded s
unfolding percent_encode decode_bytes
decode_bytes-encode [] h = refl
decode_bytes-encode (b ∷ s) (h, hs) = elim (Bool-cases (is_unreserved b)) [
  | inl e ↦
      let (no_percent, itself, _) = unreserved_facts b e in
      rw (e, decode_bytes-plain b (percent_encode s) no_percent, itself, decode_bytes-encode s hs)
        refl
  | inr e ↦
      rw
        (
          e,
          decode_bytes-percent (upper_hex (b / 16)) (upper_hex (b % 16)) b (percent_encode s)
              (percent_encode-is_boundary s) (radix_pair-upper_hex b h),
          decode_bytes-encode s hs,
        )
        refl
]

-- What is percent-encoded is decoded to itself, for every text.
pub percent_decode-encode :
    (from_utf8_lossy : Bytes → Bytes)
    → ((s : Bytes) → is_utf8 s ≡ true → from_utf8_lossy s ≡ s)
    → (s : Bytes) → is_utf8 s ≡ true
    → All IsByte s
    → percent_decode from_utf8_lossy (percent_encode s) ≡ decoded s
unfolding percent_decode
percent_decode-encode from_utf8_lossy lossless s text bytes =
    rw (decode_bytes-encode s bytes, lossless s text) refl

decode_bytes-panics :
    (before rest : Bytes) (a b c : ℕ)
    → All (λ x. (x == b'%') ≡ false) before
    → 0x80 ≤ c
    → c < 0xc0
    → decode_bytes (before ++ (b'%' ∷ a ∷ b ∷ c ∷ rest)) ≡ panicked
unfolding decode_bytes is_boundary
decode_bytes-panics [] rest a b c h low high =
    let inside : is_boundary (c ∷ rest) ≡ false = ground (arith, low, high) in
    rw (decode_bytes, inside) refl
decode_bytes-panics (x ∷ before) rest a b c (h, hs) low high =
    rw
      (
        decode_bytes-plain x (before ++ (b'%' ∷ a ∷ b ∷ c ∷ rest)) h,
        decode_bytes-panics before rest a b c hs low high,
      )
      refl

-- A text with three bytes behind its first percent sign, of which the third lies within a
-- character, makes the decoder panic, whatever stands before and after.
pub percent_decode-panics :
    (from_utf8_lossy : Bytes → Bytes) (before rest : Bytes) (a b c : ℕ)
    → All (λ x. (x == b'%') ≡ false) before
    → 0x80 ≤ c
    → c < 0xc0
    → percent_decode from_utf8_lossy (before ++ (b'%' ∷ a ∷ b ∷ c ∷ rest)) ≡ panicked
unfolding percent_decode
percent_decode-panics from_utf8_lossy before rest a b c h low high =
    rw (decode_bytes-panics before rest a b c h low high) refl

-- ===== src/Security/Token/Base64.antt =====
-- What crates/kernway-security/src/token.rs decodes of the letters that it encodes.
use kernway.Prelude.{
  ℕ, zero, suc, ◌+◌, ◌*◌, ◌/◌, ◌%◌, ◌^◌, ◌<◌, ◌≡◌, refl, ap, Bool, true, false, not, ◌&&◌,
  Bool-cases, inl, inr, Option, none, some, List, [], ◌∷◌, ltb, ◌==◌, arith, Bytes, all, All,
}
use kernway.Security.Token.{
  byte_at, letter, b64url_encode, letter_value, pushed, decode_from, b64url_decode,
}

-- The numbers below a bound, from the largest.
unfoldable pub below : ℕ → List ℕ
below zero = []
below (suc n) = n ∷ below n

pub all-below : (p : ℕ → Bool) (n x : ℕ) → all p (below n) ≡ true → x < n → p x ≡ true
unfolding below
all-below p zero x h lt = absurd (omega (arith, lt))
all-below p (suc n) x h lt = elim (Bool-cases (x == n)) [
  | inl e ↦ let here : x ≡ n = ground (arith, e) in rw here (ground (arith, h))
  | inr e ↦ all-below p n x (ground (arith, h)) (ground (arith, lt, e))
]

abbrev is_value : ℕ → Option ℕ → Bool
is_value n none = false
is_value n (some v) = v == n

-- A letter is no padding and no separator, and its value is its place in the alphabet.
abbrev is_letter : ℕ → Bool
is_letter n =
    is_value n (letter_value (letter n))
    && (not (letter n == b'=') && (not (letter n == b'.') && ltb (letter n) 128))

letter_table : all is_letter (below 64) ≡ true
unfolding below letter_value byte_at
letter_table = refl

abbrev pub IsInAlphabet : ℕ → Type 0
IsInAlphabet n =
    (letter_value (letter n) ≡ some (n % 64))
    × ((letter n == b'=') ≡ false)
    × ((letter n == b'.') ≡ false)
    × (letter n < 128)

value-some : (o : Option ℕ) (n : ℕ) → is_value n o ≡ true → o ≡ some n
value-some none n h = absurd (ground (arith, h))
value-some (some v) n h = ground (arith, h)

letter-small : (n : ℕ) → n < 64 → is_letter n ≡ true
letter-small n h = all-below is_letter 64 n letter_table h

pub letter-IsInAlphabet : (n : ℕ) → IsInAlphabet n
letter-IsInAlphabet n =
    let m = n % 64 in
    let fact = letter-small m (omega arith) in
    let again : n % 64 % 64 ≡ n % 64 = omega arith in
    let fact2 = rw again at fact in
    (
      value-some (letter_value (letter n)) (n % 64) (ground (arith, fact2)),
      ground (arith, fact2),
      ground (arith, fact2),
      ground (arith, fact2),
    )

-- The accumulator behind a letter.
abbrev after : ℕ → ℕ → ℕ
after acc n = acc * 64 % 2 ^ 32 + n % 64

first_letter :
    (acc n : ℕ) (s : Bytes) → decode_from acc 0 (letter n ∷ s) ≡ decode_from (after acc n) 6 s
unfolding decode_from
first_letter acc n s =
    let (value, no_padding, _, _) = letter-IsInAlphabet n in
    rw (decode_from, no_padding, value) refl

second_letter :
    (acc n : ℕ) (s : Bytes)
    → decode_from acc 6 (letter n ∷ s)
      ≡ pushed (after acc n / 16 % 256) (decode_from (after acc n) 4 s)
unfolding decode_from
second_letter acc n s =
    let (value, no_padding, _, _) = letter-IsInAlphabet n in
    rw (decode_from, no_padding, value) refl

third_letter :
    (acc n : ℕ) (s : Bytes)
    → decode_from acc 4 (letter n ∷ s)
      ≡ pushed (after acc n / 4 % 256) (decode_from (after acc n) 2 s)
unfolding decode_from
third_letter acc n s =
    let (value, no_padding, _, _) = letter-IsInAlphabet n in
    rw (decode_from, no_padding, value) refl

fourth_letter :
    (acc n : ℕ) (s : Bytes)
    → decode_from acc 2 (letter n ∷ s)
      ≡ pushed (after acc n / 1 % 256) (decode_from (after acc n) 0 s)
unfolding decode_from
fourth_letter acc n s =
    let (value, no_padding, _, _) = letter-IsInAlphabet n in
    rw (decode_from, no_padding, value) refl

-- The low bits of the accumulator are the last letters.
first_byte :
    (acc n a r : ℕ)
    → n ≡ a * 65536 + r
    → r < 65536
    → a < 256
    → after (after acc (n / 262144)) (n / 4096) / 16 % 256 ≡ a
first_byte acc n a r e h k = omega (arith, e, h, k)

second_byte :
    (acc n a b c : ℕ)
    → n ≡ a * 65536 + b * 256 + c
    → b < 256
    → c < 256
    → after (after acc (n / 4096)) (n / 64) / 4 % 256 ≡ b
second_byte acc n a b c e h k = omega (arith, e, h, k)

third_byte :
    (acc n a c : ℕ) → n ≡ a * 256 + c → c < 256 → after (after acc (n / 64)) n / 1 % 256 ≡ c
third_byte acc n a c e k = omega (arith, e, k)

abbrev pub IsByte : ℕ → Type 0
IsByte b = b < 256

decode_from-nil : (acc bits : ℕ) → decode_from acc bits [] ≡ some []
unfolding decode_from
decode_from-nil acc bits = refl

decode_from-end : (b acc bits : ℕ) → pushed b (decode_from acc bits []) ≡ some (b ∷ [])
unfolding decode_from
decode_from-end b acc bits = refl

decode_from-encode :
    (s : Bytes) (acc : ℕ) → All IsByte s → decode_from acc 0 (b64url_encode s) ≡ some s
unfolding b64url_encode
decode_from-encode [] acc h = decode_from-nil acc 0
decode_from-encode (a ∷ []) acc (h, hs) =
    let n = a * 65536 in
    let x = after acc (n / 262144) in
    rw
      (
        first_letter acc (n / 262144) (letter (n / 4096) ∷ []),
        second_letter x (n / 4096) [],
        first_byte acc n a 0 (omega arith) (omega arith) h,
      )
      (decode_from-end a (after x (n / 4096)) 4)
decode_from-encode (a ∷ b ∷ []) acc (h, (k, hs)) =
    let n = a * 65536 + b * 256 in
    let x = after acc (n / 262144) in
    let y = after x (n / 4096) in
    rw
      (
        first_letter acc (n / 262144) (letter (n / 4096) ∷ letter (n / 64) ∷ []),
        second_letter x (n / 4096) (letter (n / 64) ∷ []),
        third_letter y (n / 64) [],
        first_byte acc n a (b * 256) (omega arith) (omega (arith, k)) h,
        second_byte x n a b 0 (omega arith) k (omega arith),
      )
      (ap (pushed a) (decode_from-end b (after y (n / 64)) 2))
decode_from-encode (a ∷ b ∷ c ∷ s) acc (h, (k, (l, hs))) =
    let n = a * 65536 + b * 256 + c in
    let x = after acc (n / 262144) in
    let y = after x (n / 4096) in
    let z = after y (n / 64) in
    rw
      (
        first_letter acc (n / 262144)
            (letter (n / 4096) ∷ letter (n / 64) ∷ letter n ∷ b64url_encode s),
        second_letter x (n / 4096) (letter (n / 64) ∷ letter n ∷ b64url_encode s),
        third_letter y (n / 64) (letter n ∷ b64url_encode s),
        fourth_letter z n (b64url_encode s),
        first_byte acc n a (b * 256 + c) (omega arith) (omega (arith, k, l)) h,
        second_byte x n a b c refl k l,
        third_byte y n (a * 256 + b) c (omega arith) l,
        decode_from-encode s (after z n) hs,
      )
      refl

-- A letter of the encoding is no dot, and is ASCII.
abbrev pub IsPlain : ℕ → Type 0
IsPlain c = ((c == b'.') ≡ false) × (c < 128)

letter-IsPlain : (n : ℕ) → IsPlain (letter n)
letter-IsPlain n = let (_, _, no_dot, small) = letter-IsInAlphabet n in (no_dot, small)

pub b64url_encode-IsPlain : (s : Bytes) → All IsPlain (b64url_encode s)
unfolding b64url_encode
b64url_encode-IsPlain [] = tt
b64url_encode-IsPlain (a ∷ []) =
    let n = a * 65536 in (letter-IsPlain (n / 262144), (letter-IsPlain (n / 4096), tt))
b64url_encode-IsPlain (a ∷ b ∷ []) =
    let n = a * 65536 + b * 256 in
    (letter-IsPlain (n / 262144), (letter-IsPlain (n / 4096), (letter-IsPlain (n / 64), tt)))
b64url_encode-IsPlain (a ∷ b ∷ c ∷ s) =
    let n = a * 65536 + b * 256 + c in
    (
      letter-IsPlain (n / 262144),
      (
        letter-IsPlain (n / 4096),
        (letter-IsPlain (n / 64), (letter-IsPlain n, b64url_encode-IsPlain s)),
      ),
    )

-- What is encoded, whatever its length, is decoded to the same bytes.
pub b64url_decode-encode : (s : Bytes) → All IsByte s → b64url_decode (b64url_encode s) ≡ some s
unfolding b64url_decode
b64url_decode-encode s h = decode_from-encode s 0 h

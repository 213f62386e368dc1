-- ===== src/Security/Token.antt =====
-- The signed tokens of crates/kernway-security/src/token.rs, and the comparison of crates/kernway-security/src/lib.rs that
-- they use. The MAC is a parameter. Numbers that a shift keeps apart are added where the code joins them by `|`.
pub mod Base64
pub mod RoundTrip
pub mod Login
mod Tests
use Prim.Native.Nat.{bit_or, bit_xor}
use kernway.Prelude.{
  ℕ, zero, suc, ◌+◌, ◌-◌, ◌*◌, ◌/◌, ◌%◌, ◌^◌, Bool, true, false, ◌&&◌, Option, none, some, List, [],
  ◌∷◌, ◌++◌, ltb, leb, ◌==◌, if◌then◌else◌, Bytes, codes, length, split, split_once, is_utf8,
  is_empty, parse_u64, decimal,
}
use kernway.Security.Session.{Claims}

-- A byte of a text, at an index that is below its length.
unfoldable pub byte_at : Bytes → ℕ → ℕ
byte_at [] i = 0
byte_at (c ∷ s) zero = c
byte_at (c ∷ s) (suc i) = byte_at s i

abbrev pub alphabet : Bytes
alphabet = codes "ABCDEFGHIJKLMNOPQRSTUVWXYZabcdefghijklmnopqrstuvwxyz0123456789-_"

abbrev pub letter : ℕ → ℕ
letter n = byte_at alphabet (n % 64)

-- Chunks of three bytes, the last one shorter.
unfoldable pub b64url_encode : Bytes → Bytes
unfolding byte_at
b64url_encode [] = []
b64url_encode (a ∷ []) = let n = a * 65536 in letter (n / 262144) ∷ letter (n / 4096) ∷ []
b64url_encode (a ∷ b ∷ []) =
    let n = a * 65536 + b * 256 in letter (n / 262144) ∷ letter (n / 4096) ∷ letter (n / 64) ∷ []
b64url_encode (a ∷ b ∷ c ∷ s) =
    let n = a * 65536 + b * 256 + c in
    letter (n / 262144) ∷ letter (n / 4096) ∷ letter (n / 64) ∷ letter n ∷ b64url_encode s

-- The match of `b64url_decode`, without its arm for padding.
unfoldable pub letter_value : ℕ → Option ℕ
letter_value c =
    if leb b'A' c && leb c b'Z'
    then some (c - 65)
    else if leb b'a' c && leb c b'z'
    then some (c - 97 + 26)
    else if leb b'0' c && leb c b'9'
    then some (c - 48 + 52)
    else if c == b'-'
    then some 62
    else if c == b'_'
    then some 63
    else none

abbrev pub pushed : ℕ → Option Bytes → Option Bytes
pushed b none = none
pushed b (some out) = some (b ∷ out)

-- The loop, with the 32 bits of `acc` and the number of bits that wait in it.
unfoldable pub decode_from : ℕ → ℕ → Bytes → Option Bytes
unfolding letter_value
decode_from acc bits [] = some []
decode_from acc bits (c ∷ s) = elim (c == b'=') [
  | true ↦ decode_from acc bits s
  | false ↦ elim (letter_value c) [
    | none ↦ none
    | some v ↦ elim (leb 8 (bits + 6)) [
      | true ↦
          pushed ((acc * 64 % 2 ^ 32 + v) / 2 ^ (bits + 6 - 8) % 256)
            (decode_from (acc * 64 % 2 ^ 32 + v) (bits + 6 - 8) s)
      | false ↦ decode_from (acc * 64 % 2 ^ 32 + v) (bits + 6) s
    ]
  ]
]

unfoldable pub b64url_decode : Bytes → Option Bytes
unfolding decode_from
b64url_decode s = decode_from 0 0 s

-- `diff` of `csrf::verify` after the bytes of two texts.
unfoldable pub difference : ℕ → Bytes → Bytes → ℕ
difference diff [] b = diff
difference diff (x ∷ a) [] = diff
difference diff (x ∷ a) (y ∷ b) = difference (bit_or diff (bit_xor x y)) a b

unfoldable pub csrf_verify : Bytes → Bytes → Bool
unfolding difference
csrf_verify submitted expected =
    length submitted == length expected && difference 0 submitted expected == 0

abbrev pub sep : ℕ
sep = 0x1f

-- `join(",")`
unfoldable pub join_roles : List Bytes → Bytes
join_roles [] = []
join_roles (r ∷ []) = r
join_roles (r ∷ q ∷ rs) = r ++ b',' ∷ join_roles (q ∷ rs)

unfoldable pub encode_claims : Claims → Bytes
unfolding join_roles
encode_claims c =
    c.sid
    ++ sep
      ∷ (c.user ++ sep ∷ (join_roles c.roles ++ sep ∷ (decimal c.version ++ sep ∷ decimal c.exp)))

abbrev pub split_roles : Bytes → List Bytes
split_roles [] = []
split_roles (c ∷ s) = split b',' (c ∷ s)

abbrev pub claims_of : Bytes → Bytes → Bytes → Option ℕ → Option ℕ → Option Claims
claims_of sid user roles (some version) (some exp) =
    some
      (record { sid = sid; user = user; roles = split_roles roles; version = version; exp = exp })
claims_of sid user roles (some version) none = none
claims_of sid user roles none exp = none

-- Five parts, and no more.
unfoldable pub five_parts : List Bytes → Option Claims
five_parts (sid ∷ user ∷ roles ∷ version ∷ exp ∷ []) =
    claims_of sid user roles (parse_u64 version) (parse_u64 exp)
five_parts _ = none

unfoldable pub decode_claims : Bytes → Option Claims
unfolding five_parts
decode_claims s = if is_utf8 s then five_parts (split sep s) else none

abbrev pub decoded_claims : Option Bytes → Option Claims
decoded_claims none = none
decoded_claims (some s) = decode_claims s

module _ (hmac_sha256 : Bytes → Bytes → Bytes) (key : Bytes) where
  unfoldable pub sign : Claims → Bytes
  unfolding b64url_encode encode_claims
  sign claims =
      let payload = b64url_encode (encode_claims claims) in
      payload ++ b'.' ∷ b64url_encode (hmac_sha256 key payload)

  unfoldable pub verify : Bytes → Option Claims
  unfolding csrf_verify b64url_encode b64url_decode decode_claims
  verify token = elim (split_once b'.' token) [
    | none ↦ none
    | some (payload, sig) ↦ elim (csrf_verify sig (b64url_encode (hmac_sha256 key payload))) [
      | false ↦ none
      | true ↦ decoded_claims (b64url_decode payload)
    ]
  ]

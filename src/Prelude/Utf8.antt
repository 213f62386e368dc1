-- ===== src/Prelude/Utf8.antt =====
-- The parts of Rust's `str` that look into a text: UTF-8 validity, `trim`, `split_once` and the
-- decimal `parse` of unsigned numbers. Of white space only the ASCII characters are trimmed.
use Prim.Native.Nat.{ℕ, ◌+◌, ◌-◌, ◌*◌, ◌^◌, ◌≤◌, ◌<◌}
use mathlib.Core.Path.{◌≡◌, refl}
use mathlib.Core.Logic.{inl, inr}
use mathlib.Core.Bool.{Bool, true, false, ◌&&◌, ◌||◌}
use mathlib.Core.Option.{Option, none, some}
use mathlib.Core.List.{[], ◌∷◌}
use native.Mathlib.Omega.{arith}
use kernway.Prelude.Tests.{ltb, leb, ◌==◌, if◌then◌else◌, Bool-cases, Option-cases}
use kernway.Prelude.Lists.{length, All}
use kernway.Prelude.Text.{Bytes, is_empty}

-- How many bytes of a character are still to come, and the range of the next one.
pub record Pending : Type 0 where
  pub more : ℕ
  pub low : ℕ
  pub high : ℕ

abbrev pending : ℕ → ℕ → ℕ → Option Pending
pending more low high = some (record { more = more; low = low; high = high })

first_byte : ℕ → Option Pending
first_byte b =
    if ltb b 0x80
    then pending 0 0x80 0xbf
    else if ltb b 0xc2
    then none
    else if ltb b 0xe0
    then pending 1 0x80 0xbf
    else if b == 0xe0
    then pending 2 0xa0 0xbf
    else if b == 0xed
    then pending 2 0x80 0x9f
    else if ltb b 0xf0
    then pending 2 0x80 0xbf
    else if b == 0xf0
    then pending 3 0x90 0xbf
    else if ltb b 0xf4
    then pending 3 0x80 0xbf
    else if b == 0xf4
    then pending 3 0x80 0x8f
    else none

next_byte : Pending → ℕ → Option Pending
next_byte p b =
    if p.more == 0
    then first_byte b
    else if leb p.low b && leb b p.high
    then pending (p.more - 1) 0x80 0xbf
    else none

utf8_from : Pending → Bytes → Bool
utf8_from p [] = p.more == 0
utf8_from p (b ∷ s) = elim (next_byte p b) [ none ↦ false | some q ↦ utf8_from q s ]

-- `str::from_utf8(..).is_ok()`
unfoldable pub is_utf8 : Bytes → Bool
unfolding first_byte next_byte utf8_from
is_utf8 s = utf8_from (record { more = 0; low = 0x80; high = 0xbf }) s

pub is_space : ℕ → Bool
is_space c = c == 32 || (leb 9 c && leb c 13)

unfoldable pub trim_start : Bytes → Bytes
unfolding is_space
trim_start [] = []
trim_start (c ∷ s) = let rest = trim_start s in if is_space c then rest else c ∷ s

unfoldable pub trim_end : Bytes → Bytes
unfolding is_space
trim_end [] = []
trim_end (c ∷ s) = let rest = trim_end s in if is_space c && is_empty rest then [] else c ∷ rest

-- `str::trim`
unfoldable pub trim : Bytes → Bytes
unfolding trim_start trim_end
trim s = trim_end (trim_start s)

-- `str::split_once` at a byte.
unfoldable pub split_once : ℕ → Bytes → Option (Bytes × Bytes)
split_once c [] = none
split_once c (x ∷ s) =
    let rest = split_once c s in
    if x == c then some ([], s) else elim rest [ none ↦ none | some (a, b) ↦ some (x ∷ a, b) ]

-- `parse::<u64>()`: the digits, each step within the word.
unfoldable pub digits_from : ℕ → Bytes → Option ℕ
digits_from n [] = some n
digits_from n (c ∷ s) =
    let m = n * 10 + (c - 48) in
    if leb 48 c && leb c 57 && ltb m (2 ^ 64) then digits_from m s else none

unfoldable pub digits : Bytes → Option ℕ
digits [] = none
digits (c ∷ s) = digits_from 0 (c ∷ s)

unfoldable pub parse_u64 : Bytes → Option ℕ
unfolding digits_from digits
parse_u64 [] = none
parse_u64 (c ∷ s) = if c == b'+' then digits s else digits (c ∷ s)

pub length-trim_start : (s : Bytes) → length (trim_start s) ≤ length s
unfolding trim_start
length-trim_start [] = omega arith
length-trim_start (c ∷ s) = ground (arith, length-trim_start s)

pub length-trim_end : (s : Bytes) → length (trim_end s) ≤ length s
unfolding trim_end
length-trim_end [] = omega arith
length-trim_end (c ∷ s) = ground (arith, length-trim_end s)

pub length-trim : (s : Bytes) → length (trim s) ≤ length s
unfolding trim
length-trim s = omega (arith, length-trim_end (trim_start s), length-trim_start s)

pub length-split_once :
    (c : ℕ) (s a b : Bytes) → split_once c s ≡ some (a, b) → length a + length b + 1 ≤ length s
unfolding split_once
length-split_once c [] a b h = cc
length-split_once c (x ∷ s) a b h = elim (Bool-cases (x == c)) [
  | inl e ↦ ground (arith, e, h)
  | inr e ↦ elim (Option-cases (split_once c s)) [
    | inl f ↦ absurd (ground (arith, e, h, f))
    | inr (p, f) ↦ ground (arith, e, h, f, length-split_once c s p.0 p.1 f)
  ]
]

ascii-rest :
    (s : Bytes)
    → All (λ c. c < 0x80) s
    → utf8_from (record { more = 0; low = 0x80; high = 0xbf }) s ≡ true
unfolding utf8_from next_byte first_byte
ascii-rest [] h = refl
ascii-rest (c ∷ s) (h, hs) = ground (arith, ascii-rest s hs)

pub is_utf8-ascii : (s : Bytes) → All (λ c. c < 0x80) s → is_utf8 s ≡ true
unfolding is_utf8
is_utf8-ascii s h = ascii-rest s h

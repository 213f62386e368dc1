-- ===== src/Prelude/Decimal.antt =====
-- Numbers in decimal: `format!("{}", n)` of an unsigned number, `parse::<i64>()`, and that they agree.
use Prim.Native.Nat.{ℕ, zero, suc, ◌+◌, ◌-◌, ◌*◌, ◌/◌, ◌%◌, ◌^◌, ◌≤◌, ◌<◌}
use mathlib.Core.Path.{◌≡◌, refl}
use mathlib.Core.Logic.{inl, inr, ◌≢◌}
use mathlib.Core.Option.{Option, none, some}
use mathlib.Core.List.{[], ◌∷◌, ◌++◌}
use native.Mathlib.Omega.{arith}
use kernway.Prelude.Tests.{ltb, leb, ◌==◌, ltb→lt, ltb→le, if◌then◌else◌, Bool-cases}
use kernway.Prelude.Lists.{All, All-append}
use kernway.Prelude.Text.{Bytes}
use kernway.Prelude.Utf8.{digits_from, digits, parse_u64}

pub data ℤ : Type 0 where
  pos : ℕ → ℤ
  negsuc : ℕ → ℤ

unfoldable pub decimal_from : ℕ → ℕ → Bytes
decimal_from zero n = []
decimal_from (suc fuel) n =
    let rest = decimal_from fuel (n / 10) in
    if ltb n 10 then (48 + n) ∷ [] else rest ++ (48 + n % 10) ∷ []

-- The number bounds its digits.
unfoldable pub decimal : ℕ → Bytes
unfolding decimal_from
decimal n = decimal_from (suc n) n

-- A magnitude with the sign in front of it, within 64 bits.
abbrev signed_pos : Option ℕ → Option ℤ
signed_pos none = none
signed_pos (some n) = if ltb n (2 ^ 63) then some (pos n) else none

abbrev negated : ℕ → ℤ
negated zero = pos 0
negated (suc n) = negsuc n

abbrev signed_neg : Option ℕ → Option ℤ
signed_neg none = none
signed_neg (some n) = if leb n (2 ^ 63) then some (negated n) else none

-- `parse::<i64>()`
unfoldable pub parse_i64 : Bytes → Option ℤ
parse_i64 [] = none
parse_i64 (c ∷ s) = if c == b'-' then signed_neg (digits s) else signed_pos (parse_u64 (c ∷ s))

abbrev pub IsDigit : ℕ → Type 0
IsDigit c = (48 ≤ c) × (c ≤ 57)

decimal_from-IsDigit : (fuel n : ℕ) → All IsDigit (decimal_from fuel n)
unfolding decimal_from
decimal_from-IsDigit zero n = tt
decimal_from-IsDigit (suc fuel) n = elim (Bool-cases (ltb n 10)) [
  | inl small ↦ rw small ((omega arith, omega (arith, ltb→lt n 10 small)), tt)
  | inr large ↦ rw large (
      All-append IsDigit (decimal_from fuel (n / 10)) ((48 + n % 10) ∷ [])
        (decimal_from-IsDigit fuel (n / 10)) ((omega arith, omega arith), tt))
]

digits_from-append :
    (a b : ℕ) (s t : Bytes) → digits_from a s ≡ some b → digits_from a (s ++ t) ≡ digits_from b t
unfolding digits_from
digits_from-append a b [] t h = ground (arith, h)
digits_from-append a b (c ∷ s) t h = ground (arith, h, digits_from-append (a * 10 + (c - 48)) b s t)

digits_from-decimal :
    (fuel n : ℕ) → n < fuel → n < 2 ^ 64 → digits_from 0 (decimal_from fuel n) ≡ some n
unfolding decimal_from digits_from
digits_from-decimal zero n h k = absurd (omega arith)
digits_from-decimal (suc fuel) n h k = elim (Bool-cases (ltb n 10)) [
  | inl small ↦ rw small (ground (arith, ltb→lt n 10 small))
  | inr large ↦
      let big = ltb→le n 10 large in
      let upper = digits_from-decimal fuel (n / 10) (omega (arith, big)) (omega arith) in
      rw
        (
          large,
          digits_from-append 0 (n / 10) (decimal_from fuel (n / 10)) ((48 + n % 10) ∷ []) upper,
        )
        (ground arith)
]

parse_i64-digits :
    (n : ℕ) (s : Bytes)
    → All IsDigit s
    → s ≢ []
    → n < 2 ^ 63
    → digits_from 0 s ≡ some n
    → parse_i64 s ≡ some (pos n)
unfolding parse_i64 parse_u64 digits
parse_i64-digits n [] d e k h = absurd (e refl)
parse_i64-digits n (c ∷ s) (d, _) e k h = ground (arith, h)

decimal_from-cons : (fuel n : ℕ) → decimal_from (suc fuel) n ≢ []
unfolding decimal_from
decimal_from-cons fuel n h = elim (Bool-cases (ltb n 10)) [
  | inl small ↦ let x : (48 + n) ∷ [] ≡ [] = rw small at h in ground (arith, x)
  | inr large ↦
      let x : decimal_from fuel (n / 10) ++ (48 + n % 10) ∷ [] ≡ [] = rw large at h in
      nonempty (decimal_from fuel (n / 10)) x
]
  where
    nonempty : (s : Bytes) → s ++ (48 + n % 10) ∷ [] ≡ [] → ⊥
    nonempty [] x = ground (arith, x)
    nonempty (c ∷ s) x = ground (arith, x)

decimal_from-fuel : (f g n : ℕ) → n < f → n < g → decimal_from f n ≡ decimal_from g n
unfolding decimal_from
decimal_from-fuel zero g n h k = absurd (omega arith)
decimal_from-fuel (suc f) zero n h k = absurd (omega arith)
decimal_from-fuel (suc f) (suc g) n h k = elim (Bool-cases (ltb n 10)) [
  | inl small ↦ rw small refl
  | inr large ↦
      let big = ltb→le n 10 large in
      rw (large, decimal_from-fuel f g (n / 10) (omega (arith, big)) (omega (arith, big))) refl
]

-- The digits but the last, and the last.
pub decimal-step :
    (n : ℕ)
    → decimal n ≡ (if ltb n 10 then (48 + n) ∷ [] else decimal (n / 10) ++ (48 + n % 10) ∷ [])
unfolding decimal decimal_from
decimal-step n = elim (Bool-cases (ltb n 10)) [
  | inl small ↦ rw small refl
  | inr large ↦
      let big = ltb→le n 10 large in
      let same = decimal_from-fuel n (suc (n / 10)) (n / 10) (omega (arith, big)) (omega arith) in
      rw (large, same) refl
]

pub decimal-IsDigit : (n : ℕ) → All IsDigit (decimal n)
unfolding decimal
decimal-IsDigit n = decimal_from-IsDigit (suc n) n

-- A number that fits is read back from its digits.
pub parse_i64-decimal : (n : ℕ) → n < 2 ^ 63 → parse_i64 (decimal n) ≡ some (pos n)
unfolding decimal
parse_i64-decimal n h =
    parse_i64-digits n (decimal_from (suc n) n) (decimal_from-IsDigit (suc n) n)
      (decimal_from-cons n n) h (digits_from-decimal (suc n) n (omega arith) (omega arith))

parse_u64-digits :
    (n : ℕ) (s : Bytes) → All IsDigit s → s ≢ [] → digits_from 0 s ≡ some n → parse_u64 s ≡ some n
unfolding parse_u64 digits
parse_u64-digits n [] d e h = absurd (e refl)
parse_u64-digits n (c ∷ s) (d, _) e h = ground (arith, h)

pub parse_u64-decimal : (n : ℕ) → n < 2 ^ 64 → parse_u64 (decimal n) ≡ some n
unfolding decimal
parse_u64-decimal n h =
    parse_u64-digits n (decimal_from (suc n) n) (decimal_from-IsDigit (suc n) n)
      (decimal_from-cons n n) (digits_from-decimal (suc n) n (omega arith) h)

signed_pos-bound : (o : Option ℕ) (n : ℕ) → signed_pos o ≡ some (pos n) → n < 2 ^ 63
signed_pos-bound none n h = cc
signed_pos-bound (some m) n h = ground (arith, h)

signed_neg-bound : (o : Option ℕ) (n : ℕ) → signed_neg o ≡ some (pos n) → n < 2 ^ 63
signed_neg-bound none n h = cc
signed_neg-bound (some zero) n h = ground (arith, h)
signed_neg-bound (some (suc m)) n h = ground (arith, h)

pub parse_i64-bound : (s : Bytes) (n : ℕ) → parse_i64 s ≡ some (pos n) → n < 2 ^ 63
unfolding parse_i64
parse_i64-bound [] n h = cc
parse_i64-bound (c ∷ s) n h = elim (Bool-cases (c == b'-')) [
  | inl e ↦ signed_neg-bound (digits s) n (rw e at h)
  | inr e ↦ signed_pos-bound (parse_u64 (c ∷ s)) n (rw e at h)
]

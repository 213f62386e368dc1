-- ===== src/Orm/Json/Order.antt =====
-- `compare_field_values` of crates/kernway-orm-memory/src/lib.rs orders values of different types by their
-- printed texts, and is a total order nevertheless: texts print before numbers, and numbers before
-- truth values.
use Prim.Native.Nat.{Ordering}
use mathlib.Core.Option
use kernway.Prelude.{
  ℕ, ◌≤◌, ◌<◌, ◌≡◌, refl, Bool, true, false, Option, none, some, ◌∷◌, arith, Bytes, ltb, ltb→lt,
  ltb→le, Bool-cases, inl, inr,
}
use kernway.Orm.Ordered.{reverse, is_eq, is_le, text_cmp, options_cmp, IsTotalOrder}
use kernway.Orm.Ordered.Laws.{
  text_cmp-IsTotalOrder, bool_cmp-IsTotalOrder, options-IsTotalOrder, keyed-IsTotalOrder,
  congr-IsTotalOrder,
}
use kernway.Orm.Json.{
  Json, Value, null, bool, number, string, nested, value_text, bool_text, number_cmp, scalar,
  compare_field_values, floats_cmp,
}

-- What the code relies on: a text prints with a quote in front and a number with a digit or a sign,
-- and the floats of two numbers are comparable, by a total order.
pub record JsonLaws {F64 Number Nested : Type 0} (j : Json F64 Number Nested) : Type 0 where
  pub string_starts : (s : Bytes) → (t : Bytes) × (j.string_text s ≡ b'"' ∷ t)
  pub number_starts :
      (n : Number) → (c : ℕ) × (t : Bytes) × (j.number_text n ≡ c ∷ t) × (b'-' ≤ c) × (c ≤ b'9')
  pub magnitude : Number → Number → Ordering
  pub magnitude_total : IsTotalOrder magnitude
  pub finite : (n : Number) → (x : F64) × (j.as_f64 n ≡ some x)
  pub compared :
      (m n : Number) (x y : F64)
      → j.as_f64 m ≡ some x
      → j.as_f64 n ≡ some y
      → j.partial_cmp x y ≡ some (magnitude m n)

-- The values that `field_value` lets through.
data Scalar (Number : Type 0) : Type 0 where
  text : Bytes → Scalar Number
  num : Number → Scalar Number
  flag : Bool → Scalar Number

class : {Number : Type 0} → Scalar Number → ℕ
class (text s) = 0
class (num n) = 1
class (flag b) = 2

value : {Number Nested : Type 0} → Scalar Number → Value Number Nested
value (text s) = string s
value (num n) = number n
value (flag b) = bool b

as_scalar : {Number Nested : Type 0} → Value Number Nested → Option (Scalar Number)
as_scalar null = none
as_scalar (bool b) = some (flag b)
as_scalar (number n) = some (num n)
as_scalar (string s) = some (text s)
as_scalar (nested a) = none

module _ {F64 Number Nested : Type 0} (j : Json F64 Number Nested) (laws : JsonLaws j) where
  scalar_cmp : Scalar Number → Scalar Number → Ordering
  scalar_cmp a b = compare_field_values j (value a) (value b)

  number_cmp-magnitude : (m n : Number) → number_cmp j m n ≡ laws.magnitude m n
  number_cmp-magnitude m n =
      let (x, ex) = laws.finite m in
      let (y, ey) = laws.finite n in rw (ex, ey, floats_cmp, laws.compared m n x y ex ey) refl

  -- The first bytes decide between classes.
  scalar_cmp-lt : (a b : Scalar Number) → class a < class b → scalar_cmp a b ≡ Ordering.lt
  unfolding scalar_cmp compare_field_values value_text text_cmp bool_text class value
  scalar_cmp-lt (text s) (text t) h = absurd (omega arith)
  scalar_cmp-lt (text s) (num n) h =
      let (t, e) = laws.string_starts s in
      let (c, u, f, low, high) = laws.number_starts n in rw (e, f) (ground arith)
  scalar_cmp-lt (text s) (flag true) h = let (t, e) = laws.string_starts s in rw e refl
  scalar_cmp-lt (text s) (flag false) h = let (t, e) = laws.string_starts s in rw e refl
  scalar_cmp-lt (num n) (text s) h = absurd (omega arith)
  scalar_cmp-lt (num n) (num m) h = absurd (omega arith)
  scalar_cmp-lt (num n) (flag true) h =
      let (c, u, f, low, high) = laws.number_starts n in rw f (ground arith)
  scalar_cmp-lt (num n) (flag false) h =
      let (c, u, f, low, high) = laws.number_starts n in rw f (ground arith)
  scalar_cmp-lt (flag b) (text s) h = absurd (omega arith)
  scalar_cmp-lt (flag b) (num n) h = absurd (omega arith)
  scalar_cmp-lt (flag b) (flag d) h = absurd (omega arith)

  scalar_cmp-swap : (a b : Scalar Number) → scalar_cmp b a ≡ reverse (scalar_cmp a b)
  unfolding scalar_cmp compare_field_values value
  scalar_cmp-swap (text s) (text t) = text_cmp-IsTotalOrder.swap s t
  scalar_cmp-swap (num n) (num m) =
      rw (number_cmp-magnitude n m, number_cmp-magnitude m n) (laws.magnitude_total.swap n m)
  scalar_cmp-swap (flag b) (flag d) = bool_cmp-IsTotalOrder.swap b d
  scalar_cmp-swap a b = text_cmp-IsTotalOrder.swap (value_text j (value a)) (value_text j (value b))

  scalar_cmp_refl : (a : Scalar Number) → is_eq (scalar_cmp a a) ≡ true
  unfolding scalar_cmp compare_field_values value
  scalar_cmp_refl (text s) = text_cmp-IsTotalOrder.refl_eq s
  scalar_cmp_refl (num n) = rw (number_cmp-magnitude n n) (laws.magnitude_total.refl_eq n)
  scalar_cmp_refl (flag b) = bool_cmp-IsTotalOrder.refl_eq b

  class-le : (a b : Scalar Number) → is_le (scalar_cmp a b) ≡ true → class a ≤ class b
  class-le a b h = elim (Bool-cases (ltb (class b) (class a))) [
    | inl e ↦
        let below = scalar_cmp-lt b a (ltb→lt (class b) (class a) e) in
        absurd (ground (arith, below, scalar_cmp-swap b a, h))
    | inr e ↦ ltb→le (class b) (class a) e
  ]

  within_class :
      (a b c : Scalar Number)
      → class a ≡ class b
      → class b ≡ class c
      → is_le (scalar_cmp a b) ≡ true
      → is_le (scalar_cmp b c) ≡ true
      → is_le (scalar_cmp a c) ≡ true
  unfolding class scalar_cmp compare_field_values value
  within_class (text s) (text t) (text u) _ _ h k = text_cmp-IsTotalOrder.trans s t u h k
  within_class (num l) (num m) (num n) _ _ h k = rw (number_cmp-magnitude l n) (
      laws.magnitude_total.trans l m n (rw (number_cmp-magnitude l m) at h)
        (rw (number_cmp-magnitude m n) at k))
  within_class (flag a) (flag b) (flag c) _ _ h k = bool_cmp-IsTotalOrder.trans a b c h k
  within_class _ _ _ e f h k = absurd (ground (arith, e, f))

  scalar_cmp_trans :
      (a b c : Scalar Number)
      → is_le (scalar_cmp a b) ≡ true
      → is_le (scalar_cmp b c) ≡ true
      → is_le (scalar_cmp a c) ≡ true
  scalar_cmp_trans a b c h k =
      let low = class-le a b h in
      let high = class-le b c k in
      elim (Bool-cases (ltb (class a) (class c))) [
        | inl e ↦ rw (scalar_cmp-lt a c (ltb→lt (class a) (class c) e)) refl
        | inr e ↦
            let back = ltb→le (class a) (class c) e in
            within_class a b c (omega (arith, low, high, back)) (omega (arith, low, high, back)) h k
      ]

  scalar_cmp-IsTotalOrder : IsTotalOrder scalar_cmp
  scalar_cmp-IsTotalOrder = record {
    refl_eq = scalar_cmp_refl;
    swap = scalar_cmp-swap;
    trans = scalar_cmp_trans;
  }

  options_cmp-value :
      (a b : Option (Scalar Number))
      → options_cmp (compare_field_values j) (Option.map value a) (Option.map value b)
        ≡ options_cmp scalar_cmp a b
  unfolding scalar_cmp
  options_cmp-value none none = refl
  options_cmp-value none (some b) = refl
  options_cmp-value (some a) none = refl
  options_cmp-value (some a) (some b) = refl

  scalar-as_scalar : (v : Value Number Nested) → scalar v ≡ Option.map value (as_scalar v)
  unfolding scalar as_scalar value
  scalar-as_scalar null = refl
  scalar-as_scalar (bool b) = refl
  scalar-as_scalar (number n) = refl
  scalar-as_scalar (string s) = refl
  scalar-as_scalar (nested a) = refl

  -- `compare_field_values` on the values that `field_value` lets through, what is absent in front.
  pub compare_fields-IsTotalOrder :
      IsTotalOrder (λ v w. options_cmp (compare_field_values j) (scalar v) (scalar w))
  compare_fields-IsTotalOrder =
      congr-IsTotalOrder
        (keyed-IsTotalOrder (options-IsTotalOrder scalar_cmp-IsTotalOrder)
          (as_scalar {Number = Number} {Nested = Nested}))
        λ v w.
          rw (scalar-as_scalar v, scalar-as_scalar w)
            (options_cmp-value (as_scalar v) (as_scalar w))

-- ===== src/Orm/Spec.antt =====
-- crates/kernway-orm-core/src/spec.rs: predicate trees and what they say of a row. The `f64` of the
-- language is a parameter.
use Prim.Native.Nat.{Ordering}
use kernway.Prelude.{
  Bool, true, false, not, Option, none, some, List, ◌&&◌, ◌||◌, any, Bytes, is_empty,
}
use kernway.Orm.Ordered.{is_lt, is_eq, is_gt, is_le, is_ge, holds, text_cmp, contains_text}
use kernway.Orm.Json.{Json}

pub data Spec : Type 0 where
  eq : Bytes → Bytes → Spec
  ne : Bytes → Bytes → Spec
  gt : Bytes → Bytes → Spec
  lt : Bytes → Bytes → Spec
  gte : Bytes → Bytes → Spec
  lte : Bytes → Bytes → Spec
  like : Bytes → Bytes → Spec
  one_of : Bytes → List Bytes → Spec
  between : Bytes → Bytes → Bytes → Spec
  is_null : Bytes → Spec
  is_not_null : Bytes → Spec
  both : Spec → Spec → Spec
  either : Spec → Spec → Spec
  negated : Spec → Spec

-- `Some(o) if o != Ordering::Equal`
abbrev pub is_ne : Ordering → Bool
is_ne o = not (is_eq o)

-- `get(f).is_some_and(..)`
abbrev pub some_and : (Bytes → Bool) → Option Bytes → Bool
some_and p none = false
some_and p (some c) = p c

module _ {F64 Number Nested : Type 0} (j : Json F64 Number Nested) where
  open j use {parse_f64, partial_cmp}

  abbrev numbers_cmp : Option F64 → Option F64 → Ordering → Option Ordering
  numbers_cmp none b texts = some texts
  numbers_cmp (some a) none texts = some texts
  numbers_cmp (some a) (some b) texts = partial_cmp a b

  unfoldable pub cmp : Option Bytes → Bytes → Option Ordering
  cmp none query = none
  cmp (some field) query = numbers_cmp (parse_f64 field) (parse_f64 query) (text_cmp field query)

  unfoldable pub matches : Spec → (Bytes → Option Bytes) → Bool
  unfolding cmp
  matches (eq f v) get = holds is_eq (cmp (get f) v)
  matches (ne f v) get = holds is_ne (cmp (get f) v)
  matches (gt f v) get = holds is_gt (cmp (get f) v)
  matches (lt f v) get = holds is_lt (cmp (get f) v)
  matches (gte f v) get = holds is_ge (cmp (get f) v)
  matches (lte f v) get = holds is_le (cmp (get f) v)
  matches (like f v) get = some_and (contains_text v) (get f)
  matches (one_of f vs) get = any (λ v. holds is_eq (cmp (get f) v)) vs
  matches (between f lo hi) get = holds is_ge (cmp (get f) lo) && holds is_le (cmp (get f) hi)
  matches (is_null f) get = elim (get f) [ none ↦ true | some c ↦ is_empty c ]
  matches (is_not_null f) get = some_and (λ c. not (is_empty c)) (get f)
  matches (both a b) get = matches a get && matches b get
  matches (either a b) get = matches a get || matches b get
  matches (negated s) get = not (matches s get)

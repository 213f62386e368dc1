-- ===== src/Orm/Json.antt =====
-- The values of fields in crates/kernway-orm-memory/src/lib.rs. The values of serde_json are its nulls,
-- truth values, numbers and texts, and the arrays and objects, which the code never looks into. Its
-- numbers, how it prints values, and the `f64` of the language are parameters.
pub mod Order
use Prim.Native.Nat.{Ordering}
use kernway.Prelude.{Bool, true, false, Option, none, some, Bytes, codes}
use kernway.Orm.Ordered.{text_cmp, bool_cmp}

pub record Json (F64 Number Nested : Type 0) : Type 0 where
  pub parse_f64 : Bytes → Option F64
  pub partial_cmp : F64 → F64 → Option Ordering
  pub as_f64 : Number → Option F64
  pub number_text : Number → Bytes
  pub string_text : Bytes → Bytes
  pub nested_text : Nested → Bytes

pub data Value (Number Nested : Type 0) : Type 0 where
  null : Value Number Nested
  bool : Bool → Value Number Nested
  number : Number → Value Number Nested
  string : Bytes → Value Number Nested
  nested : Nested → Value Number Nested

-- `bool::to_string`
unfoldable pub bool_text : Bool → Bytes
bool_text true = codes "true"
bool_text false = codes "false"

module _ {Number Nested : Type 0} where
  unfoldable pub is_null : Value Number Nested → Bool
  is_null null = true
  is_null (bool b) = false
  is_null (number n) = false
  is_null (string s) = false
  is_null (nested a) = false

  -- The match of `field_value`.
  unfoldable pub scalar : Value Number Nested → Option (Value Number Nested)
  scalar null = none
  scalar (bool b) = some (bool b)
  scalar (number n) = some (number n)
  scalar (string s) = some (string s)
  scalar (nested a) = none

module _ {F64 Number Nested : Type 0} (j : Json F64 Number Nested) where
  open j use {parse_f64, partial_cmp, as_f64, number_text, string_text, nested_text}

  -- `Value::to_string`
  unfoldable pub value_text : Value Number Nested → Bytes
  unfolding bool_text
  value_text null = codes "null"
  value_text (bool b) = bool_text b
  value_text (number n) = number_text n
  value_text (string s) = string_text s
  value_text (nested a) = nested_text a

  -- The match of `get_field_str`.
  unfoldable pub field_text : Value Number Nested → Option Bytes
  unfolding bool_text
  field_text null = none
  field_text (bool b) = some (bool_text b)
  field_text (number n) = some (number_text n)
  field_text (string s) = some s
  field_text (nested a) = none

  abbrev pub floats_cmp : Option F64 → Option F64 → Ordering → Ordering
  floats_cmp none y texts = texts
  floats_cmp (some x) none texts = texts
  floats_cmp (some x) (some y) texts = elim (partial_cmp x y) [ none ↦ Ordering.eq | some o ↦ o ]

  abbrev pub number_cmp : Number → Number → Ordering
  number_cmp x y = floats_cmp (as_f64 x) (as_f64 y) (text_cmp (number_text x) (number_text y))

  unfoldable pub compare_field_values : Value Number Nested → Value Number Nested → Ordering
  unfolding value_text
  compare_field_values (number x) (number y) = number_cmp x y
  compare_field_values (string x) (string y) = text_cmp x y
  compare_field_values (bool x) (bool y) = bool_cmp x y
  compare_field_values a b = text_cmp (value_text a) (value_text b)

  -- A number against a text that is a number, or is not.
  abbrev float_to_query : F64 → Option F64 → Ordering → Option Ordering
  float_to_query lhs none texts = some texts
  float_to_query lhs (some rhs) texts = partial_cmp lhs rhs

  unfoldable pub number_to_query : Number → Bytes → Option Ordering
  number_to_query n query = elim (as_f64 n) [
    | none ↦ none
    | some lhs ↦ float_to_query lhs (parse_f64 query) (text_cmp (number_text n) query)
  ]

  unfoldable pub cmp_field_to_query : Value Number Nested → Bytes → Option Ordering
  unfolding number_to_query bool_text
  cmp_field_to_query null query = none
  cmp_field_to_query (bool b) query = some (text_cmp (bool_text b) query)
  cmp_field_to_query (number n) query = number_to_query n query
  cmp_field_to_query (string s) query = some (text_cmp s query)
  cmp_field_to_query (nested a) query = none

-- ===== src/Leaf/Value.antt =====
-- The model of a template: crates/kernway-core/src/template.rs. The `f64` of the language is a parameter, with
-- what the templates use of it.
use Prim.Native.Nat.{Ordering}
use kernway.Prelude.{
  ℕ, ℤ, pos, negsuc, ◌==◌, if◌then◌else◌, Bool, true, false, not, Option, none, some, Bytes, same,
  list_eq, nat_eq, is_empty,
}

-- `to_int` and `to_count` are `as i64` and `as usize`, `text` and `fixed_text` what `{}` and `{:.*}` print.
pub record Floats (F : Type 0) : Type 0 where
  pub zero : F
  pub one : F
  pub ten_to_15 : F
  pub negate : F → F
  pub abs : F → F
  pub fract : F → F
  pub plus : F → F → F
  pub minus : F → F → F
  pub times : F → F → F
  pub over : F → F → F
  pub modulo : F → F → F
  pub equal : F → F → Bool
  pub partial_cmp : F → F → Option Ordering
  pub is_finite : F → Bool
  pub of_int : ℤ → F
  pub to_int : F → ℤ
  pub of_count : ℕ → F
  pub to_count : F → ℕ
  pub parse : Bytes → Option F
  pub text : F → Bytes
  pub fixed_text : ℕ → F → Bytes

mutual
  pub data Value (F : Type 0) : Type 0 where
    null : Value F
    bool : Bool → Value F
    int : ℤ → Value F
    float : F → Value F
    str : Bytes → Value F
    seq : Values F → Value F
    map : Pairs F → Value F

  pub data Values (F : Type 0) : Type 0 where
    no_values : Values F
    value : Value F → Values F → Values F

  pub data Pairs (F : Type 0) : Type 0 where
    no_pairs : Pairs F
    pair : Bytes → Value F → Pairs F → Pairs F

abbrev pub is_zero : ℤ → Bool
is_zero (pos n) = n == 0
is_zero (negsuc n) = false

module _ {F : Type 0} where
  abbrev pub or_else : Option (Value F) → Option (Value F) → Option (Value F)
  or_else (some v) other = some v
  or_else none other = other

  -- The last pair with the key, as `rev().find(..)` finds it.
  unfoldable pub last_pair : Bytes → Pairs F → Option (Value F)
  last_pair key no_pairs = none
  last_pair key (pair k v ps) =
      let later = last_pair key ps in or_else later (if same k key then some v else none)

  unfoldable pub get : Value F → Bytes → Option (Value F)
  unfolding last_pair
  get (Value.map ps) key = last_pair key ps
  get _ key = none

module _ {F : Type 0} (floats : Floats F) where
  unfoldable pub is_truthy : Value F → Bool
  is_truthy Value.null = false
  is_truthy (Value.bool b) = b
  is_truthy (Value.int n) = not (is_zero n)
  is_truthy (Value.float x) = not (floats.equal x floats.zero)
  is_truthy (Value.str s) = not (is_empty s)
  is_truthy (Value.seq no_values) = false
  is_truthy (Value.seq (value v vs)) = true
  is_truthy (Value.map no_pairs) = false
  is_truthy (Value.map (pair k v ps)) = true

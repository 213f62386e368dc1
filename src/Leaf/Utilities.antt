-- ===== src/Leaf/Utilities.antt =====
-- The utility objects of crates/kernleaf/src/expr.rs.
use kernway.Prelude.{
  ℕ, zero, suc, Bool, true, false, Option, none, some, List, [], ◌∷◌, ◌++◌, ◌&&◌, ◌||◌,
  if◌then◌else◌, Bytes, codes, trim, split_once, is_empty, same, list_eq, nat_eq,
}
use kernway.Orm.Ordered.{contains_text}
use kernway.Leaf.Value.{Floats, Values, no_values, value}
use kernway.Leaf.Computed.{
  Cases, EvalVal, char_count, capitalize, padded, is_less, value_to_string, to_bool, as_seq,
  to_text, as_num, or_num,
}

abbrev pub joined : Bytes → ℕ → Option (Bytes × Bytes) → Bytes → Bytes
joined sign min_int none s = sign ++ padded min_int s
joined sign min_int (some (int_part, frac_part)) s =
    sign ++ (padded min_int int_part ++ b'.' ∷ frac_part)

module _ {F : Type 0} (floats : Floats F) where
  unfoldable pub format_decimal : F → ℕ → ℕ → Bytes
  format_decimal n min_int decimals =
      let sign = if is_less floats n floats.zero then codes "-" else [] in
      let s = floats.fixed_text decimals (floats.abs n) in joined sign min_int (split_once b'.' s) s

  abbrev pub arg : ℕ → List (EvalVal F) → Option (EvalVal F)
  arg i [] = none
  arg zero (a ∷ args) = some a
  arg (suc i) (a ∷ args) = arg i args

  abbrev pub text_arg : Option (EvalVal F) → Bytes
  text_arg none = []
  text_arg (some v) = to_text floats v

  abbrev pub num_arg : Option (EvalVal F) → F → F
  num_arg none d = d
  num_arg (some v) d = or_num floats (as_num floats v) d

  abbrev pub seq_arg : Option (EvalVal F) → Option (Values F)
  seq_arg none = none
  seq_arg (some v) = as_seq floats v

  abbrev pub count : Values F → ℕ
  count no_values = 0
  count (value v vs) = suc (count vs)

  abbrev pub no_elements : Values F → Bool
  no_elements no_values = true
  no_elements (value v vs) = false

  abbrev pub has_text : Bytes → Values F → Bool
  has_text needle no_values = false
  has_text needle (value v vs) = same (value_to_string floats v) needle || has_text needle vs

  abbrev pub of_seq : {A : Type 0} → A → (Values F → A) → Option (Values F) → A
  of_seq d f none = d
  of_seq d f (some vs) = f vs

  abbrev pub is_true : Option (EvalVal F) → Bool
  is_true none = false
  is_true (some v) = to_bool floats v

  abbrev pub default_text : Bytes → Bytes → Bytes
  default_text [] other = other
  default_text (c ∷ s) other = c ∷ s

  unfoldable pub strings_call : Cases → Bytes → List (EvalVal F) → EvalVal F → EvalVal F
  unfolding capitalize char_count
  strings_call cases method args other =
      let text = text_arg (arg 0 args) in
      let second = text_arg (arg 1 args) in
      if same method (codes "toUpperCase")
      then EvalVal.str (cases.to_uppercase text)
      else if same method (codes "toLowerCase")
      then EvalVal.str (cases.to_lowercase text)
      else if same method (codes "trim")
      then EvalVal.str (trim text)
      else if same method (codes "length")
      then EvalVal.num (floats.of_count (char_count text))
      else if same method (codes "isEmpty")
      then EvalVal.bool (is_empty text)
      else if same method (codes "contains")
      then EvalVal.bool (contains_text second text)
      else if same method (codes "capitalize")
      then EvalVal.str (capitalize cases text)
      else if same method (codes "defaultString")
      then EvalVal.str (default_text text second)
      else other

  unfoldable pub numbers_call : Bytes → List (EvalVal F) → EvalVal F → EvalVal F
  unfolding format_decimal
  numbers_call method args other =
      let n = num_arg (arg 0 args) floats.zero in
      let min_int = floats.to_count (num_arg (arg 1 args) floats.one) in
      if same method (codes "abs")
      then EvalVal.num (floats.abs n)
      else if same method (codes "formatInteger")
      then EvalVal.str (format_decimal n min_int 0)
      else if same method (codes "formatDecimal")
      then EvalVal.str
          (format_decimal n min_int (floats.to_count (num_arg (arg 2 args) floats.zero)))
      else other

  unfoldable pub lists_call : Bytes → List (EvalVal F) → EvalVal F → EvalVal F
  lists_call method args other =
      let items = seq_arg (arg 0 args) in
      if same method (codes "size")
      then EvalVal.num (floats.of_count (of_seq 0 count items))
      else if same method (codes "isEmpty")
      then EvalVal.bool (of_seq true no_elements items)
      else if same method (codes "contains")
      then EvalVal.bool (of_seq false (has_text (text_arg (arg 1 args))) items)
      else other

  unfoldable pub eval_util : Cases → Bytes → Bytes → List (EvalVal F) → EvalVal F
  unfolding strings_call numbers_call lists_call
  eval_util cases object method args =
      if same object (codes "strings")
      then strings_call cases method args EvalVal.null
      else if same object (codes "numbers")
      then numbers_call method args EvalVal.null
      else if same object (codes "lists")
      then lists_call method args EvalVal.null
      else if same object (codes "bools") && same method (codes "isTrue")
      then EvalVal.bool (is_true (arg 0 args))
      else EvalVal.null

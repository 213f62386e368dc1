-- ===== src/Leaf/Computed.antt =====
-- What the expressions of crates/kernleaf/src/expr.rs are evaluated to, and what operators and utilities make of it. The
-- change of a text's case is the language's, and a parameter; so are the floats.
use Prim.Native.Nat.{Ordering}
use kernway.Prelude.{
  ℕ, zero, suc, ◌-◌, ℤ, pos, negsuc, Bool, true, false, not, ◌&&◌, ◌||◌, Option, none, some, [],
  ◌∷◌, ◌++◌, ltb, leb, if◌then◌else◌, Bytes, codes, length, decimal, trim, is_empty, same, list_eq,
  nat_eq,
}
use kernway.Orm.Ordered.{is_lt, is_gt, is_le, is_ge, holds, text_cmp}
use kernway.Leaf.Expr.{BinOp}
use kernway.Leaf.Value.{Floats, Value, Values, is_truthy}

pub record Cases : Type 0 where
  pub to_uppercase : Bytes → Bytes
  pub to_lowercase : Bytes → Bytes

pub data EvalVal (F : Type 0) : Type 0 where
  reference : Value F → EvalVal F
  str : Bytes → EvalVal F
  num : F → EvalVal F
  bool : Bool → EvalVal F
  null : EvalVal F

unfoldable pub int_text : ℤ → Bytes
int_text (pos n) = decimal n
int_text (negsuc n) = b'-' ∷ decimal (suc n)

abbrev pub bool_word : Bool → Bytes
bool_word true = codes "true"
bool_word false = codes "false"

-- `chars().count()`: the bytes that start a character.
unfoldable pub char_count : Bytes → ℕ
char_count [] = 0
char_count (c ∷ s) = let rest = char_count s in if leb 0x80 c && ltb c 0xc0 then rest else suc rest

-- The bytes that belong to the character before, and the others.
unfoldable pub char_tail : Bytes → Bytes × Bytes
char_tail [] = ([], [])
char_tail (c ∷ s) =
    let (own, rest) = char_tail s in
    if leb 0x80 c && ltb c 0xc0 then (c ∷ own, rest) else ([], c ∷ s)

unfoldable pub capitalize : Cases → Bytes → Bytes
unfolding char_tail
capitalize cases [] = []
capitalize cases (c ∷ s) = let (own, rest) = char_tail s in cases.to_uppercase (c ∷ own) ++ rest

unfoldable pub zeros : ℕ → Bytes
zeros zero = []
zeros (suc n) = b'0' ∷ zeros n

abbrev pub padded : ℕ → Bytes → Bytes
padded min_int int_part =
    if ltb (length int_part) min_int
    then zeros (min_int - length int_part) ++ int_part
    else int_part

module _ {F : Type 0} (floats : Floats F) where
  abbrev pub is_less : F → F → Bool
  is_less a b = holds is_lt (floats.partial_cmp a b)

  unfoldable pub write_num : F → Bytes
  unfolding int_text
  write_num n =
      if floats.is_finite n
        && (floats.equal (floats.fract n) floats.zero && is_less (floats.abs n) floats.ten_to_15)
      then int_text (floats.to_int n)
      else floats.text n

  unfoldable pub value_to_string : Value F → Bytes
  unfolding write_num
  value_to_string Value.null = []
  value_to_string (Value.seq vs) = []
  value_to_string (Value.map ps) = []
  value_to_string (Value.bool b) = bool_word b
  value_to_string (Value.int n) = int_text n
  value_to_string (Value.float x) = write_num x
  value_to_string (Value.str s) = s

  unfoldable pub to_bool : EvalVal F → Bool
  to_bool (EvalVal.reference v) = is_truthy floats v
  to_bool (EvalVal.str s) = not (is_empty s)
  to_bool (EvalVal.num n) = not (floats.equal n floats.zero)
  to_bool (EvalVal.bool b) = b
  to_bool EvalVal.null = false

  unfoldable pub as_seq : EvalVal F → Option (Values F)
  as_seq (EvalVal.reference (Value.seq vs)) = some vs
  as_seq _ = none

  -- What `write_string` appends.
  unfoldable pub to_text : EvalVal F → Bytes
  unfolding value_to_string
  to_text (EvalVal.reference v) = value_to_string v
  to_text (EvalVal.str s) = s
  to_text (EvalVal.bool b) = bool_word b
  to_text (EvalVal.num n) = write_num n
  to_text EvalVal.null = []

  unfoldable pub as_num : EvalVal F → Option F
  as_num (EvalVal.num n) = some n
  as_num (EvalVal.bool b) = some (if b then floats.one else floats.zero)
  as_num (EvalVal.reference (Value.int n)) = some (floats.of_int n)
  as_num (EvalVal.reference (Value.float x)) = some x
  as_num (EvalVal.reference (Value.str s)) = floats.parse (trim s)
  as_num (EvalVal.str s) = floats.parse (trim s)
  as_num _ = none

  unfoldable pub is_null : EvalVal F → Bool
  is_null EvalVal.null = true
  is_null (EvalVal.reference Value.null) = true
  is_null _ = false

  abbrev pub or_num : Option F → F → F
  or_num none d = d
  or_num (some n) d = n

  abbrev pub equal_num : Option F → Option F → Bool → Bool
  equal_num (some a) (some b) texts = floats.equal a b
  equal_num none b texts = texts
  equal_num (some a) none texts = texts

  unfoldable pub values_equal : EvalVal F → EvalVal F → Bool
  unfolding is_null as_num to_text
  values_equal l r =
      if is_null l || is_null r
      then is_null l && is_null r
      else equal_num (as_num l) (as_num r) (same (to_text l) (to_text r))

  -- By numbers, or by texts where one of them is no number.
  abbrev pub compared : Option F → Option F → Ordering → Option Ordering
  compared (some a) (some b) texts = floats.partial_cmp a b
  compared none b texts = some texts
  compared (some a) none texts = some texts

  abbrev pub added : Option F → Option F → Bytes → EvalVal F
  added (some a) (some b) texts = EvalVal.num (floats.plus a b)
  added none b texts = EvalVal.str texts
  added (some a) none texts = EvalVal.str texts

  unfoldable pub order_of : EvalVal F → EvalVal F → Option Ordering
  unfolding as_num to_text
  order_of l r = compared (as_num l) (as_num r) (text_cmp (to_text l) (to_text r))

  abbrev pub calculated : (F → F → F) → EvalVal F → EvalVal F → EvalVal F
  calculated op l r =
      EvalVal.num (op (or_num (as_num l) floats.zero) (or_num (as_num r) floats.zero))

  unfoldable pub eval_binary : BinOp → EvalVal F → EvalVal F → EvalVal F
  unfolding to_bool values_equal order_of as_num to_text
  eval_binary BinOp.or l r = EvalVal.bool (to_bool l || to_bool r)
  eval_binary BinOp.and l r = EvalVal.bool (to_bool l && to_bool r)
  eval_binary BinOp.eq l r = EvalVal.bool (values_equal l r)
  eval_binary BinOp.ne l r = EvalVal.bool (not (values_equal l r))
  eval_binary BinOp.gt l r = EvalVal.bool (holds is_gt (order_of l r))
  eval_binary BinOp.lt l r = EvalVal.bool (holds is_lt (order_of l r))
  eval_binary BinOp.ge l r = EvalVal.bool (holds is_ge (order_of l r))
  eval_binary BinOp.le l r = EvalVal.bool (holds is_le (order_of l r))
  eval_binary BinOp.add l r = added (as_num l) (as_num r) (to_text l ++ to_text r)
  eval_binary BinOp.sub l r = calculated floats.minus l r
  eval_binary BinOp.mul l r = calculated floats.times l r
  eval_binary BinOp.div l r = calculated floats.over l r
  eval_binary BinOp.rem l r = calculated floats.modulo l r

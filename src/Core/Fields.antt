-- ===== src/Core/Fields.antt =====
-- crates/kernway-core/src/fields.rs: `Fields`, the pairs of a request as ranges into one buffer.
-- `ci` is the const parameter CASE_INSENSITIVE: true for `Headers`, false for `QueryParams`. An
-- offset past `u32` panics in the source; here the operation has no result.
pub mod View
pub mod Get
mod Tests
use kernway.Prelude.{
  ℕ, ◌+◌, ◌-◌, ◌^◌, Bool, true, false, not, Option, none, some, List, [], ◌∷◌, ◌++◌, map, ltb,
  if◌then◌else◌, length, take, drop, keep, Bytes, bytes_eq, same, is_empty, lowercase,
  eq_ignore_case,
}
use mathlib.Core.Option

pub record Entry : Type 0 where
  pub name_start : ℕ
  pub name_end : ℕ
  pub value_start : ℕ
  pub value_end : ℕ

pub record Fields : Type 0 where
  pub buf : Bytes
  pub entries : List Entry

-- `Fields::new`, and `with_capacity`, which only reserves room.
abbrev pub new : Fields
new = record { buf = []; entries = [] }

-- `&buf[start..end]`
unfoldable pub range : Bytes → ℕ → ℕ → Bytes
range buf start end = take (end - start) (drop start buf)

-- Names are stored in lower case where case does not matter.
unfoldable pub normalized : Bool → Bytes → Bytes
normalized ci name = if ci then lowercase name else name

-- Whether a stored name is the given one.
unfoldable pub matches : Bool → Bytes → Bytes → Bool
matches ci stored name = if ci then eq_ignore_case stored name else same stored name

unfoldable pub name_matches : Bool → Bytes → Entry → Bytes → Bool
name_matches ci buf e name = matches ci (range buf e.name_start e.name_end) name

-- `u32::try_from(len).expect(..)`
unfoldable pub offset : ℕ → Option ℕ
offset len = if ltb len (2 ^ 32) then some len else none

infixl 5 ◌>>=◌
abbrev ◌>>=◌ {ℓ κ} : {A : Type ℓ} {B : Type κ} → Option A → (A → Option B) → Option B
none >>= k = none
some a >>= k = k a

unfoldable pub push : Bool → Fields → Bytes → Bytes → Option Fields
unfolding offset
push ci f name value = do
  name_start ← offset (length f.buf)
  let named = f.buf ++ normalized ci name
  name_end ← offset (length named)
  let full = named ++ value
  value_end ← offset (length full)
  some (record {
    buf = full;
    entries =
        f.entries
        ++ record {
          name_start = name_start;
          name_end = name_end;
          value_start = name_end;
          value_end = value_end;
        }
          ∷ [];
  })

-- `retain`s the entries of other names, then pushes.
unfoldable pub insert : Bool → Fields → Bytes → Bytes → Option Fields
insert ci f name value =
    push ci (record f { entries = keep (λ e. not (name_matches ci f.buf e name)) f.entries }) name
      value

unfoldable pub append : Bool → Fields → Bytes → Bytes → Option Fields
append ci f name value = push ci f name value

-- `iter().rev().find(..)`
unfoldable pub find_last {ℓ} : {A : Type ℓ} → (A → Bool) → List A → Option A
find_last p [] = none
find_last p (x ∷ xs) = elim (find_last p xs) [
  | some y ↦ some y
  | none ↦ if p x then some x else none
]

unfoldable pub get : Bool → Fields → Bytes → Option Bytes
get ci f name =
    Option.map (λ e. range f.buf e.value_start e.value_end)
      (find_last (λ e. name_matches ci f.buf e name) f.entries)

unfoldable pub contains_key : Bool → Fields → Bytes → Bool
contains_key ci f name = elim (get ci f name) [ none ↦ false | some v ↦ true ]

unfoldable pub iter : Fields → List (Bytes × Bytes)
iter f =
    map (λ e. (range f.buf e.name_start e.name_end, range f.buf e.value_start e.value_end))
      f.entries

unfoldable pub len : Fields → ℕ
len f = length f.entries

unfoldable pub byte_len : Fields → ℕ
byte_len f = length f.buf

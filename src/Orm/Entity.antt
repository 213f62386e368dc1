-- ===== src/Orm/Entity.antt =====
-- crates/kernway-orm-core/src/entity.rs and error.rs: what a repository asks of the rows that it stores, and what
-- its operations fail with. How a row is turned into a value of serde_json and back is the row's own.

use kernway.Prelude.{ℕ, ◌≡◌, Bool, Option, none, some, List, Bytes, Map, lookup, list_eq, nat_eq}
use kernway.Orm.Json.{Json, Value, scalar, field_text}

pub data ColumnType : Type 0 where
  integer : ColumnType
  big_int : ColumnType
  text : ColumnType
  boolean : ColumnType
  float : ColumnType
  timestamp : ColumnType
  json : ColumnType
  unknown : ColumnType

pub record ColumnDef : Type 0 where
  pub name : Bytes
  pub field : Bytes
  pub col_type : ColumnType
  pub nullable : Bool
  pub primary_key : Bool
  pub unique : Bool
  pub auto : Bool

-- The texts of the errors are left out.
pub data OrmError : Type 0 where
  not_found : OrmError
  unique_violation : Bytes → OrmError
  foreign_key_violation : OrmError
  connection : OrmError
  query : OrmError
  transaction : OrmError
  type_conversion : OrmError
  migration : OrmError
  unsupported : OrmError

pub data Result {ℓ} (A : Type ℓ) : Type ℓ where
  ok : A → Result A
  err : OrmError → Result A

infixl 5 ◌>>=◌
abbrev pub ◌>>=◌ {ℓ κ} : {A : Type ℓ} {B : Type κ} → Result A → (A → Result B) → Result B
ok a >>= f = f a
err e >>= f = err e

-- `ok_or_else`
abbrev pub ok_or {ℓ} : {A : Type ℓ} → OrmError → Option A → Result A
ok_or e none = err e
ok_or e (some a) = ok a

pub ok_or-eq-ok {ℓ} :
    {A : Type ℓ} (e : OrmError) (o : Option A) {a : A} → ok_or e o ≡ ok a → o ≡ some a
ok_or-eq-ok e none h = cc
ok_or-eq-ok e (some b) h = cc

-- What `serde_json::to_value` gives of a row.
pub data Serialized (Number Nested : Type 0) : Type 0 where
  failed : Serialized Number Nested
  not_object : Serialized Number Nested
  object : Map Bytes (Value Number Nested) → Serialized Number Nested

pub record Entity (T Key Number Nested : Type 0) : Type 0 where
  pub id : T → Key
  pub default_id : Key
  pub columns : List ColumnDef
  pub id_of_number : ℕ → Option Key
  pub id_to_value : Key → Option (Value Number Nested)
  pub to_value : T → Serialized Number Nested
  pub from_value : Map Bytes (Value Number Nested) → Option T

module _ {T Key Number Nested : Type 0} (entity : Entity T Key Number Nested) where
  unfoldable pub raw_field_value : T → Bytes → Option (Value Number Nested)
  raw_field_value row field = elim (entity.to_value row) [
    | failed ↦ none
    | not_object ↦ none
    | object fields ↦ lookup field fields
  ]

  unfoldable pub field_value : T → Bytes → Option (Value Number Nested)
  unfolding scalar
  field_value row field = elim (raw_field_value row field) [ none ↦ none | some v ↦ scalar v ]

  unfoldable pub get_field_str : {F64 : Type 0} → Json F64 Number Nested → T → Bytes → Option Bytes
  unfolding field_text
  get_field_str j row field = elim (field_value row field) [ none ↦ none | some v ↦ field_text j v ]

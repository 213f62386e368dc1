-- ===== src/Core/Fields/Tests.antt =====
-- The header and query fields of crates/kernway-core/src/fields.rs on concrete names.
use kernway.Prelude.{◌≡◌, refl, true, false, none, some, [], ◌∷◌, arith, Bytes, codes, lowercase}
use kernway.Core.Fields.{
  Fields, new, range, normalized, matches, name_matches, push, insert, append, find_last, get, iter,
  len, byte_len,
}
use kernway.Core.Fields.View.{IsValid}
use kernway.Core.Fields.Get.{last_value}

fields : Unit {0}
unfolding range normalized matches name_matches push insert append find_last get iter len byte_len
    last_value lowercase
fields = tt

abbrev host : Bytes
host = codes "Host"

abbrev one : Fields
one = record {
  buf = codes "hosta";
  entries = record { name_start = 0; name_end = 4; value_start = 4; value_end = 5 } ∷ [];
}

abbrev two : Fields
two = record {
  buf = codes "hostahostb";
  entries =
      record { name_start = 0; name_end = 4; value_start = 4; value_end = 5 }
      ∷ record { name_start = 5; name_end = 9; value_start = 9; value_end = 10 }
      ∷ [];
}

abbrev replaced : Fields
replaced = record {
  buf = codes "hostahostb";
  entries = record { name_start = 5; name_end = 9; value_start = 9; value_end = 10 } ∷ [];
}

headers :
    (append true new host (codes "a") ≡ some one)
    × (append true one (codes "HOST") (codes "b") ≡ some two)
    × (insert true one (codes "HOST") (codes "b") ≡ some replaced)
    × (get true two (codes "hosT") ≡ some (codes "b"))
    × (get false one host ≡ none)
    × (byte_len replaced ≡ 10)
unfolding fields
headers = (refl, refl, refl, refl, refl, refl)

one-IsValid : IsValid one
one-IsValid = (omega arith, tt)

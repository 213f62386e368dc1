-- ===== src/Core/Fields/Get.antt =====
-- crates/kernway-core/src/fields.rs: lookups against the list of pairs, and after each change.
use kernway.Prelude.{
  ◌≡◌, refl, sym, ◌∙◌, Bool, true, false, not, Option, none, some, List, [], ◌∷◌, ◌++◌, map, arith,
  if◌then◌else◌, Bool-cases, inl, inr, keep, Bytes, bytes_eq, same_iff, lowercase, lowercase_idem,
}
use mathlib.Core.Option
use kernway.Core.Fields.{
  Entry, Fields, range, normalized, matches, name_matches, insert, append, find_last, get, iter,
}
use kernway.Core.Fields.View.{IsValid, iter-append, iter-insert}

-- The value of the last pair whose name is the given one.
unfoldable pub last_value : Bool → Bytes → List (Bytes × Bytes) → Option Bytes
last_value ci name [] = none
last_value ci name ((n, v) ∷ ps) = elim (last_value ci name ps) [
  | some w ↦ some w
  | none ↦ if matches ci n name then some v else none
]

-- `get` is the value of the last pair of that name.
pub get-last_value :
    (ci : Bool) (f : Fields) (name : Bytes) → get ci f name ≡ last_value ci name (iter f)
unfolding get iter find_last last_value name_matches
get-last_value ci f name = along f.entries
  where
    along :
        (es : List Entry)
        → Option.map
            (λ (e : Entry). range f.buf e.value_start e.value_end)
            (find_last (λ e. matches ci (range f.buf e.name_start e.name_end) name) es)
          ≡ last_value ci name (
              map
                (λ e. (range f.buf e.name_start e.name_end, range f.buf e.value_start e.value_end))
                es)
    along [] = refl
    along (e ∷ es) = ground (arith, along es)

last_value-append :
    (ci : Bool) (name n v : Bytes) (ps : List (Bytes × Bytes))
    → last_value ci name (ps ++ (n, v) ∷ [])
      ≡ (if matches ci n name then some v else last_value ci name ps)
unfolding last_value
last_value-append ci name n v [] = refl
last_value-append ci name n v ((k, w) ∷ ps) = ground (arith, last_value-append ci name n v ps)

-- Names that match a third match one another.
matches-through :
    (ci : Bool) (stored a b : Bytes)
    → matches ci stored a ≡ true
    → matches ci stored b ≡ true
    → matches ci (normalized ci a) b ≡ true
unfolding matches normalized
matches-through true stored a b p q = rw lowercase_idem (
    (same_iff _ _).1 (
      sym ((same_iff (lowercase stored) (lowercase a)).0 p)
      ∙ (same_iff (lowercase stored) (lowercase b)).0 q))
matches-through false stored a b p q =
    (same_iff a b).1 (sym ((same_iff stored a).0 p) ∙ (same_iff stored b).0 q)

last_value-keep :
    (ci : Bool) (name n : Bytes) (ps : List (Bytes × Bytes))
    → matches ci (normalized ci n) name ≡ false
    → last_value ci name (keep (λ p. not (matches ci p.0 n)) ps) ≡ last_value ci name ps
unfolding last_value
last_value-keep ci name n [] h = refl
last_value-keep ci name n ((k, w) ∷ ps) h =
    ground (arith, last_value-keep ci name n ps h, matches-through ci k n name)

-- After an append or an insert, a lookup by a name that matches the new one gives the new value,
-- and a lookup by any other name what it gave before.
pub get-append :
    (ci : Bool) (f g : Fields) (name value other : Bytes)
    → IsValid f
    → append ci f name value ≡ some g
    → get ci g other
      ≡ (if matches ci (normalized ci name) other then some value else get ci f other)
get-append ci f g name value other valid h =
    rw
      (
        get-last_value ci g other,
        get-last_value ci f other,
        (iter-append ci f g name value valid h).0,
      )
      (last_value-append ci other (normalized ci name) value (iter f))

pub get-insert :
    (ci : Bool) (f g : Fields) (name value other : Bytes)
    → IsValid f
    → insert ci f name value ≡ some g
    → get ci g other
      ≡ (if matches ci (normalized ci name) other then some value else get ci f other)
get-insert ci f g name value other valid h =
    rw
      (
        get-last_value ci g other,
        get-last_value ci f other,
        (iter-insert ci f g name value valid h).0,
      )
      (last_value-append ci other (normalized ci name) value _
        ∙ elim (Bool-cases (matches ci (normalized ci name) other)) [
          | inl e ↦ rw e refl
          | inr e ↦ rw e (last_value-keep ci other name (iter f) e)
        ])

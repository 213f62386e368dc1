-- ===== src/Orm/Ordered.antt =====
-- `std::cmp::Ordering`, `str::cmp`, `str::contains` and `sort_by` of the language, as
-- crates/kernway-orm-memory/src/lib.rs and crates/kernway-orm-core/src/spec.rs use them. `sort_by` is stable,
-- which insertion from the back is too.
pub mod Laws
pub mod Sorting
use Prim.Native.Nat.{compare, Ordering}
use kernway.Prelude.{
  ℕ, ◌≡◌, Bool, true, false, Option, none, some, List, [], ◌∷◌, ◌==◌, ◌&&◌, ◌||◌, if◌then◌else◌,
  Bytes,
}

abbrev pub reverse : Ordering → Ordering
reverse Ordering.lt = Ordering.gt
reverse Ordering.eq = Ordering.eq
reverse Ordering.gt = Ordering.lt

abbrev pub is_lt : Ordering → Bool
is_lt Ordering.lt = true
is_lt Ordering.eq = false
is_lt Ordering.gt = false

abbrev pub is_eq : Ordering → Bool
is_eq Ordering.lt = false
is_eq Ordering.eq = true
is_eq Ordering.gt = false

abbrev pub is_gt : Ordering → Bool
is_gt Ordering.lt = false
is_gt Ordering.eq = false
is_gt Ordering.gt = true

abbrev pub is_le : Ordering → Bool
is_le Ordering.lt = true
is_le Ordering.eq = true
is_le Ordering.gt = false

abbrev pub is_ge : Ordering → Bool
is_ge Ordering.lt = false
is_ge Ordering.eq = true
is_ge Ordering.gt = true

-- A test of a comparison that may be undefined.
abbrev pub holds : (Ordering → Bool) → Option Ordering → Bool
holds p none = false
holds p (some o) = p o

-- `str::cmp`: byte by byte, and a prefix comes first.
unfoldable pub text_cmp : Bytes → Bytes → Ordering
text_cmp [] [] = Ordering.eq
text_cmp [] (y ∷ t) = Ordering.lt
text_cmp (x ∷ s) [] = Ordering.gt
text_cmp (x ∷ s) (y ∷ t) = elim (compare x y) [
  | Ordering.lt ↦ Ordering.lt
  | Ordering.gt ↦ Ordering.gt
  | Ordering.eq ↦ text_cmp s t
]

unfoldable pub text_eq : Bytes → Bytes → Bool
text_eq [] [] = true
text_eq (x ∷ s) (y ∷ t) = x == y && text_eq s t
text_eq [] (y ∷ t) = false
text_eq (x ∷ s) [] = false

unfoldable pub has_prefix : Bytes → Bytes → Bool
has_prefix [] s = true
has_prefix (p ∷ ps) [] = false
has_prefix (p ∷ ps) (c ∷ s) = p == c && has_prefix ps s

-- `s.contains(pattern)`
unfoldable pub contains_text : Bytes → Bytes → Bool
unfolding has_prefix
contains_text pattern [] = has_prefix pattern []
contains_text pattern (c ∷ s) = has_prefix pattern (c ∷ s) || contains_text pattern s

-- `bool::cmp`
abbrev pub bool_cmp : Bool → Bool → Ordering
bool_cmp false false = Ordering.eq
bool_cmp false true = Ordering.lt
bool_cmp true false = Ordering.gt
bool_cmp true true = Ordering.eq

module _ {ℓ} {A : Type ℓ} (cmp : A → A → Ordering) where
  -- The match of `compare_entities` on two fields: what is absent comes first.
  abbrev pub options_cmp : Option A → Option A → Ordering
  options_cmp none none = Ordering.eq
  options_cmp none (some b) = Ordering.lt
  options_cmp (some a) none = Ordering.gt
  options_cmp (some a) (some b) = cmp a b

  -- In front of the first that is not smaller: what stood first stays first among equals.
  unfoldable pub insert_first : A → List A → List A
  insert_first x [] = x ∷ []
  insert_first x (y ∷ ys) =
      let rest = insert_first x ys in if is_le (cmp x y) then x ∷ y ∷ ys else y ∷ rest

  unfoldable pub sort_by : List A → List A
  sort_by [] = []
  sort_by (x ∷ xs) = insert_first x (sort_by xs)

-- What `sort_by` asks of its comparison: a total order, up to elements that compare as equal.
pub record IsTotalOrder {ℓ} {A : Type ℓ} (cmp : A → A → Ordering) : Type ℓ where
  pub refl_eq : (a : A) → is_eq (cmp a a) ≡ true
  pub swap : (a b : A) → cmp b a ≡ reverse (cmp a b)
  pub trans : (a b c : A) → is_le (cmp a b) ≡ true → is_le (cmp b c) ≡ true → is_le (cmp a c) ≡ true

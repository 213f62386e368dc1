-- ===== src/Orm/Query/Answers.antt =====
-- What the queries of crates/kernway-orm-memory/src/lib.rs give: the rows that match, in order, cut to the window.
use mathlib.Core.List.{Perm}
use mathlib.Core.List.Perm
use kernway.Prelude.{
  ℕ, zero, suc, ◌+◌, ◌≡◌, refl, false, Option, none, some, List, [], ◌∷◌, arith, ltb, if◌then◌else◌,
  get_elem?, take, drop, keep, Bytes,
}
use kernway.Orm.Ordered.{IsTotalOrder}
use kernway.Orm.Ordered.Laws.{keyed-IsTotalOrder, flipped-IsTotalOrder, congr-IsTotalOrder}
use kernway.Orm.Ordered.Sorting.{IsSorted, sort_by-perm, sort_by-IsSorted}
use kernway.Orm.Json.{Json, Value, scalar, null}
use kernway.Orm.Json.Order.{JsonLaws, compare_fields-IsTotalOrder}
use kernway.Orm.Entity.{Entity, ok, raw_field_value, field_value}
use kernway.Orm.Query.{
  MemoryQueryBuilder, Store, Order, asc, desc, matches_filters, compare_fields, compare_entities,
  sorted, lock, values, collect_items, apply_window, fetch_all,
}

get_elem?-drop {ℓ} :
    {A : Type ℓ} (n i : ℕ) (xs : List A) → get_elem? (drop n xs) i ≡ get_elem? xs (n + i)
get_elem?-drop zero i xs = ground arith
get_elem?-drop (suc n) i [] = ground arith
get_elem?-drop (suc n) i (x ∷ xs) = ground (arith, get_elem?-drop n i xs)

get_elem?-take {ℓ} :
    {A : Type ℓ} (n i : ℕ) (xs : List A)
    → get_elem? (take n xs) i ≡ (if ltb i n then get_elem? xs i else none)
get_elem?-take zero i xs = ground arith
get_elem?-take (suc n) i [] = ground arith
get_elem?-take (suc n) zero (x ∷ xs) = ground arith
get_elem?-take (suc n) (suc i) (x ∷ xs) = ground (arith, get_elem?-take n i xs)

-- The `i`th of a window on a list.
abbrev pub window_at {ℓ} : {A : Type ℓ} → Option ℕ → ℕ → List A → ℕ → Option A
window_at none offset xs i = get_elem? xs (offset + i)
window_at (some n) offset xs i = if ltb i n then get_elem? xs (offset + i) else none

apply_window-at {ℓ} :
    {A : Type ℓ} (q : MemoryQueryBuilder) (xs : List A) (i : ℕ)
    → get_elem? (apply_window q xs) i ≡ window_at q.limit q.offset xs i
unfolding apply_window
apply_window-at q xs i = go q.limit refl
  where
    go :
        (most : Option ℕ)
        → q.limit ≡ most
        → get_elem? (apply_window q xs) i ≡ window_at q.limit q.offset xs i
    go none e = rw e (get_elem?-drop q.offset i xs)
    go (some n) e = rw (e, get_elem?-take n i (drop q.offset xs), get_elem?-drop q.offset i xs) refl

module _ {T Key F64 Number Nested : Type 0} (j : Json F64 Number Nested)
    (entity : Entity T Key Number Nested) where
  -- The raw value of a field, with null for one that is absent.
  key_value : Bytes → T → Value Number Nested
  key_value field row = elim (raw_field_value entity row field) [ none ↦ null | some v ↦ v ]

  field_value-key :
      (row : T) (field : Bytes) → field_value entity row field ≡ scalar (key_value field row)
  unfolding field_value key_value scalar
  field_value-key row field = ground arith

  -- Every order that a query asks for is a total order of the rows, also where a field holds
  -- texts in some rows and numbers or truth values in others, or is absent: what `sort_by` needs
  -- so as not to panic.
  pub compare_entities-IsTotalOrder :
      (laws : JsonLaws j) (order : Order) → IsTotalOrder (compare_entities j entity order)
  unfolding compare_entities compare_fields
  compare_entities-IsTotalOrder laws (asc field) =
      congr-IsTotalOrder (keyed-IsTotalOrder (compare_fields-IsTotalOrder j laws) (key_value field))
        λ l r. rw (field_value-key l field, field_value-key r field) refl
  compare_entities-IsTotalOrder laws (desc field) =
      congr-IsTotalOrder
        (flipped-IsTotalOrder
          (keyed-IsTotalOrder (compare_fields-IsTotalOrder j laws) (key_value field)))
        λ l r. rw (field_value-key l field, field_value-key r field) refl

  abbrev pub OrderedBy : Option Order → List T → Type 0
  OrderedBy none rows = Unit
  OrderedBy (some order) rows = IsSorted (compare_entities j entity order) rows

  -- What a query promises: a row set that holds each matching row of the store exactly as often
  -- as the store does, in the order asked for, of which the result is the window.
  pub record Answers (q : MemoryQueryBuilder) (store : Store T Key) (result : List T) : Type 0 where
    pub selected : List T
    pub matching : Perm selected (keep (matches_filters j entity q) (values store.rows))
    pub ordered : OrderedBy q.order selected
    pub windowed : (i : ℕ) → get_elem? result i ≡ window_at q.limit q.offset selected i

  sorted-perm : (o : Option Order) (rows : List T) → Perm (sorted j entity o rows) rows
  unfolding sorted
  sorted-perm none rows = Perm.rfl
  sorted-perm (some order) rows = sort_by-perm (compare_entities j entity order) rows

  sorted-OrderedBy :
      (laws : JsonLaws j) (o : Option Order) (rows : List T) → OrderedBy o (sorted j entity o rows)
  unfolding sorted
  sorted-OrderedBy laws none rows = tt
  sorted-OrderedBy laws (some order) rows =
      sort_by-IsSorted (compare_entities j entity order) (compare_entities-IsTotalOrder laws order)
        rows

  -- A query on a store whose lock is not poisoned succeeds, with the matching rows in order, cut
  -- to the window.
  pub fetch_all-Answers :
      (laws : JsonLaws j) (q : MemoryQueryBuilder) (store : Store T Key)
      → store.poisoned ≡ false
      → (result : List T) × (fetch_all j entity q store ≡ ok result) × Answers q store result
  unfolding fetch_all collect_items lock
  fetch_all-Answers laws q store h =
      let found = keep (matches_filters j entity q) (values store.rows) in
      let rows = sorted j entity q.order found in
      (
        apply_window q rows,
        rw h refl,
        record {
          selected = rows;
          matching = sorted-perm q.order found;
          ordered = sorted-OrderedBy laws q.order found;
          windowed = apply_window-at q rows;
        },
      )

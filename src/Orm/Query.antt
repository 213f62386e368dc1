-- ===== src/Orm/Query.antt =====
-- `MemoryQueryBuilder` of crates/kernway-orm-memory/src/lib.rs: its builders, the filters, the order, the window
-- and the pages. The rows come in the order in which the map is walked, which the source leaves open.
pub mod Answers
pub mod Paging
pub mod Agreement
use Prim.Native.Nat.{Ordering}
use kernway.Prelude.{
  ℕ, ◌+◌, ◌*◌, ◌-◌, ◌^◌, min, Bool, true, false, not, Option, none, some, List, [], ◌∷◌, ◌++◌, map,
  ◌&&◌, any, all, take, drop, keep, length, ◌==◌, if◌then◌else◌, Bytes, Map,
}
use kernway.Orm.Ordered.{
  reverse, is_lt, is_eq, is_gt, is_le, is_ge, holds, text_eq, contains_text, options_cmp, sort_by,
}
use kernway.Orm.Json.{Json, Value, is_null, compare_field_values, cmp_field_to_query}
use kernway.Orm.Spec.{Spec, matches, some_and}
use kernway.Orm.Page.{Page, new_page}
use kernway.Orm.Entity.{
  Entity, OrmError, transaction, Result, ok, err, ◌>>=◌, raw_field_value, field_value,
  get_field_str,
}

pub data Filter : Type 0 where
  eq : Bytes → Bytes → Filter
  ne : Bytes → Bytes → Filter
  gt : Bytes → Bytes → Filter
  lt : Bytes → Bytes → Filter
  gte : Bytes → Bytes → Filter
  lte : Bytes → Bytes → Filter
  like : Bytes → Bytes → Filter
  one_of : Bytes → List Bytes → Filter
  between : Bytes → Bytes → Bytes → Filter
  null : Bytes → Filter
  not_null : Bytes → Filter

pub data Order : Type 0 where
  asc : Bytes → Order
  desc : Bytes → Order

pub record MemoryQueryBuilder : Type 0 where
  pub filters : List Filter
  pub spec : Option Spec
  pub order : Option Order
  pub limit : Option ℕ
  pub offset : ℕ

-- The rows behind a lock, which a panic of its holder poisons.
pub record Store (T Key : Type 0) : Type 0 where
  pub rows : Map Key T
  pub poisoned : Bool

unfoldable pub new_query : MemoryQueryBuilder
new_query = record { filters = []; spec = none; order = none; limit = none; offset = 0 }

-- `self.filters.push(..)` of every `filter_..` but the last.
unfoldable pub filter_by : MemoryQueryBuilder → Filter → MemoryQueryBuilder
filter_by q f = record q { filters = q.filters ++ f ∷ [] }

unfoldable pub filter_spec : MemoryQueryBuilder → Spec → MemoryQueryBuilder
filter_spec q s = record q { spec = some s }

unfoldable pub order_by_asc : MemoryQueryBuilder → Bytes → MemoryQueryBuilder
order_by_asc q field = record q { order = some (asc field) }

unfoldable pub order_by_desc : MemoryQueryBuilder → Bytes → MemoryQueryBuilder
order_by_desc q field = record q { order = some (desc field) }

unfoldable pub limit_to : MemoryQueryBuilder → ℕ → MemoryQueryBuilder
limit_to q n = record q { limit = some n }

unfoldable pub offset_by : MemoryQueryBuilder → ℕ → MemoryQueryBuilder
offset_by q n = record q { offset = n }

-- Nothing is loaded eagerly.
unfoldable pub with_relation : MemoryQueryBuilder → Bytes → MemoryQueryBuilder
with_relation q relation = q

unfoldable pub apply_window {ℓ} : {A : Type ℓ} → MemoryQueryBuilder → List A → List A
apply_window q items = elim q.limit [
  | none ↦ drop q.offset items
  | some n ↦ take n (drop q.offset items)
]

-- `store.lock()`
unfoldable pub lock : {T Key : Type 0} → Store T Key → Result (Map Key T)
lock s = if s.poisoned then err transaction else ok s.rows

abbrev pub values {ℓ κ} : {K : Type ℓ} {V : Type κ} → Map K V → List V
values m = map (λ entry. entry.1) m

-- `.and_then(..).map(..).unwrap_or(false)` and `.map(..).unwrap_or(false)`
abbrev pub some_holds {ℓ} : {A : Type ℓ} → (A → Bool) → Option A → Bool
some_holds p none = false
some_holds p (some a) = p a

unfoldable pub first_row {ℓ} : {T : Type ℓ} → List T → Option T
first_row [] = none
first_row (x ∷ xs) = some x

-- `page.saturating_mul(size)`
unfoldable pub page_start : ℕ → ℕ → ℕ
page_start page size = min (page * size) (2 ^ 64 - 1)

module _ {T Key F64 Number Nested : Type 0} (j : Json F64 Number Nested)
    (entity : Entity T Key Number Nested) where
  -- A test of a field against a query value.
  unfoldable pub compares : (Ordering → Bool) → T → Bytes → Bytes → Bool
  unfolding field_value cmp_field_to_query
  compares p row field value =
      some_holds (λ v. holds p (cmp_field_to_query j v value)) (field_value entity row field)

  unfoldable pub matches_filter : T → Filter → Bool
  unfolding compares get_field_str raw_field_value is_null text_eq
  matches_filter row (eq f v) = some_holds (λ c. text_eq c v) (get_field_str entity j row f)
  matches_filter row (ne f v) = some_holds (λ c. not (text_eq c v)) (get_field_str entity j row f)
  matches_filter row (gt f v) = compares is_gt row f v
  matches_filter row (lt f v) = compares is_lt row f v
  matches_filter row (gte f v) = compares is_ge row f v
  matches_filter row (lte f v) = compares is_le row f v
  matches_filter row (like f v) = some_holds (contains_text v) (get_field_str entity j row f)
  matches_filter row (one_of f vs) =
      some_holds (λ c. any (λ v. holds is_eq (cmp_field_to_query j c v)) vs)
        (field_value entity row f)
  matches_filter row (between f from to) =
      some_holds
        (λ c. holds is_ge (cmp_field_to_query j c from) && holds is_le (cmp_field_to_query j c to))
        (field_value entity row f)
  matches_filter row (null f) = some_holds is_null (raw_field_value entity row f)
  matches_filter row (not_null f) = some_holds (λ v. not (is_null v)) (raw_field_value entity row f)

  unfoldable pub matches_filters : MemoryQueryBuilder → T → Bool
  unfolding matches
  matches_filters q row =
      all (matches_filter row) q.filters
      && (elim q.spec [ none ↦ true | some s ↦ matches j s (get_field_str entity j row) ])

  unfoldable pub compare_fields : T → T → Bytes → Ordering
  compare_fields l r field =
      options_cmp (compare_field_values j) (field_value entity l field) (field_value entity r field)

  unfoldable pub compare_entities : Order → T → T → Ordering
  unfolding compare_fields compare_field_values
  compare_entities (asc field) l r = compare_fields l r field
  compare_entities (desc field) l r = reverse (compare_fields l r field)

  unfoldable pub sorted : Option Order → List T → List T
  sorted none items = items
  sorted (some order) items = sort_by (compare_entities order) items

  unfoldable pub collect_items : MemoryQueryBuilder → Store T Key → Result (List T)
  unfolding lock sorted
  collect_items q store = do
    rows ← lock store
    ok (sorted q.order (keep (matches_filters q) (values rows)))

  unfoldable pub fetch_all : MemoryQueryBuilder → Store T Key → Result (List T)
  unfolding apply_window
  fetch_all q store = do items ← collect_items q store; ok (apply_window q items)

  unfoldable pub fetch_one : MemoryQueryBuilder → Store T Key → Result (Option T)
  fetch_one q store = do items ← fetch_all (record q { limit = some 1 }) store; ok (first_row items)

  unfoldable pub fetch_count : MemoryQueryBuilder → Store T Key → Result ℕ
  fetch_count q store = do items ← collect_items q store; ok (length items)

  unfoldable pub fetch_page : MemoryQueryBuilder → Store T Key → ℕ → ℕ → Result (Page T)
  unfolding page_start
  fetch_page q store page size = do
    items ← collect_items q store
    ok (
        if size == 0
        then new_page [] (length items) page size
        else new_page (take size (drop (page_start page size) items)) (length items) page size)
